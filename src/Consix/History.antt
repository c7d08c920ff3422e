-- ===== src/Consix/History.antt =====
-- search.cpp, the tables of the steps that earlier searches tried: `LookUpHashTable`,
-- `ReleaseHashTable` and the entry that `MaxSearch` and `MinSearch` add; `ConStrangeStep`.
pub mod Lookup
use package.chess_set.Base.{
  ℕ, zero, suc, ◌+◌, ◌-◌, Bool, true, false, ◌&&◌, ◌||◌, not, List, [], ◌∷◌, ◌++◌, if◌then◌else◌,
  ltb, leb, ◌==◌, Option, none, some,
}
use package.chess_set.Base.Int.{ℤ, pos, ◌+ℤ◌, ◌-ℤ◌}
use package.chess_set.Consix.State.{Step, HashHistory, Search, Board, at, pair, empty}
use package.chess_set.Consix.Run.{Run}

-- The first history of a table with the key that is looked for.
unfoldable pub find_history : ℕ → List HashHistory → Option HashHistory
find_history key [] = none
find_history key (h ∷ hs) =
    let rest = find_history key hs in if key == h.checksum then some h else rest

unfoldable pub found_history : Search → Option HashHistory → Bool × Search
found_history g none = (false, g)
found_history g (some h) = (true, record g { hash_list = h })

unfoldable pub look_up_hash_table : ℕ → Run Bool
look_up_hash_table depth g =
    if g.com_to_com
    then (false, g)
    else if leb 3 depth
    then (false, g)
    else found_history g (find_history g.hash_key64 (g.hash_table depth))

abbrev pub is_empty : List HashHistory → Bool
is_empty [] = true
is_empty (h ∷ hs) = false

-- Tables with something new in them replace the old ones, and are emptied.
unfoldable pub release_hash_table : Search → Search
release_hash_table g = record g {
  hash_table = λ i.
      if ltb i 3 && not (is_empty (g.temp_hash_table i))
      then g.temp_hash_table i
      else g.hash_table i;
  temp_hash_table =
      λ i. if ltb i 3 && not (is_empty (g.temp_hash_table i)) then [] else g.temp_hash_table i;
}

-- `if (Depth >= 2 && Depth <= MaxDepth[ComputerColor] - 1) TempHashTable[Depth - 2].push_back(…)`.
unfoldable pub remember : ℕ → Bool → List Step → Run (Unit {0})
remember depth pruning ms g =
    let seen : HashHistory = record {
      pruning = pruning;
      checksum = g.hash_key64;
      move_list = ms;
    } in
    if leb 2 depth && ltb depth (g.max_depth g.computer_color)
    then (
      tt,
      record g {
        temp_hash_table =
            λ i. if i == depth - 2 then g.temp_hash_table i ++ seen ∷ [] else g.temp_hash_table i;
      },
    )
    else (tt, g)

-- The two loops of `ConStrangeStep`: the first square with a stone, column by column; where there is
-- none, both counters are 19 at the end.
unfoldable pub first_in_column : Board → ℕ → ℕ → ℕ → Option ℕ
first_in_column b i zero j = none
first_in_column b i (suc count) j =
    let rest = first_in_column b i count (suc j) in
    if b (pos i) (pos j) == empty then rest else some j

unfoldable pub first_stone : Board → ℕ → ℕ → ℕ × ℕ
first_stone b zero i = (i, 19)
first_stone b (suc count) i = elim (first_in_column b i 19 0) [
  | none ↦ first_stone b count (suc i)
  | some j ↦ (i, j)
]

unfoldable pub con_strange_step : Board → Step
con_strange_step b =
    let (i, j) = first_stone b 19 0 in
    let x : ℤ = pos i in
    let y : ℤ = pos j in
    if leb i 9 && leb j 9
    then pair (at (x +ℤ pos 1) y) (at x (y +ℤ pos 1))
    else if leb i 9 && leb 9 j
    then pair (at x (y -ℤ pos 1)) (at (x +ℤ pos 1) y)
    else if leb 9 i && leb j 9
    then pair (at (x -ℤ pos 1) y) (at x (y +ℤ pos 1))
    else pair (at (x -ℤ pos 1) y) (at x (y -ℤ pos 1))
