-- ===== src/Consix/Value.antt =====
-- search.cpp, the value of a step and the points near the centre: `CalculateStepValue`,
-- `SearchRange` and `ConstructComPoint`.
pub mod Restored
pub mod Range
use package.chess_set.Base.{
  ℕ, zero, suc, ◌+◌, ◌-◌, Bool, true, false, ◌&&◌, ◌||◌, not, List, [], ◌∷◌, ◌++◌, if◌then◌else◌,
  ltb, ◌==◌, length, take, bit_xor,
}
use package.chess_set.Base.Int.{ℤ, pos, negsuc, ◌+ℤ◌, ◌-ℤ◌, ◌==ℤ◌}
use package.chess_set.Consix.State.{
  Angle, angle0, angle45, angle90, angle135, angles, Point, Step, Line, Lines, Search, at, pair,
  next, empty, black, white,
}
use package.chess_set.Consix.Coord.{Pos, decrease_dir}
use package.chess_set.Consix.Lines.{pos_of}
use package.chess_set.Consix.Scan.Segment.{cal_single_line_value, analyze_line_seg_id}
use package.chess_set.Consix.Candidates.{sort, com_point_value}
use package.chess_set.Consix.Run.{
  Run, ◌>>=◌, ◌>>◌, pure, gets, gather, place, with_stone, with_stones,
}

-- The line `i` is one of those through `p`.
abbrev pub through : Point → ℤ → Bool
through p i =
    i ==ℤ p.y
    || i ==ℤ p.x +ℤ pos 19
    || i ==ℤ pos 38 +ℤ p.x +ℤ p.y -ℤ pos 5
    || i ==ℤ pos 38 +ℤ pos 27 +ℤ pos 13 +ℤ p.y -ℤ p.x

-- The values of the lines that the step does not touch: the loop over the 92 lines.
unfoldable pub other_lines : Lines → Step → ℕ → ℕ → ℕ → ℕ
other_lines lines step side zero i = 0
other_lines lines step side (suc count) i =
    let rest = other_lines lines step side count (suc i) in
    if through step.first (pos i) || through step.second (pos i)
    then rest
    else (lines side (pos i)).value + rest

-- `while (x != 0 && x != 18 && y != 0 && y != 18) DecreaseDir(x, y, k)`, on fuel.
unfoldable pub line_end : Angle → ℕ → Pos → Pos
line_end k zero p = p
line_end k (suc fuel) p =
    let rest = line_end k fuel (decrease_dir k p) in
    if not (p.x ==ℤ pos 0) && not (p.x ==ℤ pos 18) && not (p.y ==ℤ pos 0) && not (p.y ==ℤ pos 18)
    then rest
    else p

-- 19 rounds leave the board from any square of it.
abbrev pub end_fuel : ℕ
end_fuel = 20

-- Both stones count for the direction `k`, unless the two walks end on the same square.
unfoldable pub two_lines : Step → Angle → Bool
two_lines step k =
    let p = line_end k end_fuel (pos_of step.first) in
    let q = line_end k end_fuel (pos_of step.second) in not (p.x ==ℤ q.x) || not (p.y ==ℤ q.y)

-- `Sum1` for `side`, `Sum2` for the other side: the lines through the two stones.
unfoldable pub step_lines : Step → ℕ → Search → List Angle → ℕ
step_lines step side g [] = 0
step_lines step side g (k ∷ ks) =
    let first = cal_single_line_value g.pre_table g.board side k (pos_of step.first) in
    let second = cal_single_line_value g.pre_table g.board side k (pos_of step.second) in
    (if two_lines step k then first + second else first) + step_lines step side g ks

unfoldable pub calculate_step_value : Step → ℕ → Run ℤ
calculate_step_value step side = do
  com_value ← gets (λ g. other_lines g.line_info step side 92 0)
  per_value ← gets (λ g. other_lines g.line_info step (next side) 92 0)
  with_stones step.first step.second side (do
    sum1 ← gets (λ g. step_lines step side g angles)
    sum2 ← gets (λ g. step_lines step (next side) g angles)
    pure (pos sum1 -ℤ pos sum2 +ℤ pos com_value -ℤ pos per_value))

-- `step.HashID` of a step of two stones.
abbrev pub step_hash : Search → ℕ → Point → Point → ℕ
step_hash g side p q = bit_xor (g.hash_board side p.x p.y) (g.hash_board side q.x q.y)

-- A candidate with its value and its `HashID`.
unfoldable pub valued_step : Point → Point → ℕ → Run Step
valued_step p q side = do
  s_value ← calculate_step_value (pair p q) side
  hash_id ← gets (λ g. step_hash g side p q)
  pure (record (pair p q) { s_value = s_value; hash_id = hash_id })

-- For a colour that is neither, the source returns a variable that is not set.
unfoldable pub search_range : Search → ℕ
search_range g =
    if g.computer_color == black
    then if g.step_id == 2 then 2 else if g.step_id == 4 then 5 else 6
    else if g.computer_color == white
    then if g.step_id == 1 then 2 else if g.step_id == 3 then 5 else 6
    else 0

-- `for (i = 9 - r; i <= 9 + r; i++) for (j = 9 - r; j <= 9 + r; j++)`: the squares in their order.
unfoldable pub column : ℤ → ℤ → ℕ → List Point
column i j zero = []
column i j (suc count) = at i j ∷ column i (j +ℤ pos 1) count

unfoldable pub columns : ℤ → ℤ → ℕ → ℕ → List Point
columns i j height zero = []
columns i j height (suc count) = column i j height ++ columns (i +ℤ pos 1) j height count

unfoldable pub centre : ℕ → List Point
centre r = columns (pos 9 -ℤ pos r) (pos 9 -ℤ pos r) (r + r + 1) (r + r + 1)

-- One direction `k` of the innermost loop: `count` and the value of `second` so far. The call of
-- `CalculateStepValue` takes the two stones away, so later directions are looked at without them.
unfoldable pub near_round : Point → Point → ℕ → ℕ → ℕ → List Angle → ℕ → ℤ → Run (ℕ × ℤ)
near_round first second s side1 side2 [] count value = pure (count, value)
near_round first second s side1 side2 (k ∷ ks) count value = do
  id1 ← gets (λ g. analyze_line_seg_id g.pre_table g.board s k (pos_of first))
  id2 ← gets (λ g. analyze_line_seg_id g.pre_table g.board s k (pos_of second))
  if ltb 4 id1 || ltb 4 id2
      then (do
        v1 ← (if s == side1 then calculate_step_value (pair first second) s else pure (pos 0))
        v2 ← (if s == side2 then calculate_step_value (pair first second) s else pure (pos 0))
        near_round first second s side1 side2 ks (count + 1) (value +ℤ v1 +ℤ v2))
      else near_round first second s side1 side2 ks count value

-- One side `s` of the loop `for (s = 0; s < 2; s++)`: the value of `second`, and the points pushed.
unfoldable pub near_side : Point → Point → ℕ → ℕ → ℕ → ℤ → Run (ℤ × List Point)
near_side first second s side1 side2 value = do
  r ← with_stones first second s (near_round first second s side1 side2 angles 0 value)
  pure (r.1, if ltb 0 r.0 then record second { value = r.1 } ∷ [] else [])

unfoldable pub near_point : Point → ℕ → ℕ → Point → Run (List Point)
near_point first side1 side2 second = do
  free ← gets (λ g. g.board second.x second.y == empty)
  if free && (not (second.x ==ℤ first.x) || not (second.y ==ℤ first.y))
      then (do
        one ← near_side first second 0 side1 side2 (pos 0)
        two ← near_side first second 1 side1 side2 one.0
        pure (one.1 ++ two.1))
      else pure []

-- `ConstructComPoint`; of the lines `Si1` and `Si2` it reads the sides.
unfoldable pub construct_com_point : Point → ℕ → ℕ → Run (List Point)
construct_com_point first side1 side2 = do
  r ← gets search_range
  found ← gather (centre r) (near_point first side1 side2)
  let sorted = sort com_point_value found
  pure (if ltb 5 (length sorted) then take 5 sorted else sorted)
