-- ===== src/Consix/History/Lookup.antt =====
-- The tables of histories: what is remembered in one search is found in the next.
use chess_set.Base.{
  ℕ, ◌-◌, ◌≤◌, ◌<◌, Bool, true, false, ◌&&◌, not, ◌≡◌, refl, sym, ap, ◌∙◌, List, [], ◌∷◌, ◌++◌,
  if◌then◌else◌, ltb, leb, ◌==◌, Option, none, some, none-ne-some, if_true, if_false, ≡→==, le→leb,
  lt→ltb, lt→leb, inl, inr, Bool-cases, and_true, arith,
}
use chess_set.Base.Int.{ℤ}
use chess_set.Consix.State.{Step, HashHistory, Search}
use chess_set.Consix.Run.Keeps.{Keeps, IsSafe, Emptied-refl, Keeps-refl}
use chess_set.Consix.History.{
  find_history, found_history, look_up_hash_table, is_empty, release_hash_table, remember,
}

-- Both touch only the tables of histories.
module _ (P : ℤ → ℤ → Type 0) where
  Keeps-if :
      {A : Type 0} (g : Search) (c : Bool) (x y : A × Search)
      → Keeps P g x.1
      → Keeps P g y.1
      → Keeps P g (if c then x else y).1
  Keeps-if g true x y h k = h
  Keeps-if g false x y h k = k

  Keeps-found : (g : Search) (o : Option HashHistory) → Keeps P g (found_history g o).1
  unfolding found_history
  Keeps-found g none = Keeps-refl P g
  Keeps-found g (some h) = record { board = Emptied-refl P g.board; rest = refl }

  pub look_up_hash_table-IsSafe : (depth : ℕ) → IsSafe P (look_up_hash_table depth)
  unfolding look_up_hash_table
  look_up_hash_table-IsSafe depth = record {
    keeps = λ g w.
        Keeps-if g g.com_to_com (false, g) _ (Keeps-refl P g)
          (Keeps-if g (leb 3 depth) (false, g) _ (Keeps-refl P g)
            (Keeps-found g (find_history g.hash_key64 (g.hash_table depth))));
  }

  pub remember-IsSafe :
      (depth : ℕ) (pruning : Bool) (ms : List Step) → IsSafe P (remember depth pruning ms)
  unfolding remember
  remember-IsSafe depth pruning ms = record {
    keeps = λ g w.
        Keeps-if g (leb 2 depth && ltb depth (g.max_depth g.computer_color)) _ (tt, g)
          (record { board = Emptied-refl P g.board; rest = refl }) (Keeps-refl P g);
  }

find_history-append :
    (key : ℕ) (hs : List HashHistory) (h : HashHistory)
    → find_history key hs ≡ none
    → h.checksum ≡ key
    → find_history key (hs ++ h ∷ []) ≡ some h
unfolding find_history
find_history-append key [] h e k =
    if_true (key == h.checksum) (some h) none (≡→== key h.checksum (sym k))
find_history-append key (x ∷ hs) h e k = elim (Bool-cases (key == x.checksum)) [
  | inl c ↦
      absurd (none-ne-some x (sym e ∙ if_true (key == x.checksum) (some x) (find_history key hs) c))
  | inr c ↦ rw c (find_history-append key hs h (rw c at e) k)
]

not_empty : (hs : List HashHistory) (h : HashHistory) → is_empty (hs ++ h ∷ []) ≡ false
not_empty [] h = refl
not_empty (x ∷ hs) h = refl

found_at :
    (depth : ℕ) (g : Search) (h : HashHistory)
    → g.com_to_com ≡ false
    → depth < 3
    → find_history g.hash_key64 (g.hash_table depth) ≡ some h
    → look_up_hash_table depth g ≡ (true, record g { hash_list = h })
unfolding look_up_hash_table found_history
found_at depth g h c low e =
    if_false g.com_to_com (false, g) _ c
    ∙ if_false (leb 3 depth) (false, g) _ (lt→leb 3 depth low)
    ∙ ap (found_history g) e

-- What the search remembers of a position at one depth, and no search has remembered before, the next
-- move finds when the position comes up two levels higher, once the tables are released: the entry is
-- read back into `HashList`.
pub look_up-release-remember :
    (depth : ℕ) (pruning : Bool) (ms : List Step) (g : Search)
    → g.com_to_com ≡ false
    → 2 ≤ depth
    → depth < 5
    → depth < g.max_depth g.computer_color
    → find_history g.hash_key64 (g.temp_hash_table (depth - 2)) ≡ none
    → let released = release_hash_table (remember depth pruning ms g).1 in
      look_up_hash_table (depth - 2) released ≡ (
        true,
        record released {
          hash_list = record { pruning = pruning; checksum = g.hash_key64; move_list = ms };
        },
      )
unfolding remember release_hash_table look_up_hash_table
look_up-release-remember depth pruning ms g c low high max new =
    let seen : HashHistory = record {
      pruning = pruning;
      checksum = g.hash_key64;
      move_list = ms;
    } in
    let kept : Search = record g {
      temp_hash_table =
          λ i. if i == depth - 2 then g.temp_hash_table i ++ seen ∷ [] else g.temp_hash_table i;
    } in
    let e : remember depth pruning ms g ≡ (tt, kept) =
      if_true (leb 2 depth && ltb depth (g.max_depth g.computer_color)) (tt, kept) (tt, g)
        (and_true _ _ (le→leb 2 depth low) (lt→ltb depth _ max)) in
    let here : kept.temp_hash_table (depth - 2) ≡ g.temp_hash_table (depth - 2) ++ seen ∷ [] =
      if_true (depth - 2 == depth - 2) _ (g.temp_hash_table (depth - 2))
        (≡→== (depth - 2) (depth - 2) refl) in
    let full : not (is_empty (kept.temp_hash_table (depth - 2))) ≡ true =
      ap (λ hs. not (is_empty hs)) here ∙ ap not (not_empty (g.temp_hash_table (depth - 2)) seen) in
    let moved : (release_hash_table kept).hash_table (depth - 2)
        ≡ g.temp_hash_table (depth - 2) ++ seen ∷ [] =
      if_true (ltb (depth - 2) 3 && not (is_empty (kept.temp_hash_table (depth - 2)))) _
        (g.hash_table (depth - 2)) (and_true _ _ (lt→ltb (depth - 2) 3 (omega arith)) full)
      ∙ here in
    rw e (
      found_at (depth - 2) (release_hash_table kept) seen c (omega arith) (
        ap (find_history g.hash_key64) moved
        ∙ find_history-append g.hash_key64 (g.temp_hash_table (depth - 2)) seen new refl))
