-- ===== src/Consix/Coord/Edge.antt =====
-- The loops of `GetLineValueForCross` that walk back along a diagonal find its first square.
use chess_set.Base.{
  ℕ, zero, suc, ◌+◌, ◌<◌, ◌≡◌, sym, ◌∙◌, ◌⊎◌, inl, inr, true, false, ◌||◌, Bool-cases, arith,
  ltb→lt, ltb→le, or_split, or_none, ◌≢◌,
}
use chess_set.Base.Int.{
  ℤ, pos, pos_part, neg_part, ◌+ℤ◌, ◌-ℤ◌, ◌==ℤ◌, ltb_ℤ, int_laws, neg_part_of_nonneg, ==ℤ→≡, ==ℤ→≢,
}
use chess_set.Consix.State.{angle45, angle135}
use chess_set.Consix.Coord.{Pos, decrease_dir, get_start_point, back_to_edge45, back_to_edge135}
use chess_set.Consix.Coord.Geometry.{OnBoard, key, squares, get_start_point_of_key, Pos-eq}

start_at_edge45 :
    (p : Pos) → OnBoard p → (p.x ≡ pos 0) ⊎ (p.y ≡ pos 18) → get_start_point p angle45 ≡ p
unfolding get_start_point
start_at_edge45 p o c = elim (Bool-cases (ltb_ℤ (pos 18) (p.x +ℤ p.y))) [
  | inl e ↦ rw e (let l = ltb→lt _ _ e in Pos-eq (omega int_laws) (omega int_laws))
  | inr e ↦ rw e (let l = ltb→le _ _ e in Pos-eq (omega int_laws) (omega int_laws))
]

start_at_edge135 :
    (p : Pos) → OnBoard p → (p.x ≡ pos 0) ⊎ (p.y ≡ pos 0) → get_start_point p angle135 ≡ p
unfolding get_start_point
start_at_edge135 p o c = elim (Bool-cases (ltb_ℤ p.y p.x)) [
  | inl e ↦ rw e (let l = ltb→lt _ _ e in Pos-eq (omega int_laws) (omega int_laws))
  | inr e ↦ rw e (let l = ltb→le _ _ e in Pos-eq (omega int_laws) (omega int_laws))
]

at_edge : (a b c : ℤ) → (a ==ℤ pos 0 || b ==ℤ c) ≡ true → (a ≡ pos 0) ⊎ (b ≡ c)
at_edge a b c h = elim (or_split (a ==ℤ pos 0) (b ==ℤ c) h) [
  | inl e ↦ inl (==ℤ→≡ a (pos 0) e)
  | inr e ↦ inr (==ℤ→≡ b c e)
]

off_edge : (a b c : ℤ) → (a ==ℤ pos 0 || b ==ℤ c) ≡ false → (a ≢ pos 0) × (b ≢ c)
off_edge a b c h =
    let both = or_none (a ==ℤ pos 0) (b ==ℤ c) h in (==ℤ→≢ a (pos 0) both.0, ==ℤ→≢ b c both.1)

-- A number of the board that is not `c` differs from it in its parts.
parts_ne : (a : ℤ) (c : ℕ) → a ≢ pos c → pos_part a ≢ c + neg_part a
parts_ne a c h e = h (omega int_laws)

decrease45 :
    (p : Pos)
    → OnBoard p
    → (p.x ≢ pos 0) × (p.y ≢ pos 18)
    → OnBoard (decrease_dir angle45 p)
      × (pos_part (p.x -ℤ pos 1) + 1 ≡ pos_part p.x)
      × (key angle45 (decrease_dir angle45 p) ≡ key angle45 p)
unfolding decrease_dir key
decrease45 p o c =
    let o' = squares o in
    let l = parts_ne p.x 0 c.0 in
    let r = parts_ne p.y 18 c.1 in
    let n = neg_part_of_nonneg (p.x -ℤ pos 1) (omega int_laws) in
    (omega int_laws, omega int_laws, omega int_laws)

decrease135 :
    (p : Pos)
    → OnBoard p
    → (p.x ≢ pos 0) × (p.y ≢ pos 0)
    → OnBoard (decrease_dir angle135 p)
      × (pos_part (p.x -ℤ pos 1) + 1 ≡ pos_part p.x)
      × (key angle135 (decrease_dir angle135 p) ≡ key angle135 p)
unfolding decrease_dir key
decrease135 p o c =
    let o' = squares o in
    let l = parts_ne p.x 0 c.0 in
    let r = parts_ne p.y 0 c.1 in
    let n = neg_part_of_nonneg (p.x -ℤ pos 1) (omega int_laws) in
    (omega int_laws, omega int_laws, omega int_laws)

-- The loops that walk back to the edge stop at the start that `GetStartPoint` computes.
back_to_edge45-eq :
    (n : ℕ) (p : Pos)
    → OnBoard p
    → pos_part p.x < n
    → back_to_edge45 n p ≡ get_start_point p angle45
unfolding back_to_edge45 decrease_dir
back_to_edge45-eq zero p o h = absurd (omega arith)
back_to_edge45-eq (suc n) p o h = elim (Bool-cases (p.x ==ℤ pos 0 || p.y ==ℤ pos 18)) [
  | inl e ↦ rw e (sym (start_at_edge45 p o (at_edge p.x p.y (pos 18) e)))
  | inr e ↦
      let (on, less, same) = decrease45 p o (off_edge p.x p.y (pos 18) e) in
      rw e (
        back_to_edge45-eq n (decrease_dir angle45 p) on (omega arith)
        ∙ get_start_point_of_key angle45 _ p same)
]

back_to_edge135-eq :
    (n : ℕ) (p : Pos)
    → OnBoard p
    → pos_part p.x < n
    → back_to_edge135 n p ≡ get_start_point p angle135
unfolding back_to_edge135 decrease_dir
back_to_edge135-eq zero p o h = absurd (omega arith)
back_to_edge135-eq (suc n) p o h = elim (Bool-cases (p.x ==ℤ pos 0 || p.y ==ℤ pos 0)) [
  | inl e ↦ rw e (sym (start_at_edge135 p o (at_edge p.x p.y (pos 0) e)))
  | inr e ↦
      let (on, less, same) = decrease135 p o (off_edge p.x p.y (pos 0) e) in
      rw e (
        back_to_edge135-eq n (decrease_dir angle135 p) on (omega arith)
        ∙ get_start_point_of_key angle135 _ p same)
]

-- From every square of the board, the loops of `GetLineValueForCross` that walk back along the
-- two diagonals find, within 20 rounds, the square that `GetStartPoint` computes.
pub back_to_edge-get_start_point :
    (p : Pos)
    → OnBoard p
    → (back_to_edge45 20 p ≡ get_start_point p angle45)
      × (back_to_edge135 20 p ≡ get_start_point p angle135)
back_to_edge-get_start_point p o =
    let o' = squares o in
    (back_to_edge45-eq 20 p o (omega arith), back_to_edge135-eq 20 p o (omega arith))
