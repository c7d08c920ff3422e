-- ===== src/Consix/Scan/Fuel.antt =====
-- The loop that scans a line ends by itself: 20 rounds are enough, and more change nothing.
use chess_set.Base.{
  ℕ, zero, suc, ◌+◌, ◌≤◌, ◌≡◌, refl, sym, ◌∙◌, ap, inl, inr, ◌⊎◌, false, Bool-cases, Sum-cases,
  subst, arith,
}
use chess_set.Base.Int.{ℤ, pos, ◌+ℤ◌, ◌≤ℤ◌, int_laws}
use chess_set.Consix.State.{Angle, angle0, angle45, angle90, angle135, Line, Board}
use chess_set.Consix.Coord.{Pos, increase_dir, inside}
use chess_set.Consix.Coord.Geometry.{OnBoard}
use chess_set.Consix.Scan.{Scan, scan_start, scan_square, scan_loop, scan_fuel}
use chess_set.Consix.Scan.Local.{
  Near, OnBoard-Near, inside-OnBoard, increase_dir-Near, scan_square_here, scan_loop_off,
  scan_loop_won, scan_loop_next,
}

-- The coordinate that grows along a direction.
abbrev pub lead : Angle → Pos → ℤ
lead angle0 p = p.x
lead angle45 p = p.x
lead angle90 p = p.y
lead angle135 p = p.x

pub lead-increase_dir : (k : Angle) (p : Pos) → lead k (increase_dir k p) ≡ lead k p +ℤ pos 1
unfolding increase_dir
lead-increase_dir angle0 p = refl
lead-increase_dir angle45 p = refl
lead-increase_dir angle90 p = refl
lead-increase_dir angle135 p = refl

pub lead_near : (k : Angle) {p : Pos} → Near p → lead k p ≤ℤ pos 19
lead_near angle0 n = n.right
lead_near angle45 n = n.right
lead_near angle90 n = n.bottom
lead_near angle135 n = n.right

pub lead_start : (k : Angle) {p : Pos} → OnBoard p → pos 0 ≤ℤ lead k p
lead_start angle0 o = o.left
lead_start angle45 o = o.left
lead_start angle90 o = o.top
lead_start angle135 o = o.left

lead_on : (k : Angle) {p : Pos} → OnBoard p → lead k p ≤ℤ pos 18
lead_on angle0 o = o.right
lead_on angle45 o = o.right
lead_on angle90 o = o.bottom
lead_on angle135 o = o.right

nearer : (n : ℕ) (a b : ℤ) → pos 19 ≤ℤ a +ℤ pos (suc n) → b ≡ a +ℤ pos 1 → pos 19 ≤ℤ b +ℤ pos n
nearer n a b h e = omega int_laws

too_far : (a : ℤ) → pos 19 ≤ℤ a +ℤ pos 0 → a ≤ℤ pos 18 → 1 ≤ 0
too_far a h k = omega int_laws

from_start : (a : ℤ) → pos 0 ≤ℤ a → pos 19 ≤ℤ a +ℤ pos 20
from_start a h = omega int_laws

module _ (pre_table : ℕ → ℕ) (board : Board) (side : ℕ) (angle : Angle) (which : ℕ) where
  abbrev run : ℕ → Scan → Line ⊎ Scan
  run fuel s = scan_loop pre_table board side angle which fuel s

  stopped : (fuel : ℕ) (s : Scan) → inside s.here ≡ false → run fuel s ≡ inr s
  unfolding scan_loop
  stopped zero s off = refl
  stopped (suc fuel) s off = scan_loop_off pre_table side angle which board fuel s off

  scan_loop_more :
      (fuel extra : ℕ) (s : Scan)
      → Near s.here
      → pos 19 ≤ℤ lead angle s.here +ℤ pos fuel
      → run (fuel + extra) s ≡ run fuel s
  scan_loop_more zero extra s near far = elim (Bool-cases (inside s.here)) [
    | inr off ↦ stopped (0 + extra) s off ∙ sym (stopped 0 s off)
    | inl on ↦ absurd (omega (arith, too_far _ far (lead_on angle (inside-OnBoard near on))))
  ]
  scan_loop_more (suc fuel) extra s near far = elim (Bool-cases (inside s.here)) [
    | inr off ↦ stopped (suc fuel + extra) s off ∙ sym (stopped (suc fuel) s off)
    | inl on ↦
        ap (λ k. run k s) (one_more fuel extra)
        ∙ elim (Sum-cases (scan_square pre_table board side angle which s)) [
          | inl (w, e) ↦
              scan_loop_won pre_table side angle which board (fuel + extra) s w on e
              ∙ sym (scan_loop_won pre_table side angle which board fuel s w on e)
          | inr (s', e) ↦
              let there = scan_square_here pre_table side angle which board s s' e in
              let near' =
                subst Near (sym there) (increase_dir-Near angle (inside-OnBoard near on)) in
              let grown = ap (lead angle) there ∙ lead-increase_dir angle s.here in
              scan_loop_next pre_table side angle which board (fuel + extra) s s' on e
              ∙ scan_loop_more fuel extra s' near' (nearer fuel _ _ far grown)
              ∙ sym (scan_loop_next pre_table side angle which board fuel s s' on e)
        ]
  ]
    where
      one_more : (a b : ℕ) → suc a + b ≡ suc (a + b)
      one_more a b = omega arith

  -- From a square of the board, the loop of `AnalyzeLine` gives the same result with any fuel above 20
  -- as with 20: it has ended by then.
  pub scan_loop-scan_fuel :
      (start : Pos) (extra : ℕ)
      → OnBoard start
      → run (scan_fuel + extra) (scan_start start) ≡ run scan_fuel (scan_start start)
  scan_loop-scan_fuel start extra o =
      scan_loop_more scan_fuel extra (scan_start start) (OnBoard-Near o)
        (from_start _ (lead_start angle o))
