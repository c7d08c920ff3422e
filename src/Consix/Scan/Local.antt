-- ===== src/Consix/Scan/Local.antt =====
-- What a scan of a line reads: the squares of that line, and no others.
use chess_set.Base.{
  ℕ, zero, suc, ◌≡◌, ◌≢◌, refl, sym, ◌∙◌, inl, inr, ◌⊎◌, Bool, true, false, not, Bool-cases,
  Sum-cases, and_split, arith,
}
use chess_set.Base.Int.{ℤ, pos, negsuc, ◌≤ℤ◌, ◌==ℤ◌, int_laws, ==ℤ→≢, parts_ne}
use chess_set.Consix.State.{Angle, angle0, angle45, angle90, angle135, Line, Board}
use chess_set.Consix.Coord.{Pos, increase_dir, inside}
use chess_set.Consix.Coord.Geometry.{OnBoard, key, key-increase_dir}
use chess_set.Consix.Scan.{Scan, scan_start, scan_square, scan_loop, analyze_line, scan_fuel}

-- A loop is on the board or one step off it.
pub record Near (p : Pos) : Type 0 where
  pub left : negsuc 0 ≤ℤ p.x
  pub right : p.x ≤ℤ pos 19
  pub top : negsuc 0 ≤ℤ p.y
  pub bottom : p.y ≤ℤ pos 19

pub OnBoard-Near : {p : Pos} → OnBoard p → Near p
OnBoard-Near o = omega int_laws

to_false : (b : Bool) → not b ≡ true → b ≡ false
to_false b h = ground arith

inside_ne :
    (p : Pos)
    → inside p ≡ true
    → (p.x ≢ negsuc 0) × (p.x ≢ pos 19) × (p.y ≢ negsuc 0) × (p.y ≢ pos 19)
inside_ne p h =
    let a = and_split _ (not (p.y ==ℤ pos 19)) h in
    let b = and_split _ (not (p.y ==ℤ negsuc 0)) a.0 in
    let c = and_split (not (p.x ==ℤ negsuc 0)) (not (p.x ==ℤ pos 19)) b.0 in
    (
      ==ℤ→≢ _ _ (to_false _ c.0),
      ==ℤ→≢ _ _ (to_false _ c.1),
      ==ℤ→≢ _ _ (to_false _ b.1),
      ==ℤ→≢ _ _ (to_false _ a.1),
    )

pub inside-OnBoard : {p : Pos} → Near p → inside p ≡ true → OnBoard p
inside-OnBoard {p} n h =
    let (a, b, c, d) = inside_ne p h in
    let a' = parts_ne _ _ a in
    let b' = parts_ne _ _ b in let c' = parts_ne _ _ c in let d' = parts_ne _ _ d in omega int_laws

pub increase_dir-Near : (k : Angle) {p : Pos} → OnBoard p → Near (increase_dir k p)
unfolding increase_dir
increase_dir-Near angle0 o = omega int_laws
increase_dir-Near angle45 o = omega int_laws
increase_dir-Near angle90 o = omega int_laws
increase_dir-Near angle135 o = omega int_laws

-- The boards agree on the squares of the line `c` of direction `angle`.
abbrev pub Agree : Angle → ℤ → Board → Board → Type 0
Agree angle c b b' = (q : Pos) → OnBoard q → key angle q ≡ c → b q.x q.y ≡ b' q.x q.y

module _ (pre_table : ℕ → ℕ) (side : ℕ) (angle : Angle) (which : ℕ) where
  abbrev square_of : Board → Scan → Line ⊎ Scan
  square_of b s = scan_square pre_table b side angle which s

  scan_square_local :
      (b b' : Board) (s : Scan)
      → b s.here.x s.here.y ≡ b' s.here.x s.here.y
      → square_of b s ≡ square_of b' s
  unfolding scan_square
  scan_square_local b b' s e = rw e

  pub scan_square_here :
      (b : Board) (s s' : Scan) → square_of b s ≡ inr s' → s'.here ≡ increase_dir angle s.here
  unfolding scan_square
  scan_square_here b s s' e = ground arith

  abbrev loop_of : Board → ℕ → Scan → Line ⊎ Scan
  loop_of b fuel s = scan_loop pre_table b side angle which fuel s

  -- The three ways on from the head of the loop.
  pub scan_loop_off :
      (b : Board) (fuel : ℕ) (s : Scan) → inside s.here ≡ false → loop_of b (suc fuel) s ≡ inr s
  unfolding scan_loop
  scan_loop_off b fuel s off = rw (off, scan_loop)

  pub scan_loop_won :
      (b : Board) (fuel : ℕ) (s : Scan) (w : Line)
      → inside s.here ≡ true
      → square_of b s ≡ inl w
      → loop_of b (suc fuel) s ≡ inl w
  unfolding scan_loop
  scan_loop_won b fuel s w on e = rw (on, e, scan_loop)

  pub scan_loop_next :
      (b : Board) (fuel : ℕ) (s s' : Scan)
      → inside s.here ≡ true
      → square_of b s ≡ inr s'
      → loop_of b (suc fuel) s ≡ loop_of b fuel s'
  unfolding scan_loop
  scan_loop_next b fuel s s' on e = rw (on, e, scan_loop)

  scan_loop_local :
      (b b' : Board) (c : ℤ) (fuel : ℕ) (s : Scan)
      → Agree angle c b b'
      → Near s.here
      → key angle s.here ≡ c
      → loop_of b fuel s ≡ loop_of b' fuel s
  unfolding scan_loop
  scan_loop_local b b' c zero s agree near same = refl
  scan_loop_local b b' c (suc fuel) s agree near same = elim (Bool-cases (inside s.here)) [
    | inr off ↦ scan_loop_off b fuel s off ∙ sym (scan_loop_off b' fuel s off)
    | inl on ↦
        let board = inside-OnBoard near on in
        let step = scan_square_local b b' s (agree s.here board same) in
        elim (Sum-cases (square_of b' s)) [
          | inl (w, e) ↦
              scan_loop_won b fuel s w on (step ∙ e) ∙ sym (scan_loop_won b' fuel s w on e)
          | inr (s', e) ↦
              let there = scan_square_here b' s s' e in
              scan_loop_next b fuel s s' on (step ∙ e)
              ∙ scan_loop_local b b' c fuel s' agree (rw there (increase_dir-Near angle board))
                  (rw there (key-increase_dir angle s.here ∙ same))
              ∙ sym (scan_loop_next b' fuel s s' on e)
        ]
  ]

  -- On two boards that agree on the squares of one line, the analysis of that line, from a square of
  -- the board, is the same.
  pub analyze_line_local :
      (b b' : Board) (start : Pos)
      → OnBoard start
      → Agree angle (key angle start) b b'
      → analyze_line pre_table b side angle which start
        ≡ analyze_line pre_table b' side angle which start
  unfolding analyze_line
  analyze_line_local b b' start on agree =
      let same =
        scan_loop_local b b' (key angle start) scan_fuel (scan_start start) agree (OnBoard-Near on)
          refl in
      rw (same, analyze_line)
