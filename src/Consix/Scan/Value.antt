-- ===== src/Consix/Scan/Value.antt =====
-- `CalSingleLineValue` adds up what `AnalyzeLine` finds on the same line.
use chess_set.Base.{
  ℕ, zero, suc, ◌+◌, ◌≡◌, refl, sym, ◌∙◌, ap, inl, inr, ◌⊎◌, true, false, ◌&&◌, ◌||◌, Bool-cases,
  if◌then◌else◌, ltb, leb, ◌==◌, ==→≡,
}
use chess_set.Consix.State.{Angle, Line, Board, empty, winlose, line_type_value}
use chess_set.Consix.Coord.{Pos, increase_dir, inside, get_start_point}
use chess_set.Consix.Scan.{
  Scan, scan_start, valuate_shape, shape_index, add_shape, end_shape, scan_square, scan_loop,
  scan_fuel, analyze_line,
}
use chess_set.Consix.Scan.Segment.{Sum, add_value, sum_square, sum_loop, cal_single_line_value}
use chess_set.Consix.Scan.Local.{scan_loop_off, scan_loop_won, scan_loop_next}

-- What `CalSingleLineValue` keeps of the variables of `AnalyzeLine`.
abbrev sum_of : Scan → Sum
sum_of s = record { here = s.here; len = s.len; style = s.style; value = s.acc.value }

module _ (pre_table : ℕ → ℕ) (angle : Angle) (which : ℕ) where
  shape_value :
      (cur : Pos) (index : ℕ)
      → (valuate_shape pre_table cur index angle which).value ≡ line_type_value (pre_table index)
  unfolding valuate_shape
  shape_value cur index = elim (Bool-cases (which == 7)) [
    | inl e ↦ rw e refl
    | inr e ↦ elim (Bool-cases (leb 9 (pre_table index) && (which == 1 || which == 0))) [
      | inl k ↦ rw (e, k) refl
      | inr k ↦ rw (e, k) refl
    ]
  ]

  -- A shape is added to both, or it wins.
  end_value :
      (s : Scan)
      → ((w : Line) × (end_shape pre_table angle which s ≡ inl w) × (w.value ≡ winlose))
        ⊎ ((l : Line) × (end_shape pre_table angle which s ≡ inr l)
            × (add_value pre_table (sum_of s) ≡ l.value))
  unfolding end_shape add_value add_shape
  end_value s =
      let shape = valuate_shape pre_table s.cur (shape_index s.len s.style) angle which in
      elim (Bool-cases (ltb 5 s.len)) [
        | inr e ↦ inr (s.acc, rw e refl, rw e refl)
        | inl e ↦ elim (Bool-cases (shape.value == winlose)) [
          | inl k ↦ inl (shape, rw (e, k) refl, ==→≡ _ _ k)
          | inr k ↦ inr (
            add_shape s.acc shape,
            rw (e, k) refl,
            rw e (ap (λ v. s.acc.value + v) (sym (shape_value s.cur (shape_index s.len s.style)))),
          )
        ]
      ]

module _ (pre_table : ℕ → ℕ) (board : Board) (side : ℕ) (angle : Angle) (which : ℕ) where
  abbrev Sums : Scan → Line ⊎ Scan → Type 0
  Sums s r =
      ((w : Line) × (r ≡ inl w) × (w.value ≡ winlose))
      ⊎ ((s' : Scan) × (r ≡ inr s')
          × (sum_square pre_table board side angle (sum_of s) ≡ sum_of s'))

  square_value : (s : Scan) → Sums s (scan_square pre_table board side angle which s)
  unfolding scan_square sum_square
  square_value s = elim (Bool-cases (board s.here.x s.here.y == empty)) [
    | inl e ↦ rw e (inr (_, refl, refl))
    | inr e ↦ elim (Bool-cases (board s.here.x s.here.y == side)) [
      | inl k ↦ rw (e, k) (inr (_, refl, refl))
      | inr k ↦
          elim (end_value pre_table angle which
            (record s { cur = if s.opp_side then s.here else s.cur; opp_side = false })) [
              | inl (w, f, v) ↦ rw (e, k, f) (inl (w, refl, v))
              | inr (l, f, v) ↦
                  rw (e, k, f)
                    (inr (
                      _,
                      refl,
                      λ i. record {
                        here = increase_dir angle s.here;
                        len = 0;
                        style = 0;
                        value = v i;
                      },
                    ))
            ]
    ]
  ]

  sum_loop_off :
      (fuel : ℕ) (t : Sum)
      → inside t.here ≡ false
      → sum_loop pre_table board side angle (suc fuel) t ≡ t
  unfolding sum_loop
  sum_loop_off fuel t off = rw (off, sum_loop) refl

  sum_loop_next :
      (fuel : ℕ) (t : Sum)
      → inside t.here ≡ true
      → sum_loop pre_table board side angle (suc fuel) t
        ≡ sum_loop pre_table board side angle fuel (sum_square pre_table board side angle t)
  unfolding sum_loop
  sum_loop_next fuel t on = rw (on, sum_loop) refl

  abbrev LoopSums : ℕ → Scan → Line ⊎ Scan → Type 0
  LoopSums fuel s r =
      ((w : Line) × (r ≡ inl w) × (w.value ≡ winlose))
      ⊎ ((s' : Scan) × (r ≡ inr s')
          × (sum_loop pre_table board side angle fuel (sum_of s) ≡ sum_of s'))

  loop_value :
      (fuel : ℕ) (s : Scan) → LoopSums fuel s (scan_loop pre_table board side angle which fuel s)
  unfolding scan_loop sum_loop
  loop_value zero s = inr (s, refl, refl)
  loop_value (suc fuel) s = elim (Bool-cases (inside s.here)) [
    | inr off ↦ inr (
      s,
      scan_loop_off pre_table side angle which board fuel s off,
      sum_loop_off fuel (sum_of s) off,
    )
    | inl on ↦ elim (square_value s) [
      | inl (w, e, v) ↦ inl (w, scan_loop_won pre_table side angle which board fuel s w on e, v)
      | inr (s1, e, v) ↦
          let step = scan_loop_next pre_table side angle which board fuel s s1 on e in
          elim (loop_value fuel s1) [
            | inl (w, f, u) ↦ inl (w, step ∙ f, u)
            | inr (s2, f, u) ↦ inr (
              s2,
              step ∙ f,
              sum_loop_next fuel (sum_of s) on
                  ∙ ap (sum_loop pre_table board side angle fuel) v
                  ∙ u,
            )
          ]
    ]
  ]

-- On the line of a square, in any direction, for any side and whatever vectors it is asked for,
-- `AnalyzeLine` finds the value that `CalSingleLineValue` adds up, or else it returns at a shape that
-- wins, with the value WINLOSE.
pub cal_single_line_value-analyze_line :
    (pre_table : ℕ → ℕ) (board : Board) (side : ℕ) (angle : Angle) (which : ℕ) (p : Pos)
    → let line = analyze_line pre_table board side angle which (get_start_point p angle) in
      (line.value ≡ cal_single_line_value pre_table board side angle p) ⊎ (line.value ≡ winlose)
unfolding analyze_line cal_single_line_value
cal_single_line_value-analyze_line pre_table board side angle which p =
    let begin = scan_start (get_start_point p angle) in
    elim (loop_value pre_table board side angle which scan_fuel begin) [
      | inl (w, e, v) ↦ inr (rw (e, analyze_line) v)
      | inr (s, e, v) ↦ elim (end_value pre_table angle which s) [
        | inl (w, f, u) ↦ inr (rw (e, f, analyze_line) u)
        | inr (l, f, u) ↦ inl (rw (e, f, analyze_line) (sym u ∙ ap (add_value pre_table) (sym v)))
      ]
    ]
