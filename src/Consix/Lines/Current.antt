-- ===== src/Consix/Lines/Current.antt =====
-- The table of lines is current: it holds what an analysis of the whole board would find. The
-- incremental update keeps this when stones are put, as `Lines.Current.Update` shows.
pub mod Update
use chess_set.Base.{
  ℕ, ◌≡◌, ◌≢◌, refl, sym, ◌∙◌, ap, ap₂, inl, inr, ◌⊎◌, Bool, true, false, not, ◌&&◌, ◌||◌, ◌<◌,
  Bool-cases, and_split, ≡→==, if◌then◌else◌, ◌==◌, ==→≡, arith, subst,
}
use chess_set.Base.Int.{ℤ, negsuc, ◌==ℤ◌, ==ℤ→≡, ==ℤ_refl, ≢→==ℤ, int_laws}
use chess_set.Consix.State.{
  Angle, angle0, angle45, angle90, angle135, Point, Line, Lines, Board, no_line,
}
use chess_set.Consix.Coord.{Pos, line_id, has_line, get_start_point}
use chess_set.Consix.Coord.Edge.{back_to_edge-get_start_point}
use chess_set.Consix.Coord.Geometry.{
  OnBoard, key, line_id_of_key, has_line_of_key, key_of_line_id, line_id_inj,
  get_start_point_of_key, get_start_point-OnBoard, key-get_start_point,
}
use chess_set.Consix.Scan.{analyze_line}
use chess_set.Consix.Scan.Local.{Agree, analyze_line_local}
use chess_set.Consix.Lines.{pos_of, copy_fields, line_start, line_value, get_line_value_for_cross}
use chess_set.Consix.Lines.Copy.{
  copy_fields_over, copy_if, on_line, on_cross, reaches, fresh_lines, update_line_for_cross_at,
  updated_lines,
}

pub line_start-eq : (k : Angle) (p : Pos) → OnBoard p → line_start k p ≡ get_start_point p k
unfolding line_start get_start_point
line_start-eq angle0 p o = refl
line_start-eq angle45 p o = (back_to_edge-get_start_point p o).0
line_start-eq angle90 p o = refl
line_start-eq angle135 p o = (back_to_edge-get_start_point p o).1

line_start_of_id :
    (k : Angle) (p r : Pos)
    → OnBoard p
    → OnBoard r
    → line_id k p ≡ line_id k r
    → line_start k p ≡ line_start k r
line_start_of_id k p r op or e =
    line_start-eq k p op
    ∙ get_start_point_of_key k p r (key_of_line_id k p r e)
    ∙ sym (line_start-eq k r or)

-- The analysis of the line through `p` in direction `k`.
abbrev pub analysis : (ℕ → ℕ) → Board → ℕ → ℕ → Angle → Pos → Line
analysis pre_table board side w k p = analyze_line pre_table board side k w (line_start k p)

-- Two squares with one line id have one analysis.
analysis_of_id :
    (pre_table : ℕ → ℕ) (board : Board) (side w : ℕ) (k m : Angle) (p r : Pos)
    → OnBoard p
    → OnBoard r
    → has_line k r ≡ true
    → on_line m p (line_id k r) ≡ true
    → analysis pre_table board side w m p ≡ analysis pre_table board side w k r
analysis_of_id pre_table board side w k m p r op or hr on =
    let (hp, ei) = and_split (has_line m p) _ on in
    let same_id = ==ℤ→≡ (line_id m p) (line_id k r) ei in
    let same : m ≡ k = line_id_inj m k p r op or hp hr same_id in
    let id' : line_id k p ≡ line_id k r = ap (λ m'. line_id m' p) (sym same) ∙ same_id in
    rw (same, line_start_of_id k p r op or id')

-- `x` or else `y`, by a test.
abbrev choose : Bool → Line → Line → Line
choose b x y = if b then x else y

module _ (pre_table : ℕ → ℕ) (board : Board) (side w : ℕ) (p : Pos) (s : ℕ) (id : ℤ) where
  line_value_at :
      (line : Lines) (m : Angle)
      → line_value pre_table board side w p line m s id
        ≡ choose (side == s && on_line m p id) (analysis pre_table board side w m p) (line s id)
  unfolding line_value
  line_value_at line m = elim (Bool-cases (has_line m p)) [
    | inl h ↦ elim (Bool-cases (side == s)) [
      | inl es ↦ elim (Bool-cases (line_id m p ==ℤ id)) [
        | inl ei ↦ rw (h, es, ei)
        | inr ni ↦ rw (h, es, ni)
      ]
      | inr ns ↦ rw (h, ns)
    ]
    | inr h ↦ elim (Bool-cases (side == s)) [ inl es ↦ rw (h, es) | inr ns ↦ rw (h, ns) ]
  ]

-- Of four writers with one value the last one wins, whichever it is.
choose_same :
    (a b c d : Bool) (va vb vc vd v y : Line)
    → (a ≡ true → va ≡ v)
    → (b ≡ true → vb ≡ v)
    → (c ≡ true → vc ≡ v)
    → (d ≡ true → vd ≡ v)
    → (a || b || c || d) ≡ true
    → choose d vd (choose b vb (choose c vc (choose a va y))) ≡ v
choose_same a b c true va vb vc vd v y ha hb hc hd h = hd refl
choose_same a true c false va vb vc vd v y ha hb hc hd h = hb refl
choose_same a false true false va vb vc vd v y ha hb hc hd h = hc refl
choose_same true false false false va vb vc vd v y ha hb hc hd h = ha refl
choose_same false false false false va vb vc vd v y ha hb hc hd h = cc

-- Where `UpdateLineForCross` writes, it writes the analysis of that line.
pub fresh_lines_at :
    (pre_table : ℕ → ℕ) (board : Board) (p : Point) (side w s : ℕ) (k : Angle) (r : Pos)
    → OnBoard (pos_of p)
    → OnBoard r
    → has_line k r ≡ true
    → reaches side p s (line_id k r) ≡ true
    → fresh_lines pre_table board p side w s (line_id k r) ≡ analysis pre_table board s w k r
unfolding get_line_value_for_cross
fresh_lines_at pre_table board p side w s k r op or hr h =
    let (there, hit) = and_split (not (p.x ==ℤ negsuc 0)) _ h in
    let (es, cross) = and_split (side == s) _ hit in
    let same = λ (m : Angle) (e : on_line m (pos_of p) (line_id k r) ≡ true).
      analysis_of_id pre_table board side w k m (pos_of p) r op or hr e in
    let value =
      choose_same _ _ _ _ _ _ _ _ (analysis pre_table board side w k r) no_line (same angle0)
        (same angle45) (same angle90) (same angle135) cross in
    let own = ap (λ t. analysis pre_table board t w k r) (==→≡ side s es) in
    rw (line_value_at, line_value_at, line_value_at, line_value_at, es) (value ∙ own)

-- The entry for a line has all that `AnalyzeLine` finds on the board now.
abbrev pub IsCurrentAt : (ℕ → ℕ) → Board → Lines → ℕ → Angle → Pos → Type 0
IsCurrentAt pre_table board info s k r =
    copy_fields 0 (analysis pre_table board s 0 k r) (info s (line_id k r)) ≡ info s (line_id k r)

-- The entry of every line of the board is current, for the sides 0 and 1.
unfoldable pub IsCurrent : (ℕ → ℕ) → Board → Lines → Type 0
IsCurrent pre_table board info =
    (s : ℕ) (k : Angle) (r : Pos)
    → s < 2
    → OnBoard r
    → has_line k r ≡ true
    → IsCurrentAt pre_table board info s k r

pub line_start-OnBoard : (k : Angle) (r : Pos) → OnBoard r → OnBoard (line_start k r)
line_start-OnBoard k r or =
    subst OnBoard (sym (line_start-eq k r or)) (get_start_point-OnBoard k r or)
