-- ===== src/Consix/Lines/Current/Update.antt =====
-- What an update round two points changes in the table of lines, and that it stays current.
use chess_set.Base.{
  ℕ, ◌≡◌, ◌≢◌, refl, sym, ◌∙◌, ap, ap₂, inl, inr, ◌⊎◌, Bool, true, false, not, ◌&&◌, ◌||◌, ◌<◌,
  ≡→==, arith, subst,
}
use chess_set.Base.Int.{ℤ, negsuc, ◌==ℤ◌, ==ℤ_refl, ≢→==ℤ, int_laws}
use chess_set.Consix.State.{Angle, angle0, angle45, angle90, angle135, Point, Line, Lines, Board}
use chess_set.Consix.Coord.{Pos, line_id, has_line}
use chess_set.Consix.Coord.Geometry.{
  OnBoard, key, line_id_of_key, has_line_of_key, key-get_start_point,
}
use chess_set.Consix.Scan.Local.{Agree, analyze_line_local}
use chess_set.Consix.Lines.{pos_of, copy_fields, line_start}
use chess_set.Consix.Lines.Copy.{
  copy_fields_over, copy_if, on_line, on_cross, reaches, update_line_for_cross_at, updated_lines,
}
use chess_set.Consix.Lines.Current.{
  line_start-eq, line_start-OnBoard, analysis, fresh_lines_at, IsCurrentAt, IsCurrent,
}

-- The board where the stones of `p` and `q` do not matter.
abbrev pub SameBut : Point → Point → Board → Board → Type 0
SameBut p q b b' = (r : Pos) → r ≢ pos_of p → r ≢ pos_of q → b r.x r.y ≡ b' r.x r.y

key-line_start : (k : Angle) (r : Pos) → OnBoard r → key k (line_start k r) ≡ key k r
key-line_start k r or = ap (key k) (line_start-eq k r or) ∙ key-get_start_point k r

-- A square of the line of `r` is not `p` if that line does not go through `p`.
off_line :
    (k : Angle) (p r q : Pos)
    → OnBoard r
    → on_line k p (line_id k r) ≡ false
    → has_line k r ≡ true
    → key k q ≡ key k (line_start k r)
    → q ≢ p
off_line k p r q or off hr e same =
    let pr : key k p ≡ key k r = ap (key k) (sym same) ∙ e ∙ key-line_start k r or in
    let h = has_line_of_key k p r pr ∙ hr in
    let i = ap (λ j. j ==ℤ line_id k r) (line_id_of_key k p r pr) ∙ ==ℤ_refl (line_id k r) in
    cc (sym (ap₂ ◌&&◌ h i) ∙ off)

or4_none :
    (a b c d : Bool)
    → (a || b || c || d) ≡ false
    → (a ≡ false) × (b ≡ false) × (c ≡ false) × (d ≡ false)
or4_none a b c d h = ground arith

off_cross : (k : Angle) (p : Pos) (id : ℤ) → on_cross p id ≡ false → on_line k p id ≡ false
off_cross angle0 p id h =
    (or4_none (on_line angle0 p id) (on_line angle45 p id) (on_line angle90 p id) _ h).0
off_cross angle45 p id h =
    (or4_none (on_line angle0 p id) (on_line angle45 p id) (on_line angle90 p id) _ h).1
off_cross angle90 p id h =
    (or4_none (on_line angle0 p id) (on_line angle45 p id) (on_line angle90 p id) _ h).2
off_cross angle135 p id h =
    (or4_none (on_line angle0 p id) (on_line angle45 p id) (on_line angle90 p id) _ h).3

reach_test : (a b c : Bool) → (not a && (b && c)) ≡ false → a ≡ false → b ≡ true → c ≡ false
reach_test a b c h ha hb = ground arith

x_ne : (p : Pos) → OnBoard p → (p.x ==ℤ negsuc 0) ≡ false
x_ne p o = ≢→==ℤ p.x (negsuc 0) (λ e. omega int_laws)

unreached :
    (k : Angle) (p : Point) (s side : ℕ) (id : ℤ)
    → OnBoard (pos_of p)
    → side ≡ s
    → reaches side p s id ≡ false
    → on_line k (pos_of p) id ≡ false
unreached k p s side id op e h =
    off_cross k (pos_of p) id (reach_test _ _ _ h (x_ne (pos_of p) op) (≡→== side s e))

module _ (v : Line) where
  abbrev Settled : Line → Type 0
  Settled l = copy_fields 0 v l ≡ l

  settle_if :
      (b : Bool) (f l : Line)
      → (b ≡ true → f ≡ v)
      → (b ≡ false → Settled l)
      → Settled (copy_if 0 b f l)
  settle_if true f l new old = rw (new refl) (copy_fields_over 0 v v l)
  settle_if false f l new old = old refl

-- An update round two points keeps the table current, whatever was put on them.
module _ (pre_table : ℕ → ℕ) (b b' : Board) (p q : Point) (s1 s2 : ℕ) (info : Lines)
    (op : OnBoard (pos_of p)) (oq : OnBoard (pos_of q)) (same : SameBut p q b b')
    (sides : (s : ℕ) → s < 2 → (s1 ≡ s) ⊎ (s2 ≡ s)) (current : IsCurrent pre_table b info) where
  untouched :
      (s : ℕ) (k : Angle) (r : Pos)
      → s < 2
      → OnBoard r
      → has_line k r ≡ true
      → on_line k (pos_of p) (line_id k r) ≡ false
      → on_line k (pos_of q) (line_id k r) ≡ false
      → IsCurrentAt pre_table b' info s k r
  unfolding IsCurrent
  untouched s k r hs or hr np nq =
      let agree : Agree k (key k (line_start k r)) b b' = λ t ot e.
        same t (off_line k (pos_of p) r t or np hr e) (off_line k (pos_of q) r t or nq hr e) in
      let scans =
        analyze_line_local pre_table s k 0 b b' (line_start k r) (line_start-OnBoard k r or)
          agree in
      subst (λ a. copy_fields 0 a (info s (line_id k r)) ≡ info s (line_id k r)) scans
        (current s k r hs or hr)

  all_unreached :
      (s : ℕ) (k : Angle) (r : Pos)
      → s < 2
      → OnBoard r
      → has_line k r ≡ true
      → reaches s1 p s (line_id k r) ≡ false
      → reaches s2 p s (line_id k r) ≡ false
      → reaches s1 q s (line_id k r) ≡ false
      → reaches s2 q s (line_id k r) ≡ false
      → IsCurrentAt pre_table b' info s k r
  all_unreached s k r hs or hr a1 a2 a3 a4 =
      let id = line_id k r in
      elim (sides s hs) [
        | inl e ↦
            untouched s k r hs or hr (unreached k p s s1 id op e a1) (unreached k q s s1 id oq e a3)
        | inr e ↦
            untouched s k r hs or hr (unreached k p s s2 id op e a2) (unreached k q s s2 id oq e a4)
      ]

  pub updated_lines-IsCurrent : IsCurrent pre_table b' (updated_lines pre_table b' p q s1 s2 0 info)
  unfolding IsCurrent
  updated_lines-IsCurrent s k r hs or hr =
      let fresh = λ (t : Point) (side : ℕ) (ot : OnBoard (pos_of t)).
        fresh_lines_at pre_table b' t side 0 s k r ot or hr in
      let v = analysis pre_table b' s 0 k r in
      simp update_line_for_cross_at (
        settle_if v _ _ _ (fresh q s2 oq) λ a4. settle_if v _ _ _ (fresh q s1 oq) λ a3.
          settle_if v _ _ _ (fresh p s2 op)
            λ a2. settle_if v _ _ _ (fresh p s1 op) λ a1. all_unreached s k r hs or hr a1 a2 a3 a4)
