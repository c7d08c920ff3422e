-- ===== src/Consix/Lines/Copy.antt =====
-- What one copy of the lines through a point changes, at each place of a table.
use chess_set.Base.{
  ℕ, Bool, true, false, not, ◌&&◌, ◌||◌, ◌≡◌, refl, ◌∙◌, ap, inl, inr, if◌then◌else◌, leb, ◌==◌,
  Bool-cases, arith, ==→≡,
}
use chess_set.Base.Int.{ℤ, negsuc, ◌==ℤ◌, ==ℤ→≡}
use chess_set.Consix.State.{
  Angle, angle0, angle45, angle90, angle135, Point, Line, Lines, Board, no_line,
}
use chess_set.Consix.Coord.{Pos, line_id, has_line}
use chess_set.Consix.Lines.{
  pos_of, copy_fields, copy_line, copy_cross, backup_line, recover_line, update_line,
  get_line_value_for_cross, update_line_for_cross,
}

abbrev pick {ℓ} : {A : Type ℓ} → Bool → A → A → A
pick b x y = if b then x else y

pick_over {ℓ} : {A : Type ℓ} (b : Bool) (x y z : A) → pick b x (pick b y z) ≡ pick b x z
pick_over true x y z = refl
pick_over false x y z = refl

pick_through {ℓ} : {A : Type ℓ} (b : Bool) (x y z : A) → pick b (pick b x y) z ≡ pick b x z
pick_through true x y z = refl
pick_through false x y z = refl

pick_same {ℓ} : {A : Type ℓ} (b : Bool) (x : A) → pick b x x ≡ x
pick_same true x = refl
pick_same false x = refl

-- A copy covers the copies before it.
pub copy_fields_over :
    (w : ℕ) (a b c : Line) → copy_fields w a (copy_fields w b c) ≡ copy_fields w a c
unfolding copy_fields
copy_fields_over w a b c = λ i. record c {
  value = a.value;
  threat_num = a.threat_num;
  threat_point = pick_over (leb w 1) a.threat_point b.threat_point c.threat_point i;
  big_poten_point = pick_over (leb w 2) a.big_poten_point b.big_poten_point c.big_poten_point i;
  sma_poten_point = pick_over (leb w 3) a.sma_poten_point b.sma_poten_point c.sma_poten_point i;
  big_poten_step = pick_over (leb w 4) a.big_poten_step b.big_poten_step c.big_poten_step i;
  sma_poten_step = pick_over (leb w 5) a.sma_poten_step b.sma_poten_step c.sma_poten_step i;
  com_point = pick_over (leb w 6) a.com_point b.com_point c.com_point i;
}

-- A copy of a copy is a copy of the first.
pub copy_fields_through :
    (w : ℕ) (a b c : Line) → copy_fields w (copy_fields w a b) c ≡ copy_fields w a c
unfolding copy_fields
copy_fields_through w a b c = λ i. record c {
  value = a.value;
  threat_num = a.threat_num;
  threat_point = pick_through (leb w 1) a.threat_point b.threat_point c.threat_point i;
  big_poten_point = pick_through (leb w 2) a.big_poten_point b.big_poten_point c.big_poten_point i;
  sma_poten_point = pick_through (leb w 3) a.sma_poten_point b.sma_poten_point c.sma_poten_point i;
  big_poten_step = pick_through (leb w 4) a.big_poten_step b.big_poten_step c.big_poten_step i;
  sma_poten_step = pick_through (leb w 5) a.sma_poten_step b.sma_poten_step c.sma_poten_step i;
  com_point = pick_through (leb w 6) a.com_point b.com_point c.com_point i;
}

pub copy_fields_same : (w : ℕ) (a : Line) → copy_fields w a a ≡ a
unfolding copy_fields
copy_fields_same w a = λ i. record a {
  threat_point = pick_same (leb w 1) a.threat_point i;
  big_poten_point = pick_same (leb w 2) a.big_poten_point i;
  sma_poten_point = pick_same (leb w 3) a.sma_poten_point i;
  big_poten_step = pick_same (leb w 4) a.big_poten_step i;
  sma_poten_step = pick_same (leb w 5) a.sma_poten_step i;
  com_point = pick_same (leb w 6) a.com_point i;
}

-- The line `id` is the one through `p` in direction `k`.
abbrev pub on_line : Angle → Pos → ℤ → Bool
on_line k p id = has_line k p && line_id k p ==ℤ id

-- The line `id` is one of the four through `p`.
abbrev pub on_cross : Pos → ℤ → Bool
on_cross p id =
    on_line angle0 p id || on_line angle45 p id || on_line angle90 p id || on_line angle135 p id

-- The place `(s, id)` of a table, where a copy for `side` and `p` writes.
abbrev pub hits : ℕ → Pos → ℕ → ℤ → Bool
hits side p s id = side == s && on_cross p id

module _ {ℓ} {A : Type ℓ} (F : A → A) (again : (y : A) → F (F y) ≡ F y) where
  once : Bool → A → A
  once b y = if b then F y else y

  merge : (b c : Bool) (y : A) → once c (once b y) ≡ once (b || c) y
  unfolding once
  merge true true y = again y
  merge true false y = refl
  merge false true y = refl
  merge false false y = refl

  merge4 :
      (e a b c d : Bool) (y : A)
      → once (e && d) (once (e && c) (once (e && b) (once (e && a) y)))
        ≡ once (e && (a || b || c || d)) y
  merge4 e a b c d y = rw (merge, merge, merge) (ap (λ t. once t y) (ground arith))

module _ (w : ℕ) (from : Lines) (side : ℕ) (p : Pos) (s : ℕ) (id : ℤ) where
  copy_line_at :
      (into : Lines) (k : Angle)
      → copy_line w from side p into k s id
        ≡ (if side == s && on_line k p id then copy_fields w (from s id) (into s id) else into s id)
  unfolding copy_line
  copy_line_at into k = elim (Bool-cases (has_line k p)) [
    | inl h ↦ elim (Bool-cases (side == s)) [
      | inl es ↦ elim (Bool-cases (line_id k p ==ℤ id)) [
        | inl ei ↦ rw (h, es, ei, ==→≡ side s es, ==ℤ→≡ (line_id k p) id ei)
        | inr ni ↦ rw (h, es, ni)
      ]
      | inr ns ↦ rw (h, ns)
    ]
    | inr h ↦ elim (Bool-cases (side == s)) [ inl es ↦ rw (h, es) | inr ns ↦ rw (h, ns) ]
  ]

  pub copy_cross_at :
      (into : Lines)
      → copy_cross w from side p into s id
        ≡ (if hits side p s id then copy_fields w (from s id) (into s id) else into s id)
  unfolding copy_cross once
  copy_cross_at into =
      rw (copy_line_at, copy_line_at, copy_line_at, copy_line_at)
        (merge4 (copy_fields w (from s id)) (copy_fields_over w (from s id) (from s id)) (side == s)
          (on_line angle0 p id) (on_line angle45 p id) (on_line angle90 p id)
          (on_line angle135 p id) (into s id))

-- `b ? copy_fields w from into : into`.
abbrev pub copy_if : ℕ → Bool → Line → Line → Line
copy_if w b from into = if b then copy_fields w from into else into

-- A call for `p` and `side` writes at `(s, id)`: it does nothing at the missing point, -1.
abbrev pub reaches : ℕ → Point → ℕ → ℤ → Bool
reaches side p s id = not (p.x ==ℤ negsuc 0) && hits side (pos_of p) s id

guard_point :
    (w : ℕ) (b c : Bool) (from into : Line)
    → (if b then into else copy_if w c from into) ≡ copy_if w (not b && c) from into
guard_point w true c from into = refl
guard_point w false c from into = refl

at_place {ℓ} :
    {A : Type ℓ} (b : Bool) (f g : ℕ → ℤ → A) (s : ℕ) (id : ℤ)
    → (if b then f else g) s id ≡ (if b then f s id else g s id)
at_place true f g s id = refl
at_place false f g s id = refl

module _ (p : Point) (info temp : Lines) (side w s : ℕ) (id : ℤ) where
  pub backup_line_at :
      backup_line p info temp side w s id ≡ copy_if w (reaches side p s id) (info s id) (temp s id)
  unfolding backup_line
  backup_line_at =
      at_place (p.x ==ℤ negsuc 0) temp (copy_cross w info side (pos_of p) temp) s id
      ∙ rw (copy_cross_at w info side (pos_of p) s id temp)
          (guard_point w (p.x ==ℤ negsuc 0) (hits side (pos_of p) s id) (info s id) (temp s id))

  pub recover_line_at :
      recover_line p info temp side w s id ≡ copy_if w (reaches side p s id) (temp s id) (info s id)
  unfolding recover_line
  recover_line_at =
      at_place (p.x ==ℤ negsuc 0) info (copy_cross w temp side (pos_of p) info) s id
      ∙ rw (copy_cross_at w temp side (pos_of p) s id info)
          (guard_point w (p.x ==ℤ negsuc 0) (hits side (pos_of p) s id) (temp s id) (info s id))

-- What `UpdateLineForCross` writes where it writes.
abbrev pub fresh_lines : (ℕ → ℕ) → Board → Point → ℕ → ℕ → Lines
fresh_lines pre_table board p side w =
    get_line_value_for_cross pre_table board p (λ s i. no_line) side w

pub update_line_for_cross_at :
    (pre_table : ℕ → ℕ) (board : Board) (p : Point) (side w : ℕ) (info : Lines) (s : ℕ) (id : ℤ)
    → update_line_for_cross pre_table board p side w info s id
      ≡ copy_if w (reaches side p s id) (fresh_lines pre_table board p side w s id) (info s id)
unfolding update_line_for_cross update_line
update_line_for_cross_at pre_table board p side w info s id =
    let fresh = fresh_lines pre_table board p side w in
    at_place (p.x ==ℤ negsuc 0) info (copy_cross w fresh side (pos_of p) info) s id
    ∙ rw (copy_cross_at w fresh side (pos_of p) s id info)
        (guard_point w (p.x ==ℤ negsuc 0) (hits side (pos_of p) s id) (fresh s id) (info s id))

-- The four updates round two points, for two sides.
abbrev pub updated_lines : (ℕ → ℕ) → Board → Point → Point → ℕ → ℕ → ℕ → Lines → Lines
updated_lines pre_table board p q s1 s2 w info =
    let one = update_line_for_cross pre_table board p s1 w info in
    let two = update_line_for_cross pre_table board p s2 w one in
    let three = update_line_for_cross pre_table board q s1 w two in
    update_line_for_cross pre_table board q s2 w three
