-- ===== src/Consix/Coord/Geometry.antt =====
-- The lines of the board: what tells two of them apart, and where each one starts.
use chess_set.Base.{
  ap, ℕ, ◌+◌, ◌<◌, ◌≡◌, refl, sym, ◌∙◌, inl, inr, true, ◌&&◌, Bool-cases, ltb→lt, ltb→le, and_split,
}
use chess_set.Base.Int.{
  ℤ, pos, negsuc, pos_part, neg_part, ◌+ℤ◌, ◌-ℤ◌, ◌≤ℤ◌, ltb_ℤ, int_laws, neg_part_of_nonneg,
}
use chess_set.Consix.State.{Angle, angle0, angle45, angle90, angle135}
use chess_set.Consix.Coord.{Pos, increase_dir, get_start_point, line_id, has_line}

pub record OnBoard (p : Pos) : Type 0 where
  pub left : pos 0 ≤ℤ p.x
  pub right : p.x ≤ℤ pos 18
  pub top : pos 0 ≤ℤ p.y
  pub bottom : p.y ≤ℤ pos 18

-- What the squares of one line have in common.
unfoldable pub key : Angle → Pos → ℤ
key angle0 p = p.y
key angle45 p = p.x +ℤ p.y
key angle90 p = p.x
key angle135 p = p.y -ℤ p.x

pub key-increase_dir : (k : Angle) (p : Pos) → key k (increase_dir k p) ≡ key k p
unfolding key increase_dir
key-increase_dir angle0 p = refl
key-increase_dir angle45 p = omega int_laws
key-increase_dir angle90 p = refl
key-increase_dir angle135 p = omega int_laws

-- The ids of lines in direction `k`, before the first and after the last.
abbrev from_id : Angle → ℕ
from_id angle0 = 0
from_id angle90 = 19
from_id angle45 = 38
from_id angle135 = 65

abbrev upto_id : Angle → ℕ
upto_id angle0 = 19
upto_id angle90 = 38
upto_id angle45 = 65
upto_id angle135 = 92

between :
    (a b c : ℤ)
    → (ltb_ℤ a b && ltb_ℤ b c) ≡ true
    → (pos_part a + neg_part b < pos_part b + neg_part a)
      × (pos_part b + neg_part c < pos_part c + neg_part b)
between a b c h =
    let both = and_split (ltb_ℤ a b) (ltb_ℤ b c) h in (ltb→lt _ _ both.0, ltb→lt _ _ both.1)

-- The id of a line of the board has its place in the block of its direction.
pub line_id-range :
    (k : Angle) (p : Pos)
    → OnBoard p
    → has_line k p ≡ true
    → (pos (from_id k) ≤ℤ line_id k p) × (line_id k p +ℤ pos 1 ≤ℤ pos (upto_id k))
unfolding line_id has_line
line_id-range angle0 p o h = (omega int_laws, omega int_laws)
line_id-range angle90 p o h = (omega int_laws, omega int_laws)
line_id-range angle45 p o h =
    let range = between (pos 4) (p.x +ℤ p.y) (pos 32) h in (omega int_laws, omega int_laws)
line_id-range angle135 p o h =
    let range = between (negsuc 13) (p.y -ℤ p.x) (pos 14) h in (omega int_laws, omega int_laws)

pub key_of_line_id : (k : Angle) (p q : Pos) → line_id k p ≡ line_id k q → key k p ≡ key k q
unfolding line_id key
key_of_line_id angle0 p q e = e
key_of_line_id angle90 p q e = omega int_laws
key_of_line_id angle45 p q e = omega int_laws
key_of_line_id angle135 p q e = omega int_laws

-- Lines of the board with the same id have the same direction.
pub line_id_inj :
    (k m : Angle) (p q : Pos)
    → OnBoard p
    → OnBoard q
    → has_line k p ≡ true
    → has_line m q ≡ true
    → line_id k p ≡ line_id m q
    → k ≡ m
line_id_inj angle0 angle0 p q o o' h h' e = refl
line_id_inj angle45 angle45 p q o o' h h' e = refl
line_id_inj angle90 angle90 p q o o' h h' e = refl
line_id_inj angle135 angle135 p q o o' h h' e = refl
line_id_inj k m p q o o' h h' e =
    let r = line_id-range k p o h in let r' = line_id-range m q o' h' in absurd (omega int_laws)

-- `GetStartPoint` gives a square of the board on the line of `p`.
pub get_start_point-OnBoard : (k : Angle) (p : Pos) → OnBoard p → OnBoard (get_start_point p k)
unfolding get_start_point
get_start_point-OnBoard angle0 p o = omega int_laws
get_start_point-OnBoard angle90 p o = omega int_laws
get_start_point-OnBoard angle45 p o = elim (Bool-cases (ltb_ℤ (pos 18) (p.x +ℤ p.y))) [
  | inl e ↦ rw e (let l = ltb→lt _ _ e in omega int_laws)
  | inr e ↦ rw e (let l = ltb→le _ _ e in omega int_laws)
]
get_start_point-OnBoard angle135 p o = elim (Bool-cases (ltb_ℤ p.y p.x)) [
  | inl e ↦ rw e (let l = ltb→lt _ _ e in omega int_laws)
  | inr e ↦ rw e (let l = ltb→le _ _ e in omega int_laws)
]

pub key-get_start_point : (k : Angle) (p : Pos) → key k (get_start_point p k) ≡ key k p
unfolding get_start_point key
key-get_start_point angle0 p = refl
key-get_start_point angle90 p = refl
key-get_start_point angle45 p = elim (Bool-cases (ltb_ℤ (pos 18) (p.x +ℤ p.y))) [
  | inl e ↦ rw e (omega int_laws)
  | inr e ↦ rw e (omega int_laws)
]
key-get_start_point angle135 p = elim (Bool-cases (ltb_ℤ p.y p.x)) [
  | inl e ↦ rw e (omega int_laws)
  | inr e ↦ rw e (omega int_laws)
]

below_of_sub : (a b c d : ℤ) → a -ℤ b ≡ c -ℤ d → ltb_ℤ a b ≡ ltb_ℤ c d
below_of_sub a b c d e = elim (Bool-cases (ltb_ℤ a b)) [
  | inl l ↦ elim (Bool-cases (ltb_ℤ c d)) [
    | inl m ↦ l ∙ sym m
    | inr m ↦ let l' = ltb→lt _ _ l in let m' = ltb→le _ _ m in absurd (omega int_laws)
  ]
  | inr l ↦ elim (Bool-cases (ltb_ℤ c d)) [
    | inl m ↦ let l' = ltb→le _ _ l in let m' = ltb→lt _ _ m in absurd (omega int_laws)
    | inr m ↦ l ∙ sym m
  ]
]

-- All squares of a line have one start.
pub get_start_point_of_key :
    (k : Angle) (p q : Pos) → key k p ≡ key k q → get_start_point p k ≡ get_start_point q k
unfolding get_start_point key
get_start_point_of_key angle0 p q e = λ i. record { x = pos 0; y = e i }
get_start_point_of_key angle90 p q e = λ i. record { x = e i; y = pos 0 }
get_start_point_of_key angle45 p q e =
    let same : p.y +ℤ p.x ≡ q.y +ℤ q.x = omega int_laws in rw (e, same)
get_start_point_of_key angle135 p q e =
    let same : p.x -ℤ p.y ≡ q.x -ℤ q.y = omega int_laws in
    let test = below_of_sub p.y p.x q.y q.x e in rw (test, e, same)

pub Pos-eq : {p q : Pos} → p.x ≡ q.x → p.y ≡ q.y → p ≡ q
Pos-eq e f = λ i. record { x = e i; y = f i }

-- The coordinates of a square as native numbers.
pub squares : {p : Pos} → OnBoard p → (neg_part p.x ≡ 0) × (neg_part p.y ≡ 0)
squares {p} o = (neg_part_of_nonneg p.x o.left, neg_part_of_nonneg p.y o.top)

pub line_id_of_key : (k : Angle) (p q : Pos) → key k p ≡ key k q → line_id k p ≡ line_id k q
unfolding line_id key
line_id_of_key angle0 p q e = e
line_id_of_key angle45 p q e = omega int_laws
line_id_of_key angle90 p q e = omega int_laws
line_id_of_key angle135 p q e = omega int_laws

pub has_line_of_key : (k : Angle) (p q : Pos) → key k p ≡ key k q → has_line k p ≡ has_line k q
unfolding has_line key
has_line_of_key angle0 p q e = refl
has_line_of_key angle45 p q e = rw e
has_line_of_key angle90 p q e = refl
has_line_of_key angle135 p q e = rw e

same_start :
    (k m : Angle) (p q : Pos)
    → k ≡ m
    → line_id k p ≡ line_id m q
    → get_start_point p k ≡ get_start_point q m
same_start k m p q e id =
    get_start_point_of_key k p q (key_of_line_id k p q (id ∙ ap (λ a. line_id a q) (sym e)))
    ∙ ap (get_start_point q) e

-- Two lines of the board, through two squares and in two directions, have the same id only if they are
-- one line: they have the same direction and the same start point.
pub line_id-same_line :
    (k m : Angle) (p q : Pos)
    → OnBoard p
    → OnBoard q
    → has_line k p ≡ true
    → has_line m q ≡ true
    → line_id k p ≡ line_id m q
    → (k ≡ m) × (get_start_point p k ≡ get_start_point q m)
line_id-same_line k m p q o o' h h' e =
    let same = line_id_inj k m p q o o' h h' e in (same, same_start k m p q same e)
