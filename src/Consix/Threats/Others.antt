-- ===== src/Consix/Threats/Others.antt =====
-- Points of a list that stand on different squares: a stone on one of them leaves the others empty.
use chess_set.Base.{ℕ, suc, Bool, true, false, ◌&&◌, ◌≡◌, List, [], ◌∷◌, All, ◌==◌, arith}
use chess_set.Base.Int.{◌==ℤ◌}
use chess_set.Consix.State.{Point, Board, put, empty}
use chess_set.Consix.Candidates.{comp_point_position}
use chess_set.Consix.Candidates.Squares.{Descending}
use chess_set.Consix.Threats.Attack.{Each, EachFree}

abbrev pub never : ℕ → Bool
never x = false

abbrev pub Apart : Point → Point → Type 0
Apart p q = (p.x ==ℤ q.x && p.y ==ℤ q.y) ≡ false

-- The points of a list but the one at `i` differ from `p`.
abbrev pub Others : Point → ℕ → List Point → ℕ → Type 0
Others p i xs x = Each (λ z. z == i) (λ q qs z. Apart p q) xs x

comp_point_position-Apart : (p q : Point) → comp_point_position p q ≡ true → Apart p q
comp_point_position-Apart p q h = ground arith

comp_point_position-Apart_sym : (p q : Point) → comp_point_position q p ≡ true → Apart p q
comp_point_position-Apart_sym p q h = ground arith

pub Each-All :
    (skip : ℕ → Bool) (Q R : Point → Type 0) (xs : List Point) (x : ℕ)
    → ((p : Point) → Q p → R p)
    → All Q xs
    → Each skip (λ p qs y. R p) xs x
Each-All skip Q R [] x f h = tt
Each-All skip Q R (p ∷ xs) x f h = ((λ e. f p h.0), Each-All skip Q R xs (suc x) f h.1)

pub Each-less :
    (s t : ℕ → Bool) (Q : Point → List Point → ℕ → Type 0) (xs : List Point) (x : ℕ)
    → ((z : ℕ) → t z ≡ false → s z ≡ false)
    → Each s Q xs x
    → Each t Q xs x
Each-less s t Q [] x f h = tt
Each-less s t Q (p ∷ xs) x f h = ((λ e. h.0 (f x e)), Each-less s t Q xs (suc x) f h.1)

Each-zip :
    (Q : Point → Type 0) (R S : Point → List Point → ℕ → Type 0) (xs : List Point) (x : ℕ)
    → ((p : Point) (qs : List Point) (y : ℕ) → Q p → R p qs y → S p qs y)
    → All Q xs
    → Each never R xs x
    → Each never S xs x
Each-zip Q R S [] x f a h = tt
Each-zip Q R S (p ∷ xs) x f a h = ((λ e. f p xs x a.0 (h.0 e)), Each-zip Q R S xs (suc x) f a.1 h.1)

pub all_Others :
    (xs : List Point) (x : ℕ) → Descending xs → Each never (λ p qs y. Others p y xs x) xs x
all_Others [] x d = tt
all_Others (r ∷ xs) x d = (
  (λ e. (
    (λ n. comp_point_position-Apart r r (absurd (own x n))),
    Each-All (λ z. z == x) (λ q. comp_point_position r q ≡ true) (Apart r) xs (suc x)
        (comp_point_position-Apart r) d.0,
  )),
  Each-zip (λ q. comp_point_position r q ≡ true) (λ p qs y. Others p y xs (suc x))
      (λ p qs y. Others p y (r ∷ xs) x) xs (suc x)
      (λ p qs y c o. ((λ n. comp_point_position-Apart_sym p r c), o)) d.0
      (all_Others xs (suc x) d.1),
)
  where
    own : (x : ℕ) → (x == x) ≡ false → ⊥
    own x n = ground arith

abbrev pub AllFree : Board → List Point → Type 0
AllFree b ps = All (λ p. b p.x p.y ≡ empty) ps

stone_free :
    (b : Board) (p q : Point) (s : ℕ)
    → Apart p q
    → b q.x q.y ≡ empty
    → put b p.x p.y s q.x q.y ≡ empty
stone_free b p q s h e = rw h e

pub Each-stone :
    (skip : ℕ → Bool) (b : Board) (p : Point) (s : ℕ) (xs : List Point) (x : ℕ)
    → Each skip (λ q qs y. Apart p q) xs x
    → EachFree skip b xs x
    → EachFree skip (put b p.x p.y s) xs x
Each-stone skip b p s [] x a h = tt
Each-stone skip b p s (q ∷ qs) x a h =
    ((λ e. stone_free b p q s (a.0 e) (h.0 e)), Each-stone skip b p s qs (suc x) a.1 h.1)

pub after_free :
    (b : Board) (p : Point) (s : ℕ) (qs : List Point)
    → All (λ q. comp_point_position p q ≡ true) qs
    → AllFree b qs
    → AllFree (put b p.x p.y s) qs
after_free b p s [] c h = tt
after_free b p s (q ∷ qs) c h =
    (stone_free b p q s (comp_point_position-Apart p q c.0) h.0, after_free b p s qs c.1 h.1)
