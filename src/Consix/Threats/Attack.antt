-- ===== src/Consix/Threats/Attack.antt =====
-- What the loops of `EnsureThreatNum` and `DefendForMultiThreat` decide, said without a board that
-- changes: whether some point, or some two points, with stones on them, are in a segment whose type
-- `AnalyzeLineSegID` finds to be 15. That is a six for the sources, but for lines that run along the
-- border, of which `AnalyzeLineSegID` sees only the part from the point on.
use chess_set.Base.{
  ℕ, suc, Bool, true, false, ◌&&◌, ◌||◌, ◌≡◌, refl, ap, ◌∙◌, List, [], ◌∷◌, All, inl, inr,
  Bool-cases, if◌then◌else◌, arith,
}
use chess_set.Base.Int.{◌==ℤ◌}
use chess_set.Consix.State.{Point, Board, Search, put, empty}
use chess_set.Consix.Move.{put_stone}
use chess_set.Consix.Candidates.{comp_point_position}
use chess_set.Consix.Candidates.Squares.{Descending}
use chess_set.Consix.Run.{Run, ◌>>=◌, ◌>>◌, pure, gets, place, with_stone}
use chess_set.Consix.Run.Keeps.{Free, Emptied-eq, put-Emptied, Emptied-refl}
use chess_set.Consix.Threats.{one_six, two_six, each_until, attack_one, attack_two, attack}

-- Some point that is not skipped passes the test; `x` is the index of the first.
unfoldable pub any_point : (ℕ → Bool) → (Point → List Point → ℕ → Bool) → List Point → ℕ → Bool
any_point skip test [] x = false
any_point skip test (p ∷ ps) x =
    let rest = any_point skip test ps (suc x) in if skip x then rest else test p ps x || rest

-- With one more stone `AnalyzeLineSegID` is 15 there in some direction.
abbrev pub with_one : ℕ → Search → Point → Bool
with_one side g p = one_six side p (put_stone g p side)

-- Two more stones do.
abbrev pub with_two : ℕ → Search → Point → Point → Bool
with_two side g p q = two_six side p q (put_stone (put_stone g p side) q side)

-- With stones of `side` on one or two points that are not skipped, `AnalyzeLineSegID` is 15 at one.
pub attacked : (ℕ → Bool) → List Point → ℕ → Search → Bool
attacked skip all side g =
    any_point skip (λ p ps x. with_one side g p) all 0
    || any_point skip (λ p ps x. any_point skip (λ q qs y. with_two side g p q) ps (suc x)) all 0

-- A predicate on the points that are not skipped.
abbrev pub Each : (ℕ → Bool) → (Point → List Point → ℕ → Type 0) → List Point → ℕ → Type 0
Each skip Q [] x = Unit
Each skip Q (p ∷ ps) x = (skip x ≡ false → Q p ps x) × Each skip Q ps (suc x)

module _ (skip : ℕ → Bool) (g : Search) where
  each_until-eq :
      (test : Point → List Point → ℕ → Bool) (body : ℕ → Point → List Point → Bool → Run Bool)
      (ps : List Point) (x : ℕ) (lost : Bool)
      → Each skip (λ p qs y. (b : Bool) → body y p qs b g ≡ (b || test p qs y, g)) ps x
      → each_until skip ps x body lost g ≡ (lost || any_point skip test ps x, g)
  unfolding each_until any_point ◌>>=◌ pure
  each_until-eq test body [] x true h = refl
  each_until-eq test body [] x false h = refl
  each_until-eq test body (p ∷ ps) x lost h = elim (Bool-cases (skip x)) [
    | inl e ↦ rw e (each_until-eq test body ps (suc x) lost h.1)
    | inr e ↦ rw e (
        rw (h.0 e lost) (elim (Bool-cases (lost || test p ps x)) [
          | inl d ↦ rw d (ap (λ (b : Bool). (b, g)) (ground arith))
          | inr d ↦ rw d (
              each_until-eq test body ps (suc x) false h.1
              ∙ ap (λ (b : Bool). (b, g)) (ground arith))
        ]))
  ]

put_back :
    (b : Board) (p : Point) (s : ℕ) → b p.x p.y ≡ empty → put (put b p.x p.y s) p.x p.y empty ≡ b
put_back b p s e =
    Emptied-eq b (put (put b p.x p.y s) p.x p.y empty)
      (put-Emptied (Free b) p s b (put b p.x p.y s) e (Emptied-refl (Free b) (put b p.x p.y s)))

-- A look that leaves the state alone, with a stone that is put on an empty square for it.
pub with_stone-eq :
    {A : Type 0} (p : Point) (s : ℕ) (look : Run A) (v : A) (g : Search)
    → g.board p.x p.y ≡ empty
    → look (put_stone g p s) ≡ (v, put_stone g p s)
    → with_stone p s look g ≡ (v, g)
unfolding with_stone ◌>>=◌ ◌>>◌ place pure
with_stone-eq {A} p s look v g e h =
    ap (λ (r : A × Search). (r.0, put_stone r.1 p empty)) h
    ∙ (λ i. (v, record g { board = put_back g.board p s e i }))

pub Each-map :
    (skip : ℕ → Bool) (Q R : Point → List Point → ℕ → Type 0) (ps : List Point) (x : ℕ)
    → ((p : Point) (qs : List Point) (y : ℕ) → Q p qs y → R p qs y)
    → Each skip Q ps x
    → Each skip R ps x
Each-map skip Q R [] x f h = tt
Each-map skip Q R (p ∷ ps) x f h = (λ e. f p ps x (h.0 e), Each-map skip Q R ps (suc x) f h.1)

-- Both squares differ, so a stone on the one leaves the other empty.
still_free :
    (b : Board) (p q : Point) (s : ℕ)
    → comp_point_position p q ≡ true
    → b q.x q.y ≡ empty
    → put b p.x p.y s q.x q.y ≡ empty
still_free b p q s h e = rw (other p q h) e
  where
    other : (p q : Point) → comp_point_position p q ≡ true → (p.x ==ℤ q.x && p.y ==ℤ q.y) ≡ false
    other p q h = ground arith

-- The points that are not skipped stand on empty squares.
abbrev pub EachFree : (ℕ → Bool) → Board → List Point → ℕ → Type 0
EachFree skip b ps x = Each skip (λ p qs y. b p.x p.y ≡ empty) ps x

still_EachFree :
    (skip : ℕ → Bool) (b : Board) (p : Point) (s : ℕ) (qs : List Point) (y : ℕ)
    → All (λ q. comp_point_position p q ≡ true) qs
    → EachFree skip b qs y
    → EachFree skip (put b p.x p.y s) qs y
still_EachFree skip b p s [] y d h = tt
still_EachFree skip b p s (q ∷ qs) y d h =
    (λ e. still_free b p q s d.0 (h.0 e), still_EachFree skip b p s qs (suc y) d.1 h.1)

module _ (skip : ℕ → Bool) (side : ℕ) (g : Search) where
  ones-eq :
      (ps : List Point) (x : ℕ) (lost : Bool)
      → EachFree skip g.board ps x
      → each_until skip ps x (attack_one side) lost g
        ≡ (lost || any_point skip (λ p qs y. with_one side g p) ps x, g)
  unfolding attack_one ◌>>=◌ gets pure
  ones-eq ps x lost h =
      each_until-eq skip g (λ p qs y. with_one side g p) (attack_one side) ps x lost
        (Each-map skip _ _ ps x
          (λ p qs y e b. with_stone-eq p side _ (b || with_one side g p) g e refl) h)

  second-eq :
      (p : Point) (qs : List Point) (y : ℕ) (lost : Bool)
      → g.board p.x p.y ≡ empty
      → All (λ q. comp_point_position p q ≡ true) qs
      → EachFree skip g.board qs (suc y)
      → attack_two skip side y p qs lost g
        ≡ (lost || any_point skip (λ q rs z. with_two side g p q) qs (suc y), g)
  unfolding attack_two ◌>>=◌ gets pure
  second-eq p qs y lost e d h =
      let g1 : Search = put_stone g p side in
      with_stone-eq p side _ _ g e (
        each_until-eq skip g1 (λ q rs z. with_two side g p q) _ qs (suc y) lost
          (Each-map skip (λ q rs z. g1.board q.x q.y ≡ empty) _ qs (suc y)
            (λ q rs z c b. with_stone-eq q side _ (b || with_two side g p q) g1 c refl)
            (still_EachFree skip g.board p side qs (suc y) d h)))

  -- For the outer loop: each point with the points after it.
  pairs :
      (ps : List Point) (x : ℕ)
      → Descending ps
      → EachFree skip g.board ps x
      → Each skip
          (λ p qs y.
            (lost : Bool)
            → attack_two skip side y p qs lost g
              ≡ (lost || any_point skip (λ q rs z. with_two side g p q) qs (suc y), g))
          ps
          x
  pairs [] x d h = tt
  pairs (p ∷ ps) x d h = (λ e lost. second-eq p ps x lost (h.0 e) d.0 h.1, pairs ps (suc x) d.1 h.1)

  twos-eq :
      (ps : List Point) (x : ℕ) (lost : Bool)
      → Descending ps
      → EachFree skip g.board ps x
      → each_until skip ps x (attack_two skip side) lost g ≡ (
        lost
            || any_point skip
                (λ p qs y. any_point skip (λ q rs z. with_two side g p q) qs (suc y))
                ps
                x,
        g,
      )
  twos-eq ps x lost d h =
      each_until-eq skip g (λ p qs y. any_point skip (λ q rs z. with_two side g p q) qs (suc y))
        (attack_two skip side) ps x lost (pairs ps x d h)

  -- On points of different squares, of which those that are not skipped are empty, the two loops
  -- answer exactly whether, for one or two stones of `side` on points that are not skipped,
  -- `AnalyzeLineSegID` is 15 at one of these stones in some direction, and leave the state as it was.
  pub attack-eq :
      (all : List Point)
      → Descending all
      → EachFree skip g.board all 0
      → attack skip all side g ≡ (attacked skip all side g, g)
  unfolding attack attacked ◌>>=◌
  attack-eq all d h = rw (ones-eq all 0 false h) (twos-eq all 0 _ d h)
