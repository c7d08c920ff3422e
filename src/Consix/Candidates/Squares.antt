-- ===== src/Consix/Candidates/Squares.antt =====
-- `UniquePoint` keeps the squares of its list, each once, in the order of `CompPointPosition`.
use chess_set.Base.{
  Bool, true, false, ◌&&◌, ◌||◌, ◌≡◌, refl, ap, ◌∙◌, List, [], ◌∷◌, All, inl, inr, Bool-cases,
  arith,
}
use chess_set.Base.Int.{ℤ, ◌==ℤ◌}
use chess_set.Consix.State.{Point}
use chess_set.Consix.Candidates.{
  comp_point_position, equal_point, insert, sort, unique_after, unique, unique_point,
}
use chess_set.Consix.Candidates.Order.{Sorted, sort-Sorted, sort-All}

-- Some point of the list is at `(x, y)`.
pub has_square : ℤ → ℤ → List Point → Bool
has_square x y [] = false
has_square x y (p ∷ ps) = (p.x ==ℤ x && p.y ==ℤ y) || has_square x y ps

-- Each point is before all later ones, so no two of them are the same square.
abbrev pub Descending : List Point → Type 0
Descending [] = Unit
Descending (p ∷ ps) = All (λ q. comp_point_position p q ≡ true) ps × Descending ps

comp_asym : (p q : Point) → comp_point_position p q ≡ true → comp_point_position q p ≡ false
comp_asym p q h = ground arith

comp_after :
    (p q r : Point)
    → comp_point_position q p ≡ false
    → comp_point_position r q ≡ false
    → comp_point_position r p ≡ false
comp_after p q r h k = ground arith

comp_total :
    (p q : Point)
    → comp_point_position q p ≡ false
    → equal_point p q ≡ false
    → comp_point_position p q ≡ true
comp_total p q h k = ground arith

comp_pull :
    (p q r : Point)
    → comp_point_position p q ≡ true
    → comp_point_position r q ≡ false
    → comp_point_position p r ≡ true
comp_pull p q r h k = ground arith

pull_All :
    (p q : Point) (rs : List Point)
    → comp_point_position p q ≡ true
    → All (λ r. comp_point_position r q ≡ false) rs
    → All (λ r. comp_point_position p r ≡ true) rs
pull_All p q [] h all = tt
pull_All p q (r ∷ rs) h all = (comp_pull p q r h all.0, pull_All p q rs h all.1)

unique_after-All :
    (P : Point → Type 0) (p : Point) (qs : List Point)
    → All P qs
    → All P (unique_after equal_point p qs)
unfolding unique_after
unique_after-All P p [] all = tt
unique_after-All P p (q ∷ qs) all = elim (Bool-cases (equal_point p q)) [
  | inl e ↦ rw e (unique_after-All P p qs all.1)
  | inr e ↦ rw e (all.0, unique_after-All P q qs all.1)
]

unique_after-Descending :
    (p : Point) (qs : List Point)
    → All (λ q. comp_point_position q p ≡ false) qs
    → Sorted comp_point_position qs
    → Descending (p ∷ unique_after equal_point p qs)
unfolding unique_after
unique_after-Descending p [] h s = (tt, tt)
unique_after-Descending p (q ∷ qs) h s = elim (Bool-cases (equal_point p q)) [
  | inl e ↦ rw e (unique_after-Descending p qs h.1 s.1)
  | inr e ↦
      let first = comp_total p q h.0 e in
      rw e (
        (
          first,
          unique_after-All (λ r. comp_point_position p r ≡ true) q qs (pull_All p q qs first s.0),
        ),
        unique_after-Descending q qs s.0 s.1,
      )
]

insert-has_square :
    (x y : ℤ) (p : Point) (qs : List Point)
    → has_square x y (insert comp_point_position p qs) ≡ has_square x y (p ∷ qs)
unfolding insert has_square
insert-has_square x y p [] = refl
insert-has_square x y p (q ∷ qs) =
    let ih = insert-has_square x y p qs in
    elim (Bool-cases (comp_point_position q p)) [
      | inl e ↦ rw (e, has_square) (ground (arith, ih))
      | inr e ↦ rw e refl
    ]

sort-has_square :
    (x y : ℤ) (ps : List Point) → has_square x y (sort comp_point_position ps) ≡ has_square x y ps
unfolding sort has_square
sort-has_square x y [] = refl
sort-has_square x y (p ∷ ps) =
    insert-has_square x y p (sort comp_point_position ps)
    ∙ ap (λ b. (p.x ==ℤ x && p.y ==ℤ y) || b) (sort-has_square x y ps)

same_here :
    (x y : ℤ) (p q : Point)
    → equal_point p q ≡ true
    → (p.x ==ℤ x && p.y ==ℤ y) ≡ (q.x ==ℤ x && q.y ==ℤ y)
same_here x y p q h = ground arith

unique_after-has_square :
    (x y : ℤ) (p : Point) (qs : List Point)
    → has_square x y (p ∷ unique_after equal_point p qs) ≡ has_square x y (p ∷ qs)
unfolding unique_after has_square
unique_after-has_square x y p [] = refl
unique_after-has_square x y p (q ∷ qs) = elim (Bool-cases (equal_point p q)) [
  | inl e ↦
      let ih = unique_after-has_square x y p qs in
      let here = same_here x y p q e in rw e (ground (arith, ih, here))
  | inr e ↦ rw e (ap (λ b. (p.x ==ℤ x && p.y ==ℤ y) || b) (unique_after-has_square x y q qs))
]

unique-has_square :
    (x y : ℤ) (ps : List Point) → has_square x y (unique equal_point ps) ≡ has_square x y ps
unfolding unique
unique-has_square x y [] = refl
unique-has_square x y (p ∷ ps) = unique_after-has_square x y p ps

unique-Descending :
    (ps : List Point) → Sorted comp_point_position ps → Descending (unique equal_point ps)
unfolding unique
unique-Descending [] s = tt
unique-Descending (p ∷ ps) s = unique_after-Descending p ps s.0 s.1

-- `UniquePoint` keeps exactly the squares of its list, and orders them strictly, so that each square
-- stands in the result once.
pub unique_point_lem :
    (ps : List Point)
    → Descending (unique_point ps)
      × ((x y : ℤ) → has_square x y (unique_point ps) ≡ has_square x y ps)
unfolding unique_point
unique_point_lem ps = (
  unique-Descending (sort comp_point_position ps)
      (sort-Sorted comp_point_position comp_asym comp_after ps),
  λ x y. unique-has_square x y (sort comp_point_position ps) ∙ sort-has_square x y ps,
)

-- What holds of all points of a list holds of those that `UniquePoint` keeps.
pub unique_point-All : (P : Point → Type 0) (ps : List Point) → All P ps → All P (unique_point ps)
unfolding unique_point unique
unique_point-All P ps all =
    kept (sort comp_point_position ps) (sort-All comp_point_position P ps all)
  where
    kept : (qs : List Point) → All P qs → All P (unique equal_point qs)
    kept [] h = tt
    kept (q ∷ qs) h = (h.0, unique_after-All P q qs h.1)
