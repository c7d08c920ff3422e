-- ===== src/Consix/Candidates/Order.antt =====
-- `sort` gives back the elements of its list, as often, in the order of its test.
use mathlib.Core.List.{Perm}
use mathlib.Core.List.Perm
use chess_set.Base.{
  ℕ, zero, suc, Bool, true, false, ◌≡◌, refl, ap, ◌∙◌, List, [], ◌∷◌, length, All, inl, inr,
  Bool-cases,
}
use chess_set.Consix.Candidates.{insert, sort, resize}

module _ {A : Type 0} (before : A → A → Bool) where
  insert-perm : (x : A) (ys : List A) → Perm (insert before x ys) (x ∷ ys)
  unfolding insert
  insert-perm x [] = Perm.rfl
  insert-perm x (y ∷ ys) = elim (Bool-cases (before y x)) [
    | inl e ↦ rw e (Perm.trans (Perm.cons y (insert-perm x ys)) (Perm.swap x y ys))
    | inr e ↦ rw e Perm.rfl
  ]

  pub sort-perm : (xs : List A) → Perm (sort before xs) xs
  unfolding sort
  sort-perm [] = Perm.rfl
  sort-perm (x ∷ xs) = Perm.trans (insert-perm x (sort before xs)) (Perm.cons x (sort-perm xs))

  length-insert : (x : A) (ys : List A) → length (insert before x ys) ≡ suc (length ys)
  unfolding insert
  length-insert x [] = refl
  length-insert x (y ∷ ys) = elim (Bool-cases (before y x)) [
    | inl e ↦ rw e (ap suc (length-insert x ys))
    | inr e ↦ rw e refl
  ]

  pub length-sort : (xs : List A) → length (sort before xs) ≡ length xs
  unfolding sort
  length-sort [] = refl
  length-sort (x ∷ xs) = length-insert x (sort before xs) ∙ ap suc (length-sort xs)

  -- A predicate of all elements holds of all of them in the sorted list.
  module _ (P : A → Type 0) where
    insert-All : (x : A) (ys : List A) → P x → All P ys → All P (insert before x ys)
    unfolding insert
    insert-All x [] px all = (px, tt)
    insert-All x (y ∷ ys) px all = elim (Bool-cases (before y x)) [
      | inl e ↦ rw e (all.0, insert-All x ys px all.1)
      | inr e ↦ rw e (px, all)
    ]

    pub sort-All : (xs : List A) → All P xs → All P (sort before xs)
    unfolding sort
    sort-All [] all = tt
    sort-All (x ∷ xs) all = insert-All x (sort before xs) all.0 (sort-All xs all.1)

  -- No element is before its predecessor.
  abbrev pub Sorted : List A → Type 0
  Sorted [] = Unit
  Sorted (x ∷ xs) = All (λ y. before y x ≡ false) xs × Sorted xs

  module _ (asym : (x y : A) → before x y ≡ true → before y x ≡ false)
      (after : (x y z : A) → before y x ≡ false → before z y ≡ false → before z x ≡ false) where
    later_All :
        (x y : A) (ys : List A)
        → before y x ≡ false
        → All (λ z. before z y ≡ false) ys
        → All (λ z. before z x ≡ false) ys
    later_All x y [] h all = tt
    later_All x y (z ∷ zs) h all = (after x y z h all.0, later_All x y zs h all.1)

    insert-Sorted : (x : A) (ys : List A) → Sorted ys → Sorted (insert before x ys)
    unfolding insert
    insert-Sorted x [] s = (tt, tt)
    insert-Sorted x (y ∷ ys) s = elim (Bool-cases (before y x)) [
      | inl e ↦
          rw e (insert-All (λ z. before z y ≡ false) x ys (asym y x e) s.0, insert-Sorted x ys s.1)
      | inr e ↦ rw e ((e, later_All x y ys e s.0), s)
    ]

    pub sort-Sorted : (xs : List A) → Sorted (sort before xs)
    unfolding sort
    sort-Sorted [] = tt
    sort-Sorted (x ∷ xs) = insert-Sorted x (sort before xs) (sort-Sorted xs)

module _ {A : Type 0} (fill : A) where
  pub length-resize : (n : ℕ) (xs : List A) → length (resize fill n xs) ≡ n
  unfolding resize
  length-resize zero xs = refl
  length-resize (suc n) [] = ap suc (length-resize n [])
  length-resize (suc n) (x ∷ xs) = ap suc (length-resize n xs)
