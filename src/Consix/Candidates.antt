-- ===== src/Consix/Candidates.antt =====
-- search.cpp, the lists of candidates: the comparators, `UniquePoint`, `UniqueStep`,
-- `LookForBestStep`, and what they use of the C++ library. `std::sort` leaves the order of
-- elements that its test does not tell apart open; here they keep the order they had.
pub mod Order
pub mod Squares
use package.chess_set.Base.{
  ℕ, zero, suc, ◌+◌, ◌%◌, ◌^◌, Bool, true, false, ◌&&◌, List, [], ◌∷◌, ◌++◌, if◌then◌else◌, ltb,
  ◌==◌,
}
use package.chess_set.Base.Int.{ℤ, pos, ltb_ℤ, ◌==ℤ◌}
use package.chess_set.Consix.State.{Point, Step, at, pair}

-- `ComPointValue`.
abbrev pub com_point_value : Point → Point → Bool
com_point_value p q = ltb_ℤ q.value p.value

-- `ComStepValue`, `ComSLValue` and `ComLineValue`.
abbrev pub com_step_value : Step → Step → Bool
com_step_value s t = ltb_ℤ t.s_value s.s_value

abbrev pub com_s_l_value : Step → Step → Bool
com_s_l_value s t = ltb_ℤ s.s_value t.s_value

abbrev pub com_line_value : Step → Step → Bool
com_line_value s t = ltb_ℤ t.l_value s.l_value

-- `CompPointPosition`: the larger column first, then the larger row.
abbrev pub comp_point_position : Point → Point → Bool
comp_point_position p q =
    if ltb_ℤ q.x p.x then true else if p.x ==ℤ q.x then ltb_ℤ q.y p.y else false

abbrev pub equal_point : Point → Point → Bool
equal_point p q = p.x ==ℤ q.x && p.y ==ℤ q.y

-- The bits of a `long long`, moved so that their order is that of the signed numbers.
abbrev pub signed64 : ℕ → ℕ
signed64 h = (h + 2 ^ 63) % 2 ^ 64

abbrev pub comp_step_position : Step → Step → Bool
comp_step_position s t = ltb (signed64 t.hash_id) (signed64 s.hash_id)

abbrev pub equal_step : Step → Step → Bool
equal_step s t = s.hash_id == t.hash_id

module _ {A : Type 0} (before : A → A → Bool) where
  unfoldable pub insert : A → List A → List A
  insert x [] = x ∷ []
  insert x (y ∷ ys) = let rest = insert x ys in if before y x then y ∷ rest else x ∷ y ∷ ys

  unfoldable pub sort : List A → List A
  sort [] = []
  sort (x ∷ xs) = insert x (sort xs)

module _ {A : Type 0} (same : A → A → Bool) where
  -- `unique` on what follows the element that was kept last.
  unfoldable pub unique_after : A → List A → List A
  unique_after x [] = []
  unique_after x (y ∷ ys) =
      let dropped = unique_after x ys in
      let kept = y ∷ unique_after y ys in if same x y then dropped else kept

  unfoldable pub unique : List A → List A
  unique [] = []
  unique (x ∷ xs) = x ∷ unique_after x xs

unfoldable pub unique_point : List Point → List Point
unique_point ps = unique equal_point (sort comp_point_position ps)

unfoldable pub unique_step : List Step → List Step
unique_step ms = unique equal_step (sort comp_step_position ms)

-- `vector::resize`: what is added is `fill`.
module _ {A : Type 0} (fill : A) where
  unfoldable pub resize : ℕ → List A → List A
  resize zero xs = []
  resize (suc n) [] = fill ∷ resize n []
  resize (suc n) (x ∷ xs) = x ∷ resize n xs

-- The steps that `resize` adds have all their fields 0.
abbrev pub zero_step : Step
zero_step = pair (at (pos 0) (pos 0)) (at (pos 0) (pos 0))

-- The loop of `LookForBestStep`: the leading steps of one `LValue`, and the rest.
unfoldable pub leading : ℤ → List Step → List Step
leading v [] = []
leading v (s ∷ ms) = let rest = s ∷ leading v ms in if s.l_value ==ℤ v then rest else []

unfoldable pub after_leading : ℤ → List Step → List Step
after_leading v [] = []
after_leading v (s ∷ ms) = let rest = after_leading v ms in if s.l_value ==ℤ v then rest else s ∷ ms

-- The source reads `MoveList[0]`, which an empty list does not have.
unfoldable pub look_for_best_step : List Step → List Step
look_for_best_step [] = []
look_for_best_step (s ∷ ms) =
    sort com_step_value (leading s.l_value (s ∷ ms)) ++ after_leading s.l_value (s ∷ ms)
