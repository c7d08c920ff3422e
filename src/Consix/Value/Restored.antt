-- ===== src/Consix/Value/Restored.antt =====
-- `CalculateStepValue` and `ConstructComPoint` take every stone away again.
use chess_set.Base.{
  ℕ, ◌+◌, Bool, ◌&&◌, ◌||◌, not, List, [], ◌∷◌, ◌++◌, if◌then◌else◌, ltb, ◌==◌, inl, inr,
  Bool-cases, and_split, ==→≡,
}
use chess_set.Base.Int.{ℤ, pos, ◌+ℤ◌, ◌==ℤ◌}
use chess_set.Consix.State.{Angle, angles, Point, Step, empty, pair}
use chess_set.Consix.Run.{◌>>=◌, pure, gets}
use chess_set.Consix.Run.Keeps.{
  IsSafe, Allowed, pure-IsSafe, gets-IsSafe, if-IsSafe, bind-IsSafe, gather-IsSafe, Keeps-refl,
  with_stones-IsSafe,
}
use chess_set.Consix.Value.{
  calculate_step_value, valued_step, search_range, centre, near_round, near_side, near_point,
  construct_com_point,
}

module _ (P : ℤ → ℤ → Type 0) where
  pub calculate_step_value-IsSafe :
      (step : Step) (side : ℕ)
      → Allowed P step.first
      → Allowed P step.second
      → IsSafe P (calculate_step_value step side)
  unfolding calculate_step_value
  calculate_step_value-IsSafe step side a b = bind-IsSafe P (gets-IsSafe P _) (λ com_value.
      bind-IsSafe P (gets-IsSafe P _) (λ per_value.
        with_stones-IsSafe P step.first side step.second a b (
          bind-IsSafe P (gets-IsSafe P _)
            (λ sum1. bind-IsSafe P (gets-IsSafe P _) (λ sum2. pure-IsSafe P _)))))

  pub valued_step-IsSafe :
      (p q : Point) (side : ℕ) → Allowed P p → Allowed P q → IsSafe P (valued_step p q side)
  unfolding valued_step
  valued_step-IsSafe p q side a b =
      bind-IsSafe P (calculate_step_value-IsSafe (pair p q) side a b)
        (λ s_value. bind-IsSafe P (gets-IsSafe P _) (λ hash_id. pure-IsSafe P _))

  module _ (first second : Point) (s side1 side2 : ℕ) (a : Allowed P first)
      (b : Allowed P second) where
    value_if :
        (c : Bool)
        → IsSafe P (if c then calculate_step_value (pair first second) s else pure (pos 0))
    value_if c =
        if-IsSafe P c (calculate_step_value-IsSafe (pair first second) s a b)
          (pure-IsSafe P (pos 0))

    near_round-IsSafe :
        (ks : List Angle) (count : ℕ) (value : ℤ)
        → IsSafe P (near_round first second s side1 side2 ks count value)
    unfolding near_round
    near_round-IsSafe [] count value = pure-IsSafe P (count, value)
    near_round-IsSafe (k ∷ ks) count value = bind-IsSafe P (gets-IsSafe P _) (λ id1.
        bind-IsSafe P (gets-IsSafe P _) (λ id2.
          if-IsSafe P (ltb 4 id1 || ltb 4 id2)
            (bind-IsSafe P (value_if (s == side1)) (λ v1.
              bind-IsSafe P (value_if (s == side2))
                (λ v2. near_round-IsSafe ks (count + 1) (value +ℤ v1 +ℤ v2))))
            (near_round-IsSafe ks count value)))

    near_side-IsSafe : (value : ℤ) → IsSafe P (near_side first second s side1 side2 value)
    unfolding near_side
    near_side-IsSafe value =
        bind-IsSafe P (with_stones-IsSafe P first s second a b (near_round-IsSafe angles 0 value))
          (λ r. pure-IsSafe P _)

  near_point-IsSafe :
      (first : Point) (side1 side2 : ℕ) (second : Point)
      → Allowed P first
      → IsSafe P (near_point first side1 side2 second)
  unfolding near_point ◌>>=◌ gets pure
  near_point-IsSafe first side1 side2 second a = record {
    keeps = λ g w.
        let elsewhere = not (second.x ==ℤ first.x) || not (second.y ==ℤ first.y) in
        elim (Bool-cases (g.board second.x second.y == empty && elsewhere)) [
          | inl e ↦
              let b : Allowed P second =
                w second.x second.y (==→≡ _ _ (and_split _ elsewhere e).0) in
              rw e ((look b).keeps g w)
          | inr e ↦ rw e (Keeps-refl P g)
        ];
  }
    where
      look :
          Allowed P second
          → IsSafe P (
              near_side first second 0 side1 side2 (pos 0) >>= λ one.
              near_side first second 1 side1 side2 one.0 >>= λ two. pure (one.1 ++ two.1))
      look b = bind-IsSafe P (near_side-IsSafe first second 0 side1 side2 a b (pos 0)) (λ one.
          bind-IsSafe P (near_side-IsSafe first second 1 side1 side2 a b one.0)
            (λ two. pure-IsSafe P (one.1 ++ two.1)))

  pub construct_com_point-IsSafe :
      (first : Point) (side1 side2 : ℕ)
      → Allowed P first
      → IsSafe P (construct_com_point first side1 side2)
  unfolding construct_com_point
  construct_com_point-IsSafe first side1 side2 a = bind-IsSafe P (gets-IsSafe P search_range) (λ r.
      bind-IsSafe P
        (gather-IsSafe P (centre r) (λ second. near_point-IsSafe first side1 side2 second a))
        (λ found. pure-IsSafe P _))
