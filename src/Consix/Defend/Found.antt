-- ===== src/Consix/Defend/Found.antt =====
-- `DefendForMultiThreat` finds a step where `EnsureThreatNum` has counted three threats or more.
use chess_set.Base.{
  ℕ, suc, Bool, true, false, not, ◌&&◌, ◌||◌, ◌≡◌, refl, sym, List, [], ◌∷◌, ◌++◌, All, inl, inr,
  length, Bool-cases, ltb, ◌≤◌, arith, subst,
}
use chess_set.Consix.State.{Point, Step, Line, Search, next, empty}
use chess_set.Consix.Move.{put_stone}
use chess_set.Consix.Candidates.{unique_point, com_step_value}
use chess_set.Consix.Candidates.Order.{length-sort}
use chess_set.Consix.Candidates.Squares.{unique_point_lem, unique_point-All}
use chess_set.Consix.Threats.{two_directions, ensure_threat_num}
use chess_set.Consix.Threats.Attack.{any_point, attacked}
use chess_set.Consix.Threats.Others.{never}
use chess_set.Consix.Threats.Defence.{
  second_meets, one_meets, two_meet, met_threats, ensure_threat_num-eq,
}
use chess_set.Consix.Defend.{defend_for_multi_threat}
use chess_set.Consix.Defend.Pairs.{
  both, two_stones, kept_pair, kept_with, kept_steps, defend_for_multi_threat-eq,
}

some_before : {A : Type 0} (xs ys : List A) → 1 ≤ length xs → 1 ≤ length (xs ++ ys)
some_before [] ys h = elim h [ ]
some_before (x ∷ xs) ys h = omega arith

some_after : {A : Type 0} (xs ys : List A) → 1 ≤ length ys → 1 ≤ length (xs ++ ys)
some_after [] ys h = h
some_after (x ∷ xs) ys h = omega arith

module _ (all : List Point) (side n : ℕ) (g : Search) where
  pair_some :
      (i j : ℕ) (p q : Point)
      → (attacked (both i j) all side (two_stones g p q (next side)) && ltb n 3) ≡ false
      → 1 ≤ length (kept_pair all side n i p j q g)
  pair_some i j p q e = rw e (omega arith)

  with_some :
      (i : ℕ) (p : Point) (qs : List Point) (j : ℕ)
      → second_meets all side i qs j (put_stone g p (next side)) ≡ true
      → 1 ≤ length (kept_with all side n i p qs j g)
  unfolding kept_with any_point
  with_some i p [] j h = absurd (ground arith)
  with_some i p (q ∷ qs) j h =
      elim (Bool-cases (attacked (both i j) all side (two_stones g p q (next side)))) [
        | inl e ↦
            some_after (kept_pair all side n i p j q g) _ (with_some i p qs (suc j) (rw e at h))
        | inr e ↦ some_before _ _ (pair_some i j p q (rw e refl))
      ]

  steps_some :
      (ps : List Point) (i : ℕ)
      → any_point never
          (λ p qs i. second_meets all side i qs (suc i) (put_stone g p (next side)))
          ps
          i
        ≡ true
      → 1 ≤ length (kept_steps all side n ps i g)
  unfolding kept_steps any_point
  steps_some [] i h = absurd (ground arith)
  steps_some (p ∷ ps) i h =
      elim (Bool-cases (second_meets all side i ps (suc i) (put_stone g p (next side)))) [
        | inl e ↦ some_before _ _ (with_some i p ps (suc i) e)
        | inr e ↦
            some_after (kept_with all side n i p ps (suc i) g) _ (steps_some ps (suc i) (rw e at h))
      ]

  many_some :
      (ps : List Point) (i : ℕ)
      → ltb n 3 ≡ false
      → 2 ≤ length ps
      → 1 ≤ length (kept_steps all side n ps i g)
  unfolding kept_steps kept_with
  many_some [] i e h = absurd (omega arith)
  many_some (p ∷ []) i e h = absurd (omega arith)
  many_some (p ∷ q ∷ qs) i e h =
      some_before _ _ (some_before _ _ (pair_some i (suc i) p q (and_none _ _ e)))
    where
      and_none : (a b : Bool) → b ≡ false → (a && b) ≡ false
      and_none a b h = ground arith

-- For what `EnsureThreatNum` leaves of three threats or more, steps are kept, on the same points.
steps_after_count :
    (all : List Point) (side : ℕ) (threat : List ℕ) (n : ℕ) (g : Search)
    → 3 ≤ n
    → 2 ≤ length all
    → 2 ≤ met_threats all side threat n g
    → 1 ≤ length (kept_steps all side (met_threats all side threat n g) all 0 g)
unfolding met_threats two_meet
steps_after_count all side threat n g many points left =
    elim (Bool-cases (ltb n 2 || not (two_directions threat))) [
      | inl e ↦ rw e (many_some all side n g all 0 (ground arith) points)
      | inr e ↦ rw e (elim (Bool-cases (one_meets all side g)) [
        | inl m ↦ absurd (omega (arith, (rw (e, m) at left)))
        | inr m ↦ rw m (elim (Bool-cases (two_meet all side g)) [
          | inl k ↦ rw k (steps_some all side 2 g all 0 k)
          | inr k ↦ rw k (many_some all side n g all 0 (ground arith) points)
        ])
      ])
    ]

-- When the lines of a side have three threats or more, with two threat points or more, all on empty
-- squares, and `EnsureThreatNum` leaves more than one threat, `DefendForMultiThreat` returns a step.
pub defend_for_multi_threat-some :
    (line : Line) (threat : List ℕ) (g : Search)
    → All (λ p. g.board p.x p.y ≡ empty) line.threat_point
    → 3 ≤ line.threat_num
    → 2 ≤ length (unique_point line.threat_point)
    → 2 ≤ (ensure_threat_num line threat g).0.threat_num
    → 1 ≤ length (defend_for_multi_threat (ensure_threat_num line threat g).0 g).0
defend_for_multi_threat-some line threat g free many points =
    let all = unique_point line.threat_point in
    let n = met_threats all line.side threat line.threat_num g in
    let si : Line = record line { threat_point = all; threat_num = n } in
    let found = λ (left : 2 ≤ n).
      subst (λ (r : List Step × Search). 1 ≤ length r.0)
        (sym (
          defend_for_multi_threat-eq si g (unique_point_lem line.threat_point).0
            (unique_point-All (λ p. g.board p.x p.y ≡ empty) line.threat_point free)))
        (rw (length-sort com_step_value (kept_steps all line.side n all 0 g))
          (steps_after_count all line.side threat line.threat_num g many points left)) in
    subst (λ (r : Line × Search). 2 ≤ r.0.threat_num → 1 ≤ length (defend_for_multi_threat r.0 g).0)
      (sym (ensure_threat_num-eq line threat g free)) found
