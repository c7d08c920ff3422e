-- ===== src/Consix/Build/Restored.antt =====
-- `ConstructStepForNoThreat` takes back every stone that it tries.
use chess_set.Base.{ℕ, Bool, List, [], ◌∷◌}
use chess_set.Consix.State.{Point, Step, Line}
use chess_set.Consix.Run.{new_lines, trial}
use chess_set.Consix.Run.Keeps.{
  IsSafe, Anywhere, pure-IsSafe, gets-IsSafe, if-IsSafe, bind-IsSafe, gather-IsSafe,
}
use chess_set.Consix.Run.Trial.{trial-IsSafe}
use chess_set.Consix.Value.{search_range, centre}
use chess_set.Consix.Value.Restored.{valued_step-IsSafe, construct_com_point-IsSafe}
use chess_set.Consix.Defend.{both_sides}
use chess_set.Consix.Defend.Restored.{
  steps_with-IsSafe, steps_with_others-IsSafe, both_sides-IsSafe, best_steps-IsSafe,
}
use chess_set.Consix.Build.{
  deep_point, valued_steps, valued_pairs, deep_steps, start_point, centre_point, quiet_steps,
  construct_step_for_no_threat,
}

looks :
    (s1 s2 : ℕ) (p : Point)
    → IsSafe Anywhere (trial p s1 s1 0 s2 0 new_lines (both_sides s1 0 s2 0))
looks s1 s2 p = trial-IsSafe Anywhere p s1 s1 0 s2 0 new_lines tt (both_sides-IsSafe s1 0 s2 0)

deep_point-IsSafe : (s1 s2 : ℕ) (p : Point) → IsSafe Anywhere (deep_point s1 s2 p)
unfolding deep_point
deep_point-IsSafe s1 s2 p =
    bind-IsSafe Anywhere (looks s1 s2 p) (λ lines. steps_with-IsSafe Anywhere p s1 _ tt (λ q. tt))

valued_steps-IsSafe : (side : ℕ) (ms : List Step) → IsSafe Anywhere (valued_steps side ms)
unfolding valued_steps
valued_steps-IsSafe side ms = gather-IsSafe Anywhere ms (λ s.
    bind-IsSafe Anywhere (valued_step-IsSafe Anywhere s.first s.second side tt tt)
      (λ step. pure-IsSafe Anywhere _))

valued_pairs-IsSafe : (side : ℕ) (ps : List Point) → IsSafe Anywhere (valued_pairs side ps)
unfolding valued_pairs
valued_pairs-IsSafe side [] = pure-IsSafe Anywhere []
valued_pairs-IsSafe side (p ∷ ps) =
    bind-IsSafe Anywhere (steps_with-IsSafe Anywhere p side ps tt (λ q. tt))
      (λ found. bind-IsSafe Anywhere (valued_pairs-IsSafe side ps) (λ more. pure-IsSafe Anywhere _))

deep_steps-IsSafe : (si1 si2 : Line) → IsSafe Anywhere (deep_steps si1 si2)
unfolding deep_steps
deep_steps-IsSafe si1 si2 =
    bind-IsSafe Anywhere (gather-IsSafe Anywhere _ (deep_point-IsSafe si1.side si2.side)) (λ one.
      bind-IsSafe Anywhere (valued_steps-IsSafe si1.side _) (λ two.
        bind-IsSafe Anywhere
          (if-IsSafe Anywhere _ (valued_pairs-IsSafe si1.side _) (pure-IsSafe Anywhere _))
          (λ three. pure-IsSafe Anywhere _)))

start_point-IsSafe : (s1 s2 : ℕ) (p : Point) → IsSafe Anywhere (start_point s1 s2 p)
unfolding start_point
start_point-IsSafe s1 s2 p =
    bind-IsSafe Anywhere (looks s1 s2 p)
      (λ lines. steps_with_others-IsSafe Anywhere p s1 _ tt (λ q. tt))

centre_point-IsSafe : (s1 s2 : ℕ) (p : Point) → IsSafe Anywhere (centre_point s1 s2 p)
unfolding centre_point
centre_point-IsSafe s1 s2 p = bind-IsSafe Anywhere (gets-IsSafe Anywhere _) (λ free.
    if-IsSafe Anywhere free
      (bind-IsSafe Anywhere (construct_com_point-IsSafe Anywhere p s1 s2 tt)
        (λ near. steps_with_others-IsSafe Anywhere p s1 near tt (λ q. tt)))
      (pure-IsSafe Anywhere []))

quiet_steps-IsSafe : (si1 si2 : Line) → IsSafe Anywhere (quiet_steps si1 si2)
unfolding quiet_steps
quiet_steps-IsSafe si1 si2 =
    bind-IsSafe Anywhere (gather-IsSafe Anywhere _ (start_point-IsSafe si1.side si2.side)) (λ one.
      bind-IsSafe Anywhere (valued_steps-IsSafe si1.side _) (λ two.
        bind-IsSafe Anywhere (gets-IsSafe Anywhere search_range) (λ r.
          bind-IsSafe Anywhere
            (if-IsSafe Anywhere _
              (gather-IsSafe Anywhere (centre r) (centre_point-IsSafe si1.side si2.side))
              (pure-IsSafe Anywhere _))
            (λ all. best_steps-IsSafe _ _ _ _ _ _))))

pub construct_step_for_no_threat-IsSafe :
    (si1 si2 : Line) (con_search1 : Bool)
    → IsSafe Anywhere (construct_step_for_no_threat si1 si2 con_search1)
unfolding construct_step_for_no_threat
construct_step_for_no_threat-IsSafe si1 si2 con_search1 =
    if-IsSafe Anywhere con_search1 (deep_steps-IsSafe si1 si2) (quiet_steps-IsSafe si1 si2)
