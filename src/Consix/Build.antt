-- ===== src/Consix/Build.antt =====
-- search.cpp, `ConstructStepForNoThreat`: the steps that are tried when the other side has no threat.
pub mod Restored
pub mod Size
use package.chess_set.Base.{
  ℕ, zero, suc, ◌+◌, ◌*◌, ◌/◌, Bool, true, false, List, [], ◌∷◌, ◌++◌, if◌then◌else◌, ltb, ◌==◌,
  length,
}
use package.chess_set.Base.Int.{ℤ, pos}
use package.chess_set.Consix.State.{Point, Step, Line, Search, empty}
use package.chess_set.Consix.Candidates.{
  sort, unique_point, unique_step, com_step_value, resize, zero_step,
}
use package.chess_set.Consix.Run.{Run, ◌>>=◌, ◌>>◌, pure, gets, gather, new_lines, trial}
use package.chess_set.Consix.Value.{valued_step, construct_com_point, search_range, centre}
use package.chess_set.Consix.Defend.{
  ends, both_sides, steps_with, steps_with_others, narrow, best_steps,
}

-- The points that go with a point of big potential, in a search for two threats.
unfoldable pub deep_points : Line → Line → List Point
deep_points si_com si_per =
    si_com.big_poten_point
    ++ si_com.threat_point
    ++ si_com.sma_poten_point
    ++ ends si_com.big_poten_step
    ++ (if ltb 0 (length si_per.big_poten_point)
        then si_per.big_poten_point
        else si_com.com_point
          ++ ends si_com.sma_poten_step
          ++ ends si_per.big_poten_step
          ++ si_per.sma_poten_point)

unfoldable pub deep_point : ℕ → ℕ → Point → Run (List Step)
deep_point side1 side2 p = do
  lines ← trial p side1 side1 0 side2 0 new_lines (both_sides side1 0 side2 0)
  steps_with p side1 (unique_point (deep_points lines.0 lines.1))

-- Steps that a list of the table holds, with their values.
unfoldable pub valued_steps : ℕ → List Step → Run (List Step)
valued_steps side ms =
    gather ms (λ s. do step ← valued_step s.first s.second side; pure (step ∷ []))

-- Each two points of a list.
unfoldable pub valued_pairs : ℕ → List Point → Run (List Step)
valued_pairs side [] = pure []
valued_pairs side (p ∷ ps) = do
  found ← steps_with p side ps
  more ← valued_pairs side ps
  pure (found ++ more)

-- The branch for `ConSearch1`.
unfoldable pub deep_steps : Line → Line → Run (List Step)
deep_steps si1 si2 = do
  one ← gather si1.big_poten_point (deep_point si1.side si2.side)
  two ← valued_steps si1.side si1.big_poten_step
  three ←
      (if ltb 3 (length si1.sma_poten_point)
        then valued_pairs si1.side si1.sma_poten_point
        else pure [])
  pure (narrow 5 (sort com_step_value (unique_step (one ++ two ++ three))))

-- The points to start from …
unfoldable pub start_points : Line → Line → List Point
start_points si1 si2 =
    let near =
      si1.big_poten_point
      ++ ends si1.big_poten_step
      ++ si1.sma_poten_point
      ++ si2.big_poten_point
      ++ ends si2.big_poten_step
      ++ si2.sma_poten_point in
    unique_point (if ltb (length near) 5 then near ++ si1.com_point else near)

-- … and those that go with one of them.
unfoldable pub second_points : Line → Line → List Point
second_points si_com si_per =
    let near =
      si_com.threat_point
      ++ si_com.big_poten_point
      ++ si_com.sma_poten_point
      ++ ends si_com.big_poten_step
      ++ si_per.big_poten_point
      ++ ends si_per.big_poten_step
      ++ si_per.sma_poten_point in
    if ltb (length near) 20 then near ++ si_com.com_point ++ ends si_com.sma_poten_step else near

unfoldable pub start_point : ℕ → ℕ → Point → Run (List Step)
start_point side1 side2 p = do
  lines ← trial p side1 side1 0 side2 0 new_lines (both_sides side1 0 side2 0)
  steps_with_others p side1 (unique_point (second_points lines.0 lines.1))

-- The loops over the squares near the centre, when nothing else is found.
unfoldable pub centre_point : ℕ → ℕ → Point → Run (List Step)
centre_point side1 side2 p = do
  free ← gets (λ g. g.board p.x p.y == empty)
  if free
      then (do near ← construct_com_point p side1 side2; steps_with_others p side1 near)
      else pure []

unfoldable pub quiet_steps : Line → Line → Run (List Step)
quiet_steps si1 si2 = do
  one ← gather (start_points si1 si2) (start_point si1.side si2.side)
  two ← valued_steps si1.side si1.sma_poten_step
  r ← gets search_range
  all ←
      (if length (one ++ two) == 0
        then gather (centre r) (centre_point si1.side si2.side)
        else pure (one ++ two))
  best_steps 50 100 40 25 si1.side (sort com_step_value (unique_step all))

unfoldable pub construct_step_for_no_threat : Line → Line → Bool → Run (List Step)
construct_step_for_no_threat si1 si2 con_search1 =
    if con_search1 then deep_steps si1 si2 else quiet_steps si1 si2
