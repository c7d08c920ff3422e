-- ===== src/Consix/Defend.antt =====
-- search.cpp, the steps that meet threats: `DefendForMultiThreat`, `DefendForSingleThreat`, and
-- `AdjustStepValue`, which corrects the values of long lists.
pub mod Pairs
pub mod Found
pub mod Restored
pub mod Size
use package.chess_set.Base.{
  ℕ, zero, suc, ◌+◌, ◌*◌, ◌/◌, Bool, true, false, ◌&&◌, ◌||◌, List, [], ◌∷◌, ◌++◌, if◌then◌else◌,
  ltb, leb, ◌==◌, length, take, ◌⊎◌, inl, inr,
}
use package.chess_set.Base.Int.{ℤ, pos, ◌+ℤ◌, ◌-ℤ◌}
use package.chess_set.Consix.State.{Point, Step, Line, Lines, Search, next, empty, line_type_value}
use package.chess_set.Consix.Lines.{backup_line}
use package.chess_set.Consix.Candidates.{
  sort, unique_point, unique_step, com_step_value, equal_point, resize, zero_step,
}
use package.chess_set.Consix.Run.{
  Run, ◌>>=◌, ◌>>◌, pure, gets, gather, place, update_cross, recover_cross, new_lines, with_stone,
  with_stones, trial,
}
use package.chess_set.Consix.Threats.{attack, get_all_line_infor}
use package.chess_set.Consix.Value.{valued_step, construct_com_point}

-- The body of the loops of `DefendForMultiThreat`: the step is kept when no attack is left after it,
-- or when there are three threats or more.
unfoldable pub defend_pair : List Point → ℕ → ℕ → ℕ → Point → ℕ → Point → Run (List Step)
defend_pair all side threat_num i p j q = do
  lost ← with_stones p q (next side) (attack (λ x. x == i || x == j) all side)
  if lost && ltb threat_num 3
      then pure []
      else (do step ← valued_step p q (next side); pure (step ∷ []))

unfoldable pub defend_with : List Point → ℕ → ℕ → ℕ → Point → List Point → ℕ → Run (List Step)
defend_with all side threat_num i p [] j = pure []
defend_with all side threat_num i p (q ∷ qs) j = do
  found ← defend_pair all side threat_num i p j q
  more ← defend_with all side threat_num i p qs (suc j)
  pure (found ++ more)

unfoldable pub defend_from : List Point → ℕ → ℕ → List Point → ℕ → Run (List Step)
defend_from all side threat_num [] i = pure []
defend_from all side threat_num (p ∷ ps) i = do
  found ← defend_with all side threat_num i p ps (suc i)
  more ← defend_from all side threat_num ps (suc i)
  pure (found ++ more)

unfoldable pub defend_for_multi_threat : Line → Run (List Step)
defend_for_multi_threat si = do
  found ← defend_from si.threat_point si.side si.threat_num si.threat_point 0
  pure (sort com_step_value found)

-- What `AdjustStepValue` adds to a value and takes from it, by the threats of the side and the sizes
-- of the two lists of big potential. The factors 0.2, 0.3, … are tenths here.
abbrev ltv : ℕ → ℕ
ltv = line_type_value

unfoldable pub adjustment : ℕ → ℕ → ℕ → ℤ
adjustment threat_num size1 size2 =
    let bonus = pos (ltv 8 * 2 / 10) in
    if ltb 2 threat_num
    then pos (ltv 14)
    else if threat_num == 2
    then pos ((ltv 13 * 3 + ltv 11 * 7) * 2 / 100)
      -ℤ pos ((ltv 5 * 2 + ltv 7 * 3 + ltv 8 * 5) * 2 / 100)
      +ℤ (if ltb 0 size1 then bonus else if ltb 0 size2 then pos 0 -ℤ bonus else pos 0)
    else if threat_num == 1
    then pos ((ltv 9 * 3 + ltv 10 * 5 + ltv 12 * 2) * 2 / 100)
      -ℤ pos ((ltv 3 * 2 + ltv 4 * 2 + ltv 6 * 3 + ltv 7 * 3) * 2 / 100)
      +ℤ (if ltb 0 size1 && size2 == 0
          then bonus
          else if ltb 0 size2
          then pos 0 -ℤ bonus
          else pos 0)
    else if ltb 0 size2
    then pos 0 -ℤ bonus
    else if ltb 0 size1
    then bonus
    else pos 0

-- The four `BackupLine` calls of a round of `AdjustStepValue`.
unfoldable pub backup_two : Step → ℕ → Lines → Lines → Lines
backup_two step side info line_temp =
    let t1 = backup_line step.first info line_temp side 2 in
    let t2 = backup_line step.first info t1 (next side) 2 in
    let t3 = backup_line step.second info t2 side 2 in backup_line step.second info t3 (next side) 2

-- Both stones of a step on trial.
unfoldable pub trial_step : Step → ℕ → Lines → Run (Line × Line) → Run (Line × Line)
trial_step step side line_temp look = do
  info ← gets (λ g. g.line_info)
  let kept = backup_two step side info line_temp
  place step.first side
  place step.second side
  update_cross step.first side 2
  update_cross step.first (next side) 2
  update_cross step.second side 2
  update_cross step.second (next side) 2
  lines ← look
  place step.first empty
  place step.second empty
  recover_cross step.first kept side 2
  recover_cross step.first kept (next side) 2
  recover_cross step.second kept side 2
  recover_cross step.second kept (next side) 2
  pure lines

-- The lines of two sides, looked at one after the other.
unfoldable pub both_sides : ℕ → ℕ → ℕ → ℕ → Run (Line × Line)
both_sides side1 which1 side2 which2 = do
  one ← get_all_line_infor side1 which1
  two ← get_all_line_infor side2 which2
  pure (one, two)

unfoldable pub adjust_step : ℕ → Step → Run (List Step)
adjust_step side step = do
  lines ← trial_step step side new_lines (both_sides side 2 (next side) 2)
  let change =
      adjustment lines.0.threat_num (length lines.0.big_poten_point)
        (length lines.1.big_poten_point)
  pure (record step { s_value = step.s_value +ℤ change } ∷ [])

unfoldable pub adjust_step_value : List Step → ℕ → Run (List Step)
adjust_step_value ms side = gather ms (adjust_step side)

-- The two squares of each step.
unfoldable pub ends : List Step → List Point
ends [] = []
ends (s ∷ ms) = s.first ∷ s.second ∷ ends ms

-- The points that `DefendForSingleThreat` collects beside one threat point.
unfoldable pub single_points : Line → Line → List Point
single_points si_com si_per =
    let near = unique_point (
      si_com.big_poten_point
      ++ si_com.sma_poten_point
      ++ ends si_com.big_poten_step
      ++ si_per.big_poten_point
      ++ ends si_per.big_poten_step
      ++ si_per.sma_poten_point) in
    if ltb (length near) 10
    then near ++ ends si_com.sma_poten_step ++ si_com.com_point ++ ends si_per.sma_poten_step
    else near

-- The steps of a point with each of a list of points.
unfoldable pub steps_with : Point → ℕ → List Point → Run (List Step)
steps_with p side qs = gather qs (λ q. do step ← valued_step p q side; pure (step ∷ []))

unfoldable pub steps_with_others : Point → ℕ → List Point → Run (List Step)
steps_with_others p side qs =
    gather qs
      (λ q. if equal_point p q then pure [] else (do step ← valued_step p q side; pure (step ∷ [])))

-- What the trial of one threat point finds: the steps themselves when the search goes deeper, which
-- are valued while the stone is still there, or the points to combine with once it is taken back.
unfoldable pub single_look : ℕ → ℕ → Bool → Bool → Point → Run (List Step ⊎ List Point)
single_look side1 side2 con_search1 con_search2 p = do
  lines ← both_sides side1 0 side2 0
  if ltb 0 lines.1.threat_num
      then pure (inl [])
      else (if con_search1
          then (do steps ← steps_with p side1 lines.0.big_poten_point; pure (inl steps))
          else (if con_search2
              then (do steps ← steps_with p side1 lines.0.sma_poten_point; pure (inl steps))
              else pure (inr (single_points lines.0 lines.1))))

unfoldable pub single_point : ℕ → ℕ → Bool → Bool → Point → Run (List Step)
single_point side1 side2 con_search1 con_search2 p = do
  found ←
      trial p side1 side1 0 side2 0 new_lines (single_look side1 side2 con_search1 con_search2 p)
  elim found [ inl steps ↦ pure steps | inr qs ↦ steps_with_others p side1 (unique_point qs) ]

-- Only when nothing is found: the points near the centre.
unfoldable pub near_steps : ℕ → ℕ → Point → Run (List Step)
near_steps side1 side2 p = do
  near ← construct_com_point p side1 side2
  steps_with_others p side1 near

-- `if ((int)(size * 0.8) > most) resize(most); else resize((int)(size * 0.8 + 1));`
unfoldable pub narrow : ℕ → List Step → List Step
narrow most ms =
    let part = length ms * 4 / 5 in
    if ltb most part then resize zero_step most ms else resize zero_step (part + 1) ms

-- The last part of the two functions that build long lists: a list of more than `low` steps is cut to
-- `low`, or to its half from `high` on, its values are adjusted, and the best `most` are kept.
unfoldable pub cut_list : ℕ → ℕ → List Step → List Step
cut_list low high ms =
    let size = length ms in
    let first = if ltb low size && ltb size high then resize zero_step low ms else ms in
    if leb high size then resize zero_step (size / 2) first else first

unfoldable pub best_steps : ℕ → ℕ → ℕ → ℕ → ℕ → List Step → Run (List Step)
best_steps low high from most side ms = do
  let size = length ms
  let cut = cut_list low high ms
  adjusted ← (if leb from size then adjust_step_value cut side else pure cut)
  let sorted = sort com_step_value adjusted
  pure (if ltb most size then resize zero_step most sorted else sorted)

unfoldable pub defend_for_single_threat : Line → Line → Bool → Bool → Run (List Step)
defend_for_single_threat si1 si2 con_search1 con_search2 = do
  found ← gather si2.threat_point (single_point si1.side si2.side con_search1 con_search2)
  all ←
      (if length found == 0
        then gather si2.threat_point (near_steps si1.side si2.side)
        else pure found)
  let ms = sort com_step_value (unique_step all)
  if con_search1
      then pure (narrow 3 ms)
      else (if con_search2 then pure (narrow 4 ms) else best_steps 30 60 30 20 si1.side ms)
