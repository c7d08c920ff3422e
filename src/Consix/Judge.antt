-- ===== src/Consix/Judge.antt =====
-- search.cpp, the judgement of a leaf of the search: `NeedConSearchForDoubleThreat` and
-- `NeedConSearchForSingleThreat` decide whether to search deeper, `Discount` corrects the value.
pub mod Restored
pub mod Bound
use package.chess_set.Base.{
  ℕ, zero, suc, ◌+◌, ◌-◌, ◌*◌, ◌/◌, Bool, true, false, ◌&&◌, List, [], ◌∷◌, if◌then◌else◌, ltb,
  ◌==◌, length,
}
use package.chess_set.Base.Int.{ℤ, pos, ◌-ℤ◌}
use package.chess_set.Consix.State.{Point, Step, Line, Search, line_type_value, threat}
use package.chess_set.Consix.Run.{Run, ◌>>=◌, ◌>>◌, pure, gets, new_lines, trial}
use package.chess_set.Consix.Defend.{both_sides}

-- The loop over the threat points of both functions: a stone on a point meets all threats and leaves
-- the points that `found` wants, which the case `which` has collected.
unfoldable pub block_and_look : ℕ → ℕ → ℕ → (Line → Bool) → List Point → Run Bool
block_and_look side1 side2 which found [] = pure false
block_and_look side1 side2 which found (p ∷ ps) = do
  lines ← trial p side1 side1 which side2 1 new_lines (both_sides side1 which side2 1)
  if lines.1.threat_num == 0 && found lines.0
      then pure true
      else block_and_look side1 side2 which found ps

unfoldable pub need_con_search_for_double_threat : Line → Line → Run Bool
need_con_search_for_double_threat si1 si2 =
    if si2.threat_num == 2
    then pure true
    else if ltb 0 (length si1.big_poten_point)
    then pure true
    else if si2.threat_num == 0 && ltb 0 (length si1.big_poten_step)
    then pure true
    else if si2.threat_num == 0 && ltb 3 (length si1.sma_poten_point)
    then pure true
    else if si2.threat_num == 1 && length si1.big_poten_point == 0
    then block_and_look si1.side si2.side 2 (λ l. ltb 0 (length l.big_poten_point)) si2.threat_point
    else pure false

unfoldable pub need_con_search_for_single_threat : Line → Line → Run Bool
need_con_search_for_single_threat si1 si2 =
    if si2.threat_num == 1 && ltb 0 (length si1.sma_poten_point)
    then pure true
    else if si2.threat_num == 1 && length si1.sma_poten_point == 0
    then block_and_look si1.side si2.side 3 (λ l. ltb 0 (length l.sma_poten_point)) si2.threat_point
    else pure false

abbrev ltv : ℕ → ℕ
ltv = line_type_value

-- What two stones on threat points leave: `Beta` after the innermost part of the first case.
unfoldable pub discount_two : ℤ → ℕ → Line → Line → ℤ
discount_two beta large si_com si_per =
    let value1 = (ltv 11 - ltv 8) / 2 in
    let value4 = (ltv 9 + ltv 10 + ltv 12) / 3 - (ltv 6 + ltv 7) / 2 in
    if si_com.threat_num == 0
    then if ltb 2 si_per.threat_num
      then pos large -ℤ pos threat
      else if si_per.threat_num == 2
      then beta -ℤ pos ((value1 + value4) / 2 * 2 / 10)
      else if si_per.threat_num == 1
      then beta -ℤ pos (value4 / 2 * 2 / 10)
      else beta
    else beta

-- The second stone of the first case of `Discount` …
unfoldable pub discount_second : ℕ → ℕ → ℕ → ℤ → List Point → Run ℤ
discount_second side1 side2 large beta [] = pure beta
discount_second side1 side2 large beta (q ∷ qs) = do
  lines ← trial q side2 side1 7 side2 7 new_lines (both_sides side1 7 side2 7)
  discount_second side1 side2 large (discount_two beta large lines.0 lines.1) qs

-- … and the first.
unfoldable pub discount_first : ℕ → ℕ → ℕ → ℤ → List Point → Run ℤ
discount_first side1 side2 large beta [] = pure beta
discount_first side1 side2 large beta (p ∷ ps) = do
  beta' ← trial p side2 side1 7 side2 7 new_lines (discount_second side1 side2 large beta ps)
  discount_first side1 side2 large beta' ps

-- The second case: one stone.
unfoldable pub one_stone : ℤ → Line → Line → ℤ
one_stone beta si_com si_per =
    if si_com.threat_num == 0 && ltb 0 (length si_per.big_poten_point)
    then beta -ℤ pos ((ltv 11 - ltv 8) / 2 * 2 / 10)
    else beta

unfoldable pub discount_one : ℕ → ℕ → ℤ → List Point → Run ℤ
discount_one side1 side2 beta [] = pure beta
discount_one side1 side2 beta (p ∷ ps) = do
  lines ← trial p side2 side1 2 side2 2 new_lines (both_sides side1 2 side2 2)
  discount_one side1 side2 (one_stone beta lines.0 lines.1) ps

-- The third case: no stone.
unfoldable pub discount_none : Line → ℤ → ℤ
discount_none si2 beta =
    let one =
      if ltb 0 (length si2.big_poten_point)
      then beta -ℤ pos ((ltv 11 - ltv 8) * 4 / 10)
      else beta in
    let two =
      if ltb 0 (length si2.big_poten_step)
      then one -ℤ pos (((ltv 11 - ltv 5) / 2 + (ltv 13 - ltv 7) / 2) / 2 * 2 / 10)
      else one in
    if ltb 3 (length si2.sma_poten_point)
    then two -ℤ pos (((ltv 9 + ltv 10 + ltv 12) / 3 - (ltv 6 + ltv 7) / 2) * 2 / 10)
    else two

unfoldable pub discount : Line → Line → ℤ → Run ℤ
discount si1 si2 beta =
    if si1.threat_num == 2
    then (do
      large ← gets (λ g. g.large_depth g.computer_color)
      discount_first si1.side si2.side large beta si1.threat_point)
    else if si1.threat_num == 1
    then discount_one si1.side si2.side beta si1.threat_point
    else if si1.threat_num == 0
    then pure (discount_none si2 beta)
    else pure beta
