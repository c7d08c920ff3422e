-- ===== src/Consix/Threats.antt =====
-- search.cpp, the threats of a side: `GetAllLineInfor` adds up the table of lines, `EnsureThreatNum`
-- counts by trial how many stones meet the threats, and `ConstructWinStep` looks for a step that wins.
pub mod Attack
pub mod Others
pub mod Defence
pub mod Restored
use package.chess_set.Base.{
  ℕ, zero, suc, ◌+◌, Bool, true, false, ◌&&◌, ◌||◌, List, [], ◌∷◌, ◌++◌, map, Option, none, some,
  if◌then◌else◌, ltb, ◌==◌,
}
use package.chess_set.Base.Int.{ℤ, pos, negsuc}
use package.chess_set.Consix.State.{
  Angle, angle0, angle45, angle90, angle135, Point, Step, Line, Lines, Board, Search, at, pair,
  next, empty, winlose, no_line,
}
use package.chess_set.Consix.Lines.{pos_of}
use package.chess_set.Consix.Scan.Segment.{analyze_line_seg_id}
use package.chess_set.Consix.Candidates.{unique_point}
use package.chess_set.Consix.Run.{Run, ◌>>=◌, ◌>>◌, pure, gets, place, with_stone, with_stones}

-- `for (k = 0; k < 4; k++) if (test(k)) …`: whether some round's test holds.
abbrev pub any_dir : (Angle → Bool) → Bool
any_dir test = test angle0 || test angle45 || test angle90 || test angle135

-- `AnalyzeLineSegID(p, k, side) == 15`.
abbrev pub makes_six : (ℕ → ℕ) → Board → ℕ → Point → Angle → Bool
makes_six pre_table board side p k = analyze_line_seg_id pre_table board side k (pos_of p) == 15

abbrev pub one_six : ℕ → Point → Search → Bool
one_six side p g = any_dir (makes_six g.pre_table g.board side p)

abbrev pub two_six : ℕ → Point → Point → Search → Bool
two_six side p q g =
    any_dir (λ k. makes_six g.pre_table g.board side p k || makes_six g.pre_table g.board side q k)

-- A loop over the points of a list with their indices, from `x` on: some are skipped, and the flag
-- that a round returns ends the loop when it is set.
unfoldable pub each_until :
    (ℕ → Bool) → List Point → ℕ → (ℕ → Point → List Point → Bool → Run Bool) → Bool → Run Bool
each_until skip [] x body lost = pure lost
each_until skip (p ∷ ps) x body lost =
    let rest = each_until skip ps (suc x) body in
    if skip x
    then rest lost
    else do lost' ← body x p ps lost; if lost' then pure true else rest lost'

-- The loop in which one of the points gets a stone …
unfoldable pub attack_one : ℕ → ℕ → Point → List Point → Bool → Run Bool
attack_one side x p ps lost = with_stone p side (do six ← gets (one_six side p); pure (lost || six))

-- … and the one in which two get a stone.
unfoldable pub attack_two : (ℕ → Bool) → ℕ → ℕ → Point → List Point → Bool → Run Bool
attack_two skip side x p ps lost = with_stone p side (
    each_until skip ps (suc x)
      (λ y q qs lost'. with_stone q side (do six ← gets (two_six side p q); pure (lost' || six)))
      lost)

-- Whether `AnalyzeLineSegID` is 15 with one or two stones on the points that are not skipped: the two
-- loops that end with `Defend == false`.
unfoldable pub attack : (ℕ → Bool) → List Point → ℕ → Run Bool
attack skip all side = do
  lost ← each_until skip all 0 (attack_one side) false
  each_until skip all 0 (attack_two skip side) lost

-- Whether one stone of the other side on a point of the list meets the attack.
unfoldable pub one_defends : List Point → ℕ → List Point → ℕ → Run Bool
one_defends all side [] i = pure false
one_defends all side (p ∷ ps) i = do
  lost ← with_stone p (next side) (attack (λ x. x == i) all side)
  if lost then one_defends all side ps (suc i) else pure true

-- Whether a second stone does, beside the one at index `i`.
unfoldable pub second_defends : List Point → ℕ → ℕ → List Point → ℕ → Run Bool
second_defends all side i [] j = pure false
second_defends all side i (q ∷ qs) j = do
  lost ← with_stone q (next side) (attack (λ x. x == i || x == j) all side)
  if lost then second_defends all side i qs (suc j) else pure true

unfoldable pub two_defend : List Point → ℕ → List Point → ℕ → Run Bool
two_defend all side [] i = pure false
two_defend all side (p ∷ ps) i = do
  found ← with_stone p (next side) (second_defends all side i ps (suc i))
  if found then pure true else two_defend all side ps (suc i)

-- `for (iter …) if (test(*iter)) flag = true;`
unfoldable pub any_id : (ℕ → Bool) → List ℕ → Bool
any_id test [] = false
any_id test (i ∷ ids) = test i || any_id test ids

-- The threats lie in at least two of the four directions, by the ids of their lines.
unfoldable pub two_directions : List ℕ → Bool
two_directions ids =
    let angle0 = any_id (λ i. ltb i 19) ids in
    let angle90 = any_id (λ i. ltb 18 i && ltb i 38) ids in
    let angle45 = any_id (λ i. ltb 37 i && ltb i 65) ids in
    let angle135 = any_id (λ i. ltb 64 i) ids in
    (angle0 && angle45)
    || (angle0 && angle90)
    || (angle0 && angle135)
    || (angle45 && angle90)
    || (angle45 && angle135)
    || (angle90 && angle135)

unfoldable pub ensure_threat_num : Line → List ℕ → Run Line
ensure_threat_num line threat =
    let si = record line { threat_point = unique_point line.threat_point } in
    if ltb si.threat_num 2
    then pure si
    else if two_directions threat
    then (do
      one ← one_defends si.threat_point si.side si.threat_point 0
      if one then pure (record si { threat_num = 1 }) else (do
        two ← two_defend si.threat_point si.side si.threat_point 0
        pure (if two then record si { threat_num = 2 } else si)))
    else pure si

-- The `switch (which)`: 0 copies all vectors, and any other number the one vector of that case.
abbrev pub wants : ℕ → ℕ → Bool
wants which field = which == 0 || which == field

unfoldable pub add_line : ℕ → Line → Line → Line
add_line which line sum = record sum {
  value = sum.value + line.value;
  threat_num = sum.threat_num + line.threat_num;
  threat_point = if wants which 1 then sum.threat_point ++ line.threat_point else sum.threat_point;
  big_poten_point =
      if wants which 2 then sum.big_poten_point ++ line.big_poten_point else sum.big_poten_point;
  sma_poten_point =
      if wants which 3 then sum.sma_poten_point ++ line.sma_poten_point else sum.sma_poten_point;
  big_poten_step =
      if wants which 4 then sum.big_poten_step ++ line.big_poten_step else sum.big_poten_step;
  sma_poten_step =
      if wants which 5 then sum.sma_poten_step ++ line.sma_poten_step else sum.sma_poten_step;
  com_point = if wants which 6 then sum.com_point ++ line.com_point else sum.com_point;
}

-- `for (i = 0; i < 92; i++)`: the sum of the lines, and for each threat point the id of its line.
unfoldable pub add_lines : Lines → ℕ → ℕ → ℕ → ℕ → Line → List ℕ → Line × List ℕ
add_lines lines side which zero i sum threat = (sum, threat)
add_lines lines side which (suc count) i sum threat =
    let line = lines side (pos i) in
    add_lines lines side which count (suc i) (add_line which line sum)
      (if wants which 1 then threat ++ map (λ p. i) line.threat_point else threat)

unfoldable pub unique_points : ℕ → Line → Line
unique_points which line = record line {
  big_poten_point =
      if wants which 2 then unique_point line.big_poten_point else line.big_poten_point;
  sma_poten_point =
      if wants which 3 then unique_point line.sma_poten_point else line.sma_poten_point;
  com_point = if wants which 6 then unique_point line.com_point else line.com_point;
}

unfoldable pub get_all_line_infor : ℕ → ℕ → Run Line
get_all_line_infor side which = do
  lines ← gets (λ g. g.line_info)
  let summed = add_lines lines side which 92 0 (record no_line { side = side }) []
  sure ← ensure_threat_num summed.0 summed.1
  pure (unique_points which sure)

-- One round of `ConstructWinStep`: the two stones are taken away only when they win.
unfoldable pub win_pair : ℕ → Point → Point → Run (Option Step)
win_pair side p q = do
  place p side
  place q side
  six ← gets (two_six side p q)
  if six
      then (do
        place p empty
        place q empty
        pure (some (record (pair p q) { l_value = pos winlose })))
      else pure none

unfoldable pub win_with : ℕ → Point → List Point → Run (Option Step)
win_with side p [] = pure none
win_with side p (q ∷ qs) = do
  found ← win_pair side p q
  elim found [ some step ↦ pure (some step) | none ↦ win_with side p qs ]

unfoldable pub construct_win_step : List Point → ℕ → Run Step
construct_win_step [] side = pure (pair (at (negsuc 0) (pos 0)) (at (pos 0) (pos 0)))
construct_win_step (p ∷ ps) side = do
  found ← win_with side p ps
  elim found [ some step ↦ pure step | none ↦ construct_win_step ps side ]
