-- ===== src/Consix/Search.antt =====
-- search.cpp, the search of the game tree: `MaxSearch`, `MinSearch` and `ComputerMove`. The fuel
-- counts the levels that are left; `Search.Fuel` shows that it may be any number that is large enough.
pub mod Keeps
pub mod Agree
pub mod Fuel
pub mod Root
pub mod Position
pub mod Turn
mod Tests
use package.chess_set.Base.{
  ℕ, zero, suc, ◌+◌, ◌-◌, ◌*◌, ◌/◌, ◌%◌, Bool, true, false, ◌&&◌, ◌||◌, not, List, [], ◌∷◌, ◌++◌,
  if◌then◌else◌, ltb, leb, ◌==◌, length, map,
}
use package.chess_set.Base.Int.{ℤ, pos, ◌+ℤ◌, ◌-ℤ◌, ltb_ℤ, ◌==ℤ◌}
use package.chess_set.Consix.State.{
  Step, Line, Lines, Search, HashHistory, next, empty, threat, winlose,
}
use package.chess_set.Consix.Move.{make_move, back_move}
use package.chess_set.Consix.Candidates.{
  sort, com_s_l_value, com_line_value, look_for_best_step, resize, zero_step,
}
use package.chess_set.Consix.Run.{Run, ◌>>=◌, ◌>>◌, pure, gets, new_lines}
use package.chess_set.Consix.Threats.{get_all_line_infor, construct_win_step}
use package.chess_set.Consix.Defend.{defend_for_multi_threat, defend_for_single_threat}
use package.chess_set.Consix.Build.{construct_step_for_no_threat}
use package.chess_set.Consix.Judge.{
  need_con_search_for_double_threat, need_con_search_for_single_threat, discount,
}
use package.chess_set.Consix.History.{
  look_up_hash_table, release_hash_table, remember, con_strange_step,
}

abbrev pub minus : ℤ → ℤ
minus a = pos 0 -ℤ a

-- `THREAT - Depth + 1`.
abbrev pub win_value : ℕ → ℤ
win_value depth = pos threat -ℤ pos depth +ℤ pos 1

-- A step is made, the search goes on, and the step is taken back.
unfoldable pub try_step : Step → ℕ → Lines → Run ℤ → Run ℤ
try_step step side line_temp rest g =
    let (made, kept) = make_move g step side line_temp in
    let (value, g') = rest made in (value, back_move g' step side kept)

-- What the loop over the steps has at its end.
pub record Tried : Type 0 where
  pub pruning : Bool
  pub best_value : ℤ
  pub values : List ℤ
  pub steps : List Step

-- A tried step with its `LValue`, before those that the loop has still to try.
unfoldable pub tried_before : Step → ℤ → Tried → Tried
tried_before step value t = record t {
  values = value ∷ t.values;
  steps = record step { l_value = value } ∷ t.steps;
}

module _ (side large : ℕ) (line_temp : Lines) where
  -- The loop of `MaxSearch`: `Beta` falls, and `Alpha` stays.
  unfoldable pub max_loop : (ℤ → ℤ → Run ℤ) → ℤ → ℤ → ℤ → List Step → Run Tried
  max_loop deeper alpha beta best [] =
      pure (record { pruning = false; best_value = best; values = []; steps = [] })
  max_loop deeper alpha beta best (step ∷ ms) = do
    value ← try_step step side line_temp (deeper alpha beta)
    let beta' : ℤ = if ltb_ℤ value beta then value else beta
    let best' : ℤ = if ltb_ℤ value best then value else best
    if ltb_ℤ value alpha || not (ltb_ℤ (minus (pos threat -ℤ pos large +ℤ pos 1)) beta')
        then pure (
            tried_before step value
              (record { pruning = true; best_value = best'; values = []; steps = ms }))
        else (do t ← max_loop deeper alpha beta' best' ms; pure (tried_before step value t))

  -- The loop of `MinSearch`: `Alpha` rises, and `Beta` stays.
  unfoldable pub min_loop : (ℤ → ℤ → Run ℤ) → ℤ → ℤ → ℤ → List Step → Run Tried
  min_loop deeper alpha beta best [] =
      pure (record { pruning = false; best_value = best; values = []; steps = [] })
  min_loop deeper alpha beta best (step ∷ ms) = do
    value ← try_step step side line_temp (deeper alpha beta)
    let alpha' : ℤ = if ltb_ℤ alpha value then value else alpha
    let best' : ℤ = if ltb_ℤ best value then value else best
    if ltb_ℤ beta value || not (ltb_ℤ alpha' (pos threat -ℤ pos large +ℤ pos 1))
        then pure (
            tried_before step value
              (record { pruning = true; best_value = best'; values = []; steps = ms }))
        else (do t ← min_loop deeper alpha' beta best' ms; pure (tried_before step value t))

-- `iter->SValue = SValue[i]`.
unfoldable pub set_values : List Step → List ℤ → List Step
set_values [] vs = []
set_values (s ∷ ms) [] = s ∷ ms
set_values (s ∷ ms) (v ∷ vs) = record s { s_value = v } ∷ set_values ms vs

unfoldable pub new_steps : Tried → List Step
new_steps t = if t.pruning then t.steps else set_values t.steps t.values

-- `MoveList.resize(MoveList.size() * 0.8)` for a list of more than 15.
unfoldable pub shorten : List Step → List Step
shorten ms = if ltb 15 (length ms) then resize zero_step (length ms * 4 / 5) ms else ms

-- The steps to try: those of the table, or new ones. `si_own` is the side to move.
unfoldable pub new_list : Line → Line → Bool → Bool → Run (List Step)
new_list si_own si_other con_search1 con_search2 =
    if leb 2 si_other.threat_num
    then defend_for_multi_threat si_other
    else if si_other.threat_num == 1
    then defend_for_single_threat si_own si_other con_search1 con_search2
    else construct_step_for_no_threat si_own si_other con_search1

-- `Looked == true ? HashList.MoveList : …`, shortened where the search that left it was not pruned;
-- `MaxSearch` sorts it before that.
unfoldable pub move_list : Bool → ℕ → Line → Line → Bool → Bool → Run (List Step)
move_list sorted depth si_own si_other con_search1 con_search2 = do
  looked ← look_up_hash_table depth
  seen ← gets (λ g. g.hash_list)
  if looked
      then pure (
          if seen.pruning
          then seen.move_list
          else shorten (if sorted then sort com_s_l_value seen.move_list else seen.move_list))
      else new_list si_own si_other con_search1 con_search2

-- `ConSearch1` and `ConSearch2` after the test of the depth, and first whether to go on; `shallow` is
-- `Depth < LargeDepth[ComputerColor]`.
unfoldable pub con_flags : Bool → Bool → Bool → Bool × Bool × Bool
con_flags one two shallow =
    if one && shallow
    then (true, one, false)
    else if two && shallow
    then (true, one, two)
    else (false, one, two)

-- At `MaxDepth` or deeper: whether to go on, and with which of the two flags.
unfoldable pub con_search : ℕ → Line → Line → Run (Bool × Bool × Bool)
con_search depth si_own si_other = do
  one ← need_con_search_for_double_threat si_own si_other
  two ← need_con_search_for_single_threat si_own si_other
  large ← gets (λ g. g.large_depth g.computer_color)
  pure (con_flags one two (ltb depth large))

-- The rest of `MaxSearch`, once it is known to go on: `deeper` is the call of `MinSearch`.
unfoldable pub max_expand : (ℤ → ℤ → Run ℤ) → ℤ → ℤ → ℕ → Line → Line → Bool → Bool → Run ℤ
max_expand deeper alpha beta depth si_com si_per one two = do
  color ← gets (λ g. g.computer_color)
  large ← gets (λ g. g.large_depth g.computer_color)
  ms ← move_list true depth si_per si_com one two
  t ← max_loop (next color) large new_lines deeper alpha beta (pos threat) ms
  remember depth t.pruning (new_steps t)
  pure t.best_value

unfoldable pub min_expand : (ℤ → ℤ → Run ℤ) → ℤ → ℤ → ℕ → Line → Line → Bool → Bool → Run ℤ
min_expand deeper alpha beta depth si_com si_per one two = do
  color ← gets (λ g. g.computer_color)
  large ← gets (λ g. g.large_depth g.computer_color)
  ms ← move_list false depth si_com si_per one two
  t ← min_loop color large new_lines deeper alpha beta (minus (pos threat)) ms
  remember depth t.pruning (new_steps t)
  pure t.best_value

-- The value of a leaf of `MaxSearch`, which is discounted at `LargeDepth`.
unfoldable pub max_leaf : ℕ → Line → Line → Run ℤ
max_leaf depth si_com si_per = do
  large ← gets (λ g. g.large_depth g.computer_color)
  if depth == large
      then discount si_com si_per (pos si_com.value -ℤ pos si_per.value)
      else pure (pos si_com.value -ℤ pos si_per.value)

unfoldable pub max_level : (ℤ → ℤ → Run ℤ) → ℤ → ℤ → ℕ → Run ℤ
max_level deeper alpha beta depth = do
  color ← gets (λ g. g.computer_color)
  si_com ← get_all_line_infor color 0
  si_per ← get_all_line_infor (next color) 0
  maximal ← gets (λ g. g.max_depth g.computer_color)
  if ltb 0 si_per.threat_num
      then pure (minus (win_value depth))
      else (if ltb 2 si_com.threat_num
          then pure (win_value depth)
          else (if leb maximal depth
              then (do
                go ← con_search depth si_per si_com
                if go.0
                    then max_expand deeper alpha beta depth si_com si_per go.1 go.2
                    else max_leaf depth si_com si_per)
              else max_expand deeper alpha beta depth si_com si_per false false))

unfoldable pub min_level : (ℤ → ℤ → Run ℤ) → ℤ → ℤ → ℕ → Run ℤ
min_level deeper alpha beta depth = do
  color ← gets (λ g. g.computer_color)
  si_com ← get_all_line_infor color 0
  si_per ← get_all_line_infor (next color) 0
  maximal ← gets (λ g. g.max_depth g.computer_color)
  if ltb 0 si_com.threat_num
      then pure (win_value depth)
      else (if ltb 2 si_per.threat_num
          then pure (minus (win_value depth))
          else (if leb maximal depth
              then (do
                go ← con_search depth si_com si_per
                if go.0
                    then min_expand deeper alpha beta depth si_com si_per go.1 go.2
                    else pure (pos si_com.value -ℤ pos si_per.value))
              else min_expand deeper alpha beta depth si_com si_per false false))

unfoldable mutual
  pub max_search : ℕ → ℤ → ℤ → ℕ → Run ℤ
  max_search zero alpha beta depth = pure (pos 0)
  max_search (suc fuel) alpha beta depth =
      max_level (λ a b. min_search fuel a b (suc depth)) alpha beta depth

  pub min_search : ℕ → ℤ → ℤ → ℕ → Run ℤ
  min_search zero alpha beta depth = pure (pos 0)
  min_search (suc fuel) alpha beta depth =
      min_level (λ a b. max_search fuel a b (suc depth)) alpha beta depth
