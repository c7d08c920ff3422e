-- ===== src/Consix/Search/Root.antt =====
-- search.cpp, `ComputerMove`: the step of the computer. There is none where the source takes the first
-- element of an empty list of steps.
use chess_set.Base.{
  ℕ, ◌+◌, ◌%◌, true, false, ◌&&◌, not, List, [], ◌∷◌, Option, none, some, if◌then◌else◌, ltb, leb,
  ◌==◌, map,
}
use chess_set.Base.Int.{ℤ, pos, ◌+ℤ◌, ◌-ℤ◌, ltb_ℤ}
use chess_set.Consix.State.{Step, Line, Lines, next, empty, threat, winlose}
use chess_set.Consix.Candidates.{sort, com_line_value, look_for_best_step}
use chess_set.Consix.Run.{Run, ◌>>=◌, ◌>>◌, pure, gets, new_lines}
use chess_set.Consix.Threats.{get_all_line_infor, construct_win_step}
use chess_set.Consix.History.{release_hash_table, con_strange_step}
use chess_set.Consix.Search.{minus, try_step, move_list, max_search}

-- `field[side] = value` for an array of two bytes.
abbrev pub set_byte : (ℕ → ℕ) → ℕ → ℕ → ℕ → ℕ
set_byte bytes side value s = if side == s then value else bytes s

unfoldable pub set_large_depth : ℕ → Run (Unit {0})
set_large_depth value g =
    (tt, record g { large_depth = set_byte g.large_depth g.computer_color value })

-- `-= 2` on a byte.
abbrev pub less_two : ℕ → ℕ
less_two n = (n + 254) % 256

-- What `ComputerMove` does when a win is found: it will search less deep from then on.
unfoldable pub found_win : Run (Unit {0})
found_win g =
    let c = g.computer_color in
    let shallow =
      if leb (g.large_depth c) (g.max_depth c)
      then set_byte g.max_depth c (less_two (g.max_depth c))
      else g.max_depth in
    (
      tt,
      record g {
        large_depth = set_byte g.large_depth c (less_two (g.large_depth c));
        max_depth = shallow;
        will_win = true;
      },
    )

abbrev pub no_value : Step → Step
no_value step = record step { l_value = pos 0 }

-- The loop over the steps; each gets its value, and 0 from a win on.
unfoldable pub root_loop : ℕ → ℕ → Lines → ℤ → ℤ → List Step → Run (List Step)
root_loop fuel color line_temp alpha beta [] = pure []
root_loop fuel color line_temp alpha beta (step ∷ ms) = do
  value ← try_step step color line_temp (max_search fuel alpha beta 1)
  large ← gets (λ g. g.large_depth g.computer_color)
  let alpha' : ℤ = if ltb_ℤ alpha value then value else alpha
  if not (ltb_ℤ alpha' (pos threat -ℤ pos large +ℤ pos 1))
      then (do found_win; pure (record step { l_value = value } ∷ map no_value ms))
      else (do
        rest ← root_loop fuel color line_temp alpha' beta ms
        pure (record step { l_value = value } ∷ rest))

-- After the loop: the depths are set back unless a win was found.
unfoldable pub reset_depths : Run (Unit {0})
reset_depths g =
    let c = g.computer_color in
    (
      tt,
      (if g.will_win then g else record g {
        max_depth = set_byte g.max_depth c g.max_depth_back_up;
        large_depth = set_byte g.large_depth c g.large_depth_back_up;
      }),
    )

-- The step that is returned, with the value of a loss written in.
unfoldable pub best_step : List Step → Option Step
best_step ms = elim (look_for_best_step (sort com_line_value ms)) [
  | [] ↦ none
  | s ∷ rest ↦ some (
      if ltb_ℤ (minus (pos threat)) s.l_value
      then s
      else record s { l_value = minus (pos winlose) })
]

-- The search of `ComputerMove`, once no step is at hand without it.
unfoldable pub search_step : ℕ → Line → Line → Run (Option Step)
search_step fuel si_com si_per = do
  color ← gets (λ g. g.computer_color)
  id ← gets (λ g. g.step_id)
  (if id == 2 then set_large_depth 5 else pure tt)
  (λ g. (tt, release_hash_table g))
  ms ← move_list false 0 si_com si_per false false
  tried ← root_loop fuel color new_lines (minus (pos threat)) (pos threat) ms
  reset_depths
  (if id == 2 then set_large_depth 9 else pure tt)
  pure (best_step tried)

unfoldable pub computer_move : ℕ → Run (Option Step)
computer_move fuel = do
  color ← gets (λ g. g.computer_color)
  si_com ← get_all_line_infor color 0
  si_per ← get_all_line_infor (next color) 0
  (λ g. (tt, record g { will_win = false }))
  strange ← gets (λ g. g.step_id == 1 && g.board (pos 9) (pos 9) == empty)
  if strange
      then (do step ← gets (λ g. con_strange_step g.board); pure (some step))
      else (if ltb 0 si_com.threat_num
          then (do step ← construct_win_step si_com.threat_point color; pure (some step))
          else search_step fuel si_com si_per)
