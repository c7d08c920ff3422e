-- ===== src/Consix/Handler.antt =====
-- consix/consix.cpp: `start_game`, `computer_move`, `human_move` and `handle_consix`, which answers one
-- request. A text is its bytes without the terminator; a response has the terminator at its end.
pub mod Replies
pub mod Sides
pub mod Turn
mod Tests
use package.chess_set.Base.{
  ℕ, zero, suc, ◌+◌, ◌-◌, ◌*◌, ◌/◌, ◌%◌, Bool, true, false, ◌&&◌, ◌||◌, not, List, [], ◌∷◌, ◌++◌,
  Option, none, some, if◌then◌else◌, ltb, leb, ◌==◌, get_or,
}
use package.chess_set.Base.Int.{ℤ, pos, negsuc, ◌-ℤ◌, ◌==ℤ◌}
use package.chess_set.Common.Util.{Bytes, Lookup, missing, found, overrun, get_val_by_key}
use package.chess_set.Common.Format.{codes, atoi, sscanf, print_int, to_byte, to_short}
use package.chess_set.Consix.State.{Step, Search, at, pair, black, white, next, put, winlose}
use package.chess_set.Consix.Move.{put_stone, update_board}
use package.chess_set.Consix.Win.{win_or_lose}
use package.chess_set.Consix.Game.{init_game}
use package.chess_set.Consix.Search.Root

-- `strcmp(…) == 0`.
unfoldable pub same_bytes : Bytes → Bytes → Bool
same_bytes [] [] = true
same_bytes [] (d ∷ ds) = false
same_bytes (c ∷ cs) [] = false
same_bytes (c ∷ cs) (d ∷ ds) = c == d && same_bytes cs ds

-- What a request leads to: the response, if one is set, and the game.
pub record Answer : Type 0 where
  pub response : Option Bytes
  pub game : Search

-- `RET_STEP`.
unfoldable pub step_text : Step → Bytes
step_text s =
    codes "cmd:move;step:"
    ++ (print_int (pos s.first.side)
        ++ 44
          ∷ (print_int s.first.x
              ++ 44
                ∷ (print_int s.first.y
                    ++ 44 ∷ (print_int s.second.x ++ 44 ∷ print_int s.second.y))))

abbrev pub ended : Bytes → Bytes
ended text = text ++ 0 ∷ []

unfoldable pub human_move : Search → Step → Search
human_move g step =
    let g1 = put_stone g step.first step.first.side in
    let g2 = put_stone g1 step.second step.second.side in
    let g3 = update_board g2 step step.first.side in
    record g3 { player = next g3.player; step_id = g3.step_id + 1 }

-- The end of `computer_move`: the turn, and the game's end if a side has won.
unfoldable pub end_turn : Search → Search
end_turn g =
    let won = win_or_lose g.board black == winlose || win_or_lose g.board white == winlose in
    record g {
      player = next g.player;
      step_id = g.step_id + 1;
      game_start = if won then false else g.game_start;
    }

-- A step that `ComputerMove` returns, on the board.
unfoldable pub put_step : Search → Step → ℕ → Step × Search
put_step g step side =
    let s = record step {
      first = record step.first { side = side };
      second = record step.second { side = side };
    } in
    (s, update_board (put_stone (put_stone g s.first side) s.second side) s side)

-- The step that the human takes: what `sscanf` does not set stays 0.
unfoldable pub read_step : Bytes → Step
read_step text =
    let field = λ (i : ℕ). get_or (sscanf 5 text) i (pos 0) in
    let side = to_byte (field 0) in
    pair (record (at (to_short (field 1)) (to_short (field 2))) { side = side })
      (record (at (to_short (field 3)) (to_short (field 4))) { side = side })

unfoldable pub answer_step : Option (Step × Search) → Option Answer
answer_step none = none
answer_step (some (s, g)) = some (record { response = some (ended (step_text s)); game = g })

abbrev pub say : Bytes → Search → Option Answer
say text g = some (record { response = some (ended text); game = g })

-- The loop of `handle_client` after `socket_send`: a response that is not taken ends it.
unfoldable pub after_send :
    Bool → Bytes → Search → Option (List Bytes × Search) → Option (List Bytes × Search)
after_send false text g rest = some ([], g)
after_send true text g none = none
after_send true text g (some r) = some (text ∷ r.0, r.1)

-- The table file and the key table are those of `init_game`; `fuel` is that of the search.
module _ (file : Option (ℕ → ℕ)) (keys : ℕ → ℤ → ℤ → ℕ) (fuel : ℕ) where
  unfoldable pub start_game : ℤ → Search → Search
  start_game mode g =
      let g1 = record (init_game file keys g) {
        game_start = true;
        max_depth_back_up = 1;
        large_depth_back_up = 11;
      } in
      let of_color = λ (c : ℕ). record g1 {
        computer_color = c;
        max_depth = Root.set_byte g1.max_depth c g1.max_depth_back_up;
        large_depth = Root.set_byte g1.large_depth c g1.large_depth_back_up;
      } in
      if mode ==ℤ pos 1 then of_color white else if mode ==ℤ pos 2 then of_color black else g1

  -- `none` where `ComputerMove` has no step. For a colour that is neither the source returns a step
  -- that is not set.
  unfoldable pub computer_move : Search → Option (Step × Search)
  computer_move g =
      if g.step_id == 0
      then (let step =
            pair (record (at (pos 9) (pos 9)) { side = black })
              (record (at (negsuc 0) (negsuc 0)) { side = black }) in
          some (step, end_turn (update_board (put_stone g step.first black) step black)))
      else if g.computer_color == black || g.computer_color == white
      then (let (chosen, g') = Root.computer_move fuel g in
          elim chosen [
            | none ↦ none
            | some step ↦
                let (s, made) = put_step g' step g'.computer_color in some (s, end_turn made)
          ])
      else some (pair (at (pos 0) (pos 0)) (at (pos 0) (pos 0)), end_turn g)

  -- The request for a new game.
  unfoldable pub handle_mode : ℤ → Search → Option Answer
  handle_mode mode g =
      if not (mode ==ℤ pos 1) && not (mode ==ℤ pos 2)
      then say (codes "error:2;detail:mode incorrect") g
      else if mode ==ℤ pos 1
      then say (codes "error:0;detail: you first") (start_game mode g)
      else answer_step (computer_move (start_game mode g))

  unfoldable pub handle_step : Bytes → Search → Option Answer
  handle_step text g = answer_step (computer_move (human_move g (read_step text)))

  unfoldable pub handle_keys : Lookup → Lookup → Search → Option Answer
  handle_keys overrun step g = none
  handle_keys (found mode) step g = handle_mode (atoi mode) g
  handle_keys missing overrun g = none
  handle_keys missing (found step) g = handle_step step g
  handle_keys missing missing g = say (codes "error:-1;detail:key incorrect") g

  unfoldable pub handle_type : Lookup → Bytes → Search → Option Answer
  handle_type missing preq g = some (record { response = none; game = g })
  handle_type overrun preq g = none
  handle_type (found type) preq g =
      if same_bytes type (codes "consix")
      then handle_keys (get_val_by_key preq (codes "mode")) (get_val_by_key preq (codes "step")) g
      else say (codes "error:1;detail:type incorrect!") g

  -- `none` where the source reads behind the end of a text, or the first of no steps.
  unfoldable pub handle_consix : Bytes → Search → Option Answer
  handle_consix [] g = some (record { response = none; game = g })
  handle_consix (b ∷ bs) g = handle_type (get_val_by_key (b ∷ bs) (codes "type")) (b ∷ bs) g

  -- main.cpp, `handle_client` on one connection: the requests as `socket_recv` gives them until it fails,
  -- and for each response whether `socket_send` takes it. A request that sets no response ends the loop,
  -- since `socket_send` of no buffer fails. Returns the responses sent and the game, and `none` with
  -- `handle_consix`.
  unfoldable pub handle_client : List (Bytes × Bool) → Search → Option (List Bytes × Search)
  handle_client [] g = some ([], g)
  handle_client ((preq, sent) ∷ more) g = elim (handle_consix preq g) [
    | none ↦ none
    | some a ↦ elim a.response [
      | none ↦ some ([], a.game)
      | some text ↦ after_send sent text a.game (handle_client more a.game)
    ]
  ]
