-- ===== src/Consix/Handler/Tests.antt =====
-- Requests and answers of the engine, and each theorem on them at a concrete input.
use chess_set.Base.{
  ℕ, List, Bool, ◌≡◌, refl, true, false, [], ◌∷◌, if◌then◌else◌, ◌==◌, ◌&&◌, arith, none,
}
use chess_set.Base.Int.{ℤ, pos, negsuc, ◌-ℤ◌, ◌==ℤ◌}
use chess_set.Common.Util.{Bytes, found, get_val_by_key}
use chess_set.Common.Format.{
  codes, sscanf, scan_int, scan_nat, scan_digits, print_int, print_nat, to_short,
}
use chess_set.Consix.State.{Step, Search, HashHistory, at, pair, no_line, black, white, empty}
use chess_set.Consix.Move.{put_stone, update_board}
use chess_set.Consix.Handler.{step_text, ended, read_step, start_game, end_turn}
use chess_set.Consix.Handler.Replies.{squares, read_step-step_text}

abbrev no_history : HashHistory
no_history = record { pruning = false; checksum = 0; move_list = [] }

abbrev game : Search
game = record {
  point_id = 0;
  step_id = 2;
  game_start = true;
  will_win = false;
  com_to_com = false;
  computer_color = white;
  board = λ x y. if x ==ℤ pos 9 && y ==ℤ pos 9 then black else empty;
  pre_table = λ i. if i == 0 then 1 else 3;
  player = black;
  max_depth = λ s. 4;
  large_depth = λ s. 11;
  max_depth_back_up = 1;
  large_depth_back_up = 11;
  line_info = λ s i. no_line;
  point_history = [];
  step_history = [];
  hash_key64 = 12;
  hash_board = λ s x y. 7;
  hash_table = λ d. [];
  temp_hash_table = λ d. [];
  hash_list = no_history;
}

abbrev asked : List (Bytes × Bool)
asked = (codes "type:consix;mode:2", true) ∷ (codes "type:chess;mode:1", true) ∷ []

abbrev centre : Step
centre =
    pair (record (at (pos 9) (pos 9)) { side = black })
      (record (at (negsuc 0) (negsuc 0)) { side = black })

abbrev keys : ℕ → ℤ → ℤ → ℕ
keys s x y = 7

-- The game that the computer starts, with its first stone.
abbrev started : Search
started = end_turn (
    update_board (put_stone (start_game none keys 12 (pos 2) game) centre.first black) centre black)

replies : List Bytes
replies = ended (step_text centre) ∷ ended (codes "error:1;detail:type incorrect!") ∷ []

abbrev move : Step
move = pair (record (at (pos 9) (pos 10)) { side = 1 }) (record (at (pos 3) (pos 18)) { side = 1 })

read_step-step_text_example :
    (text : Bytes) × (get_val_by_key (step_text move) (codes "step") ≡ found text)
    × (read_step text ≡ squares move)
unfolding to_short
read_step-step_text_example = read_step-step_text move (record {
  side_fits = omega arith;
  x1_fits = refl;
  y1_fits = refl;
  x2_fits = refl;
  y2_fits = refl;
})

-- The first step of the computer, as it is sent.
first_step :
    step_text (pair (at (pos 9) (pos 9)) (at (negsuc 0) (negsuc 0)))
    ≡ codes "cmd:move;step:0,9,9,-1,-1"
unfolding step_text print_int print_nat
first_step = refl

signed_numbers : sscanf 5 (codes "1, -12,+3,x") ≡ pos 1 ∷ negsuc 11 ∷ pos 3 ∷ []
unfolding sscanf scan_int scan_nat scan_digits ◌-ℤ◌
signed_numbers = refl
