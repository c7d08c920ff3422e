-- ===== src/Consix/Tests.antt =====
-- Runs of the engine's functions on small positions, and each theorem at a concrete input.
use chess_set.Base.{some, ℕ, ◌+◌, ◌≡◌, refl, true, false, [], ◌⊎◌, if◌then◌else◌, ◌==◌, ◌&&◌, arith}
use chess_set.Base.Int.{pos, ◌==ℤ◌, ltb_ℤ, ◌+ℤ◌, ◌-ℤ◌, int_laws}
use chess_set.Consix.State.{
  angle0, angle45, angle90, angle135, Step, Board, Search, HashHistory, at, pair, no_line, put,
  black, white, empty, winlose,
}
use chess_set.Consix.Coord.{
  line_id, Pos, along, has_line, get_start_point, back_to_edge45, back_to_edge135, hash_image,
}
use chess_set.Consix.Coord.Edge.{back_to_edge-get_start_point}
use chess_set.Consix.Coord.Geometry.{OnBoard, key, line_id-same_line}
use chess_set.Consix.Coord.Image.{undo_image, hash_image_inverse}
use chess_set.Consix.Scan.Fuel.{scan_loop-scan_fuel}
use chess_set.Consix.Scan.Value.{cal_single_line_value-analyze_line}
use chess_set.Consix.Scan.{scan_loop, scan_fuel, scan_start, analyze_line}
use chess_set.Consix.Scan.Segment.{cal_single_line_value}
use chess_set.Consix.Scan.Local.{Agree, analyze_line_local}
use chess_set.Consix.Move.{make_move, back_move}
use chess_set.Consix.Move.Restore.{back_move-make_move}
use chess_set.Consix.Move.Key.{position_key, HasKey, two_stones, make_move-HasKey}
use chess_set.Consix.Move.Current.{Current, make_move-Current}
use chess_set.Consix.Lines.{pos_of}
use chess_set.Consix.Game.{init_game}
use chess_set.Consix.Game.Quiet.{Quiet}
use chess_set.Consix.Game.Start.{init_game-Current}
use chess_set.Consix.Win.{any_up, any_down, six, win_or_lose}
use chess_set.Consix.Win.Six.{SixInRow, win_or_lose_lem}

abbrev no_history : HashHistory
no_history = record { pruning = false; checksum = 0; move_list = [] }

-- A game that has just begun, with a table that knows no threats.
abbrev new_game : Search
new_game = record {
  point_id = 0;
  step_id = 0;
  game_start = true;
  will_win = false;
  com_to_com = false;
  computer_color = white;
  board = λ x y. empty;
  pre_table = λ i. if i == 0 then 1 else 3;
  player = black;
  max_depth = λ s. 1;
  large_depth = λ s. 11;
  max_depth_back_up = 1;
  large_depth_back_up = 11;
  line_info = λ s i. no_line;
  point_history = [];
  step_history = [];
  hash_key64 = 0;
  hash_board = λ s x y. 7;
  hash_table = λ d. [];
  temp_hash_table = λ d. [];
  hash_list = no_history;
}

abbrev opening : Step
opening = pair (at (pos 9) (pos 9)) (at (pos 10) (pos 8))

back_move-make_move_example :
    let (made, kept) = make_move new_game opening white (λ s i. no_line) in
    back_move made opening white kept ≡ new_game
back_move-make_move_example = back_move-make_move new_game opening white (λ s i. no_line) refl refl

abbrev square_at : ℕ → ℕ → Pos
square_at i j = record { x = pos i; y = pos j }

centre-OnBoard : OnBoard (square_at 9 9)
centre-OnBoard = omega int_laws

corner-OnBoard : OnBoard (square_at 3 7)
corner-OnBoard = omega int_laws

-- Six black stones in column 4.
abbrev column : Board
column i j = if i ==ℤ pos 4 && ltb_ℤ (pos 7) j && ltb_ℤ j (pos 14) then black else empty

column_wins : win_or_lose column black ≡ winlose
unfolding win_or_lose any_up any_down six along ◌+ℤ◌
column_wins = refl

win_or_lose_lem_example :
    (win_or_lose column black ≡ winlose) × SixInRow column black
    ⊎ (win_or_lose column black ≡ 0) × (¬ SixInRow column black)
win_or_lose_lem_example = win_or_lose_lem column black

-- A stone off the row changes nothing in the row.
row_agrees :
    Agree angle0
      (key angle0 (square_at 0 8))
      (λ i j. empty)
      (put (λ i j. empty) (pos 2) (pos 5) white)
unfolding key
row_agrees q o e = let off : (pos 5 ==ℤ q.y) ≡ false = rw e refl in rw off (ground arith)

analyze_line_local_example :
    analyze_line new_game.pre_table (λ i j. empty) black angle0 0 (square_at 0 8)
    ≡ analyze_line new_game.pre_table
        (put (λ i j. empty) (pos 2) (pos 5) white)
        black
        angle0
        0
        (square_at 0 8)
analyze_line_local_example =
    analyze_line_local new_game.pre_table black angle0 0 (λ i j. empty)
      (put (λ i j. empty) (pos 2) (pos 5) white) (square_at 0 8) (omega int_laws) row_agrees

back_to_edge-get_start_point_example :
    (back_to_edge45 20 (square_at 9 9) ≡ get_start_point (square_at 9 9) angle45)
    × (back_to_edge135 20 (square_at 9 9) ≡ get_start_point (square_at 9 9) angle135)
back_to_edge-get_start_point_example = back_to_edge-get_start_point (square_at 9 9) centre-OnBoard

centre_has_line : has_line angle45 (square_at 9 9) ≡ true
unfolding has_line ◌+ℤ◌
centre_has_line = refl

next_has_line : has_line angle45 (square_at 8 10) ≡ true
unfolding has_line ◌+ℤ◌
next_has_line = refl

next_id : line_id angle45 (square_at 9 9) ≡ line_id angle45 (square_at 8 10)
unfolding line_id ◌+ℤ◌ ◌-ℤ◌
next_id = refl

line_id-same_line_example :
    (angle45 ≡ angle45)
    × (get_start_point (square_at 9 9) angle45 ≡ get_start_point (square_at 8 10) angle45)
line_id-same_line_example =
    line_id-same_line angle45 angle45 (square_at 9 9) (square_at 8 10) centre-OnBoard
      (omega int_laws) centre_has_line next_has_line next_id

hash_image_inverse_example :
    OnBoard (hash_image 5 (square_at 3 7))
    × (hash_image (undo_image 5) (hash_image 5 (square_at 3 7)) ≡ square_at 3 7)
hash_image_inverse_example = hash_image_inverse 5 (square_at 3 7) (omega arith) corner-OnBoard

-- Each stone in column 9 has another key than the others.
abbrev keyed_game : Search
keyed_game = record new_game { hash_board = λ s x y. if x ==ℤ pos 9 then 5 + s else 12 }

make_move-HasKey_example : HasKey (make_move keyed_game opening white (λ s i. no_line)).0
unfolding position_key
make_move-HasKey_example =
    make_move-HasKey keyed_game opening white (λ s i. no_line) refl refl (omega int_laws) refl
      (two_stones (omega int_laws) refl refl)

-- A table of shapes that knows one stone only.
abbrev small_table : ℕ → ℕ
small_table i = 1

small_table-Quiet : Quiet small_table
small_table-Quiet = record {
  no_stone = λ len lo hi. refl;
  one_stone = λ len i lo hi l. omega arith;
}

abbrev first_game : Search
first_game = init_game (some small_table) new_game.hash_board new_game

init_game-Current_example : Current first_game
init_game-Current_example =
    init_game-Current small_table new_game.hash_board new_game small_table-Quiet

opening-OnBoard : OnBoard (pos_of opening.first) × OnBoard (pos_of opening.second)
opening-OnBoard = (omega int_laws, omega int_laws)

make_move-Current_example : Current (make_move first_game opening black (λ s i. no_line)).0
make_move-Current_example =
    make_move-Current first_game opening black (λ s i. no_line) (omega arith) opening-OnBoard.0
      opening-OnBoard.1
      (init_game-Current small_table new_game.hash_board new_game small_table-Quiet)

scan_loop-scan_fuel_example :
    scan_loop new_game.pre_table
      (λ i j. empty)
      black
      angle45
      0
      (scan_fuel + 5)
      (scan_start (square_at 0 8))
    ≡ scan_loop new_game.pre_table
        (λ i j. empty)
        black
        angle45
        0
        scan_fuel
        (scan_start (square_at 0 8))
scan_loop-scan_fuel_example =
    scan_loop-scan_fuel new_game.pre_table (λ i j. empty) black angle45 0 (square_at 0 8) 5
      (omega int_laws)

cal_single_line_value-analyze_line_example :
    ((analyze_line small_table column black angle90 0
        (get_start_point (square_at 4 9) angle90)).value
      ≡ cal_single_line_value small_table column black angle90 (square_at 4 9))
    ⊎ ((analyze_line small_table column black angle90 0
          (get_start_point (square_at 4 9) angle90)).value
        ≡ winlose)
cal_single_line_value-analyze_line_example =
    cal_single_line_value-analyze_line small_table column black angle90 0 (square_at 4 9)
