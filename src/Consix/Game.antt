-- ===== src/Consix/Game.antt =====
-- search.cpp, the start of a game: `InitGame` and what it calls. The key table is `keys`, as
-- `InitHashKey` fills it, and the table of shapes is what is read from ConnPreTbl.me, if it opens.
pub mod Quiet
pub mod Start
use package.chess_set.Base.{ℕ, Bool, true, false, ◌&&◌, Option, none, some, [], if◌then◌else◌, ltb}
use package.chess_set.Base.Int.{ℤ, pos, negsuc, ltb_ℤ}
use package.chess_set.Consix.State.{Search, HashHistory, Board, Line, Lines, black, empty, no_line}

-- `0 <= i < n`.
abbrev pub in_range : ℕ → ℤ → Bool
in_range n i = ltb_ℤ (negsuc 0) i && ltb_ℤ i (pos n)

unfoldable pub init_board : Board → Board
init_board board i j = if in_range 19 i && in_range 19 j then empty else board i j

-- The fields that `InitLineInfo` clears: all but the side.
abbrev pub cleared : Line → Line
cleared line = record no_line { side = line.side }

unfoldable pub init_line_info : Lines → Lines
init_line_info info s i = if ltb s 2 && in_range 92 i then cleared (info s i) else info s i

-- `DeleteHistory`.
unfoldable pub delete_history : Search → Search
delete_history g = record g {
  point_history = [];
  step_history = [];
  hash_table = λ d. if ltb d 3 then [] else g.hash_table d;
  temp_hash_table = λ d. if ltb d 3 then [] else g.temp_hash_table d;
}

unfoldable pub init_game : Option (ℕ → ℕ) → (ℕ → ℤ → ℤ → ℕ) → Search → Search
init_game file keys g =
    let g1 = record (delete_history g) {
      hash_key64 = 0;
      player = black;
      point_id = 0;
      step_id = 0;
      game_start = false;
      will_win = false;
      com_to_com = false;
    } in
    elim file [
      | none ↦ g1
      | some table ↦ record g1 {
        pre_table = table;
        board = init_board g1.board;
        hash_board = keys;
        line_info = init_line_info g1.line_info;
      }
    ]
