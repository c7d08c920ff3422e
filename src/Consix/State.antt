-- ===== src/Consix/State.antt =====
-- The data of consix/search.h: points, steps, lines and the fields of `CSearch`, and the tables
-- that search.cpp declares beside it. A C array is a function of its indices. A field that the
-- sources leave uninitialised is 0.
use chess_set.Base.{ℕ, Bool, List, [], ◌∷◌, get_or, bit_xor, ◌&&◌, if◌then◌else◌}
use chess_set.Base.Int.{ℤ, pos, ◌==ℤ◌}

-- What a square holds, and the side of a player.
abbrev pub black : ℕ
black = 0

abbrev pub white : ℕ
white = 1

abbrev pub empty : ℕ
empty = 2

-- `NEXT(s)`.
abbrev pub next : ℕ → ℕ
next s = bit_xor s 1

abbrev pub winlose : ℕ
winlose = 10000

abbrev pub threat : ℕ
threat = 9999

abbrev pub tablesize : ℕ
tablesize = 1048512

-- The four directions, in the order of their numbers 0 to 3.
pub data Angle : Type 0 where
  angle0 angle45 angle90 angle135 : Angle

abbrev pub angles : List Angle
angles = angle0 ∷ angle45 ∷ angle90 ∷ angle135 ∷ []

pub record Point : Type 0 where
  pub side : ℕ
  pub x : ℤ
  pub y : ℤ
  pub value : ℤ
  pub label : ℤ

-- A point of which only the coordinates are set.
abbrev pub at : ℤ → ℤ → Point
at i j = record { side = 0; x = i; y = j; value = pos 0; label = pos 0 }

pub record Step : Type 0 where
  pub hash_id : ℕ
  pub first : Point
  pub second : Point
  pub s_value : ℤ
  pub l_value : ℤ

abbrev pub pair : Point → Point → Step
pair p q = record { hash_id = 0; first = p; second = q; s_value = pos 0; l_value = pos 0 }

pub record Line : Type 0 where
  pub side : ℕ
  pub value : ℕ
  pub threat_num : ℕ
  pub threat_point : List Point
  pub big_poten_point : List Point
  pub sma_poten_point : List Point
  pub big_poten_step : List Step
  pub sma_poten_step : List Step
  pub com_point : List Point

abbrev pub no_line : Line
no_line = record {
  side = 0;
  value = 0;
  threat_num = 0;
  threat_point = [];
  big_poten_point = [];
  sma_poten_point = [];
  big_poten_step = [];
  sma_poten_step = [];
  com_point = [];
}

pub record HashHistory : Type 0 where
  pub pruning : Bool
  pub checksum : ℕ
  pub move_list : List Step

-- `Board[19][19]`.
abbrev pub Board : Type 0
Board = ℤ → ℤ → ℕ

-- `board[i][j] = s`.
abbrev pub put : Board → ℤ → ℤ → ℕ → Board
put b i j s x y = if i ==ℤ x && j ==ℤ y then s else b x y

-- `LineInfo[2][92]`, and the arrays of lines that the search keeps aside.
abbrev pub Lines : Type 0
Lines = ℕ → ℤ → Line

pub record Search : Type 0 where
  pub point_id : ℕ
  pub step_id : ℕ
  pub game_start : Bool
  pub will_win : Bool
  pub com_to_com : Bool
  pub computer_color : ℕ
  pub board : Board
  pub pre_table : ℕ → ℕ
  pub player : ℕ
  pub max_depth : ℕ → ℕ
  pub large_depth : ℕ → ℕ
  pub max_depth_back_up : ℕ
  pub large_depth_back_up : ℕ
  pub line_info : Lines
  pub point_history : List Point
  pub step_history : List Step
  pub hash_key64 : ℕ
  pub hash_board : ℕ → ℤ → ℤ → ℕ
  pub hash_table : ℕ → List HashHistory
  pub temp_hash_table : ℕ → List HashHistory
  pub hash_list : HashHistory

-- `LineTypeValue[16]`.
abbrev pub line_type_value : ℕ → ℕ
line_type_value id =
    get_or (0 ∷ 0 ∷ 1 ∷ 2 ∷ 3 ∷ 8 ∷ 10 ∷ 15 ∷ 20 ∷ 30 ∷ 34 ∷ 60 ∷ 36 ∷ 64 ∷ 1000 ∷ 10000 ∷ []) id 0
