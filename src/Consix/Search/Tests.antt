-- ===== src/Consix/Search/Tests.antt =====
-- Runs of the search's functions on small positions, and each theorem at a concrete input.
use chess_set.Base.{
  ◌≤◌, ◌≡◌, refl, List, true, false, [], ◌∷◌, All, length, if◌then◌else◌, ◌==◌, ◌&&◌, arith,
}
use chess_set.Base.Int.{ℤ, pos, ◌+ℤ◌, ◌-ℤ◌, ◌==ℤ◌, ◌≤ℤ◌, int_laws}
use chess_set.Consix.State.{
  Point, Line, Search, HashHistory, at, pair, no_line, black, white, empty,
}
use chess_set.Consix.Candidates.{
  unique_point, unique, unique_after, sort, insert, com_step_value, zero_step,
}
use chess_set.Consix.Candidates.Squares.{unique_point_lem, Descending, has_square}
use chess_set.Consix.Run.Keeps.{Keeps, Anywhere, Restores}
use chess_set.Consix.Threats.{attack, ensure_threat_num, two_directions, any_id, get_all_line_infor}
use chess_set.Consix.Threats.Defence.{met_threats, ensure_threat_num-eq}
use chess_set.Consix.Threats.Attack.{attack-eq, attacked}
use chess_set.Consix.Threats.Restored.{get_all_line_infor-Restores}
use chess_set.Consix.Value.{construct_com_point, search_range}
use chess_set.Consix.Value.Range.{Near, construct_com_point_bounds}
use chess_set.Consix.Run.{pure}
use chess_set.Consix.Defend.Pairs.{kept_steps, defend_for_multi_threat-eq}
use chess_set.Consix.Defend.Found.{defend_for_multi_threat-some}
use chess_set.Consix.Defend.{defend_for_multi_threat, defend_for_single_threat, adjustment}
use chess_set.Consix.Defend.Size.{defend_for_single_threat-AtMost}
use chess_set.Consix.Build.{construct_step_for_no_threat}
use chess_set.Consix.Build.Size.{construct_step_for_no_threat-AtMost}
use chess_set.Consix.Judge.{discount}
use chess_set.Consix.Judge.Bound.{discount-le}
use chess_set.Consix.History.{
  find_history, look_up_hash_table, release_hash_table, remember, con_strange_step, first_stone,
  first_in_column,
}
use chess_set.Consix.History.Lookup.{look_up-release-remember}
use chess_set.Consix.Search.{max_search, min_search}
use chess_set.Consix.Search.Keeps.{search-Keeps}
use chess_set.Consix.Search.Agree.{Within}
use chess_set.Consix.Search.Fuel.{search-fuel}
use chess_set.Consix.Search.Root.{search_step}
use chess_set.Consix.Search.Position.{SamePosition, search_step-SamePosition}

abbrev no_history : HashHistory
no_history = record { pruning = false; checksum = 0; move_list = [] }

-- Each line of the table has two threat points, on the empty squares (4, 0) and (3, 0).
abbrev threat_line : Line
threat_line = record no_line {
  threat_num = 1;
  threat_point = at (pos 4) (pos 0) ∷ at (pos 3) (pos 0) ∷ [];
}

abbrev game : Search
game = record {
  point_id = 0;
  step_id = 3;
  game_start = true;
  will_win = false;
  com_to_com = false;
  computer_color = white;
  board = λ x y. if x ==ℤ pos 9 && y ==ℤ pos 9 then black else empty;
  pre_table = λ i. if i == 0 then 1 else 3;
  player = white;
  max_depth = λ s. 4;
  large_depth = λ s. 11;
  max_depth_back_up = 1;
  large_depth_back_up = 11;
  line_info = λ s i. threat_line;
  point_history = [];
  step_history = [];
  hash_key64 = 12;
  hash_board = λ s x y. 7;
  hash_table = λ d. [];
  temp_hash_table = λ d. [];
  hash_list = no_history;
}

search-Keeps_example :
    Keeps Anywhere game (max_search 12 (pos 0) (pos 9) 1 game).1
    × Keeps Anywhere game (min_search 12 (pos 0) (pos 9) 1 game).1
search-Keeps_example = search-Keeps 12 (pos 0) (pos 9) 1 game

search-fuel_example :
    (max_search 11 (pos 0) (pos 9) 1 game ≡ max_search 31 (pos 0) (pos 9) 1 game)
    × (min_search 11 (pos 0) (pos 9) 1 game ≡ min_search 31 (pos 0) (pos 9) 1 game)
search-fuel_example =
    search-fuel 11 10 30 (pos 0) (pos 9) 1 game (omega arith) (omega arith) game-Within
  where
    game-Within : Within 11 game
    game-Within = omega arith

search_step-SamePosition_example : SamePosition game (search_step 12 threat_line threat_line game).1
search_step-SamePosition_example = search_step-SamePosition 12 threat_line threat_line game

abbrev three : List Point
three = at (pos 4) (pos 0) ∷ at (pos 3) (pos 9) ∷ at (pos 3) (pos 0) ∷ []

attack-eq_example :
    attack (λ x. x == 1) three black game ≡ (attacked (λ x. x == 1) three black game, game)
attack-eq_example =
    attack-eq (λ x. x == 1) black game three ((refl, (refl, tt)), ((refl, tt), (tt, tt)))
      ((λ e. refl), ((λ e. refl), ((λ e. refl), tt)))

-- The table of shapes of `game` has no six: one stone of the other side meets both threats.
abbrev two_threats_line : Line
two_threats_line = record threat_line { threat_num = 2 }

ensure_threat_num-eq_example : ensure_threat_num two_threats_line (3 ∷ 20 ∷ []) game ≡ (
  record two_threats_line {
    threat_point = unique_point two_threats_line.threat_point;
    threat_num = met_threats (unique_point two_threats_line.threat_point) 0 (3 ∷ 20 ∷ []) 2 game;
  },
  game,
)
ensure_threat_num-eq_example =
    ensure_threat_num-eq two_threats_line (3 ∷ 20 ∷ []) game (refl, (refl, tt))

defend_for_multi_threat-eq_example : defend_for_multi_threat two_threats_line game ≡ (
  sort com_step_value
      (kept_steps two_threats_line.threat_point 0 2 two_threats_line.threat_point 0 game),
  game,
)
defend_for_multi_threat-eq_example =
    defend_for_multi_threat-eq two_threats_line game ((refl, tt), (tt, tt)) (refl, (refl, tt))

-- Three threats of one line: `EnsureThreatNum` leaves their number.
abbrev three_threats_line : Line
three_threats_line = record threat_line { threat_num = 3 }

defend_for_multi_threat-some_example :
    1
    ≤ length (defend_for_multi_threat (ensure_threat_num three_threats_line (3 ∷ []) game).0 game).0
unfolding ensure_threat_num two_directions any_id pure unique_point unique unique_after sort insert
defend_for_multi_threat-some_example =
    defend_for_multi_threat-some three_threats_line (3 ∷ []) game (refl, (refl, tt)) (omega arith)
      (omega arith) (omega arith)

get_all_line_infor-Restores_example : Restores game (get_all_line_infor white 1 game).1
get_all_line_infor-Restores_example =
    get_all_line_infor-Restores white 1 game (λ i. (refl, (refl, tt)))

construct_com_point_bounds_example :
    let points = (construct_com_point (at (pos 8) (pos 8)) white black game).0 in
    (length points ≤ 5) × All (Near (search_range game)) points
construct_com_point_bounds_example =
    construct_com_point_bounds (at (pos 8) (pos 8)) white black game

defend_for_single_threat-AtMost_example :
    length (defend_for_single_threat threat_line threat_line false true game).0 ≤ 5
defend_for_single_threat-AtMost_example =
    defend_for_single_threat-AtMost threat_line threat_line false true game

construct_step_for_no_threat-AtMost_example :
    length (construct_step_for_no_threat threat_line threat_line false game).0 ≤ 25
construct_step_for_no_threat-AtMost_example =
    construct_step_for_no_threat-AtMost threat_line threat_line false game

discount-le_example : (discount threat_line threat_line (pos 40) game).0 ≤ℤ pos 40
discount-le_example =
    discount-le (pos 40) threat_line threat_line (pos 40) game (omega arith) (omega int_laws)

look_up-release-remember_example :
    let released = release_hash_table (remember 2 true (zero_step ∷ []) game).1 in
    look_up_hash_table 0 released ≡ (
      true,
      record released {
        hash_list = record { pruning = true; checksum = 12; move_list = zero_step ∷ [] };
      },
    )
unfolding find_history
look_up-release-remember_example =
    look_up-release-remember 2 true (zero_step ∷ []) game refl (omega arith) (omega arith)
      (omega arith) refl

unique_point_lem_example :
    Descending (unique_point (at (pos 3) (pos 0) ∷ at (pos 4) (pos 0) ∷ at (pos 3) (pos 0) ∷ []))
    × ((x y : ℤ)
        → has_square x y
            (unique_point (at (pos 3) (pos 0) ∷ at (pos 4) (pos 0) ∷ at (pos 3) (pos 0) ∷ []))
          ≡ has_square x y (at (pos 3) (pos 0) ∷ at (pos 4) (pos 0) ∷ at (pos 3) (pos 0) ∷ []))
unique_point_lem_example =
    unique_point_lem (at (pos 3) (pos 0) ∷ at (pos 4) (pos 0) ∷ at (pos 3) (pos 0) ∷ [])

two_squares :
    unique_point (at (pos 3) (pos 0) ∷ at (pos 4) (pos 0) ∷ at (pos 3) (pos 0) ∷ [])
    ≡ at (pos 4) (pos 0) ∷ at (pos 3) (pos 0) ∷ []
unfolding unique_point unique unique_after sort insert
two_squares = refl

-- Beside the first stone in the middle, to the right and above.
beside : con_strange_step game.board ≡ pair (at (pos 10) (pos 9)) (at (pos 9) (pos 10))
unfolding con_strange_step first_stone first_in_column ◌+ℤ◌
beside = refl

-- Two threats without more potential are worth 12 - 3.
two_threats : adjustment 2 0 0 ≡ pos 9
unfolding adjustment ◌+ℤ◌ ◌-ℤ◌
two_threats = refl
