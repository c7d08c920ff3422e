-- ===== src/Consix/Game/Start.antt =====
-- A game that has just begun is consistent.
use chess_set.Base.{ℕ, ◌≡◌, refl, true, and_true, lt→ltb, some}
use chess_set.Base.Int.{ℤ, pos, negsuc, ◌≤ℤ◌, ◌+ℤ◌, ltb_ℤ, int_laws}
use chess_set.Consix.State.{Angle, angle0, angle45, angle90, angle135, Search, Board, empty}
use chess_set.Consix.Coord.{Pos, line_id, has_line}
use chess_set.Consix.Coord.Geometry.{OnBoard, line_id-range}
use chess_set.Consix.Lines.{copy_fields, line_start}
use chess_set.Consix.Lines.Current.{IsCurrent, line_start-OnBoard}
use chess_set.Consix.Move.Current.{Current}
use chess_set.Consix.Game.{in_range, init_board, init_line_info, init_game, delete_history}
use chess_set.Consix.Game.Quiet.{Quiet, analyze_blank}

in_range_of : (n : ℕ) (i : ℤ) → pos 0 ≤ℤ i → i +ℤ pos 1 ≤ℤ pos n → in_range n i ≡ true
in_range_of n i lo hi =
    and_true (ltb_ℤ (negsuc 0) i) (ltb_ℤ i (pos n)) (lt→ltb _ _ (omega int_laws))
      (lt→ltb _ _ (omega int_laws))

init_board-empty : (b : Board) (p : Pos) → OnBoard p → init_board b p.x p.y ≡ empty
unfolding init_board
init_board-empty b p o =
    rw
      (
        in_range_of 19 p.x (omega int_laws) (omega int_laws),
        in_range_of 19 p.y (omega int_laws) (omega int_laws),
      )
      refl

id_in_range :
    (k : Angle) (r : Pos) → OnBoard r → has_line k r ≡ true → in_range 92 (line_id k r) ≡ true
id_in_range angle0 r o h =
    let (lo, hi) = line_id-range angle0 r o h in
    in_range_of 92 (line_id angle0 r) (omega int_laws) (omega int_laws)
id_in_range angle45 r o h =
    let (lo, hi) = line_id-range angle45 r o h in
    in_range_of 92 (line_id angle45 r) (omega int_laws) (omega int_laws)
id_in_range angle90 r o h =
    let (lo, hi) = line_id-range angle90 r o h in
    in_range_of 92 (line_id angle90 r) (omega int_laws) (omega int_laws)
id_in_range angle135 r o h =
    let (lo, hi) = line_id-range angle135 r o h in
    in_range_of 92 (line_id angle135 r) (omega int_laws) (omega int_laws)

-- When ConnPreTbl.me opens and gives, for shapes of 6 to 19 squares, the type 1 to one without
-- stones and at most 8 to one with a single stone, the table of lines that `InitGame` leaves
-- agrees with the board that it leaves.
pub init_game-Current :
    (table : ℕ → ℕ) (keys : ℕ → ℤ → ℤ → ℕ) (g : Search)
    → Quiet table
    → Current (init_game (some table) keys g)
unfolding init_game init_line_info IsCurrent copy_fields delete_history
init_game-Current table keys g quiet s k r hs o h =
    let blank =
      analyze_blank table (init_board g.board) s k (line_start k r) quiet (init_board-empty g.board)
        (line_start-OnBoard k r o) in
    rw (blank, lt→ltb s 2 hs, id_in_range k r o h) refl
