-- ===== src/Consix/Scan/Segment.antt =====
-- search.cpp, `CalSingleLineValue` and `AnalyzeLineSegID`: the value of a line without its points, and
-- the type of the one shape round a square.
use chess_set.Base.{ℕ, zero, suc, ◌+◌, ◌^◌, true, false, ◌||◌, if◌then◌else◌, ltb, ◌==◌}
use chess_set.Base.Int.{pos, ◌==ℤ◌}
use chess_set.Consix.State.{Angle, Board, empty, next, line_type_value}
use chess_set.Consix.Coord.{Pos, increase_dir, decrease_dir, inside, get_start_point}
use chess_set.Consix.Scan.{shape_index, scan_fuel}

-- The variables of the loop of `CalSingleLineValue`.
pub record Sum : Type 0 where
  pub here : Pos
  pub len : ℕ
  pub style : ℕ
  pub value : ℕ

unfoldable pub add_value : (ℕ → ℕ) → Sum → ℕ
add_value pre_table s =
    if ltb 5 s.len
    then s.value + line_type_value (pre_table (shape_index s.len s.style))
    else s.value

module _ (pre_table : ℕ → ℕ) (board : Board) (side : ℕ) (angle : Angle) where
  unfoldable pub sum_square : Sum → Sum
  sum_square s =
      let there = increase_dir angle s.here in
      if board s.here.x s.here.y == empty
      then record s { here = there; len = s.len + 1 }
      else if board s.here.x s.here.y == side
      then record s { here = there; len = s.len + 1; style = s.style + 2 ^ s.len }
      else record { here = there; len = 0; style = 0; value = add_value pre_table s }

  unfoldable pub sum_loop : ℕ → Sum → Sum
  sum_loop zero s = s
  sum_loop (suc fuel) s = elim (inside s.here) [ false ↦ s | true ↦ sum_loop fuel (sum_square s) ]

  unfoldable pub cal_single_line_value : Pos → ℕ
  cal_single_line_value p = add_value pre_table (
      sum_loop scan_fuel (record { here = get_start_point p angle; len = 0; style = 0; value = 0 }))

  -- `AnalyzeLineSegID`: back to a stone of the other side or to the edge, …
  unfoldable pub segment_start : ℕ → Pos → Pos
  segment_start zero p = p
  segment_start (suc fuel) p =
      let rest = segment_start fuel (decrease_dir angle p) in
      if board p.x p.y == next side
      then increase_dir angle p
      else if p.x ==ℤ pos 0 || p.x ==ℤ pos 18 || p.y ==ℤ pos 0 || p.y ==ℤ pos 18
      then p
      else rest

  -- … and forward over the shape that starts there: its `Len` and `Style`.
  unfoldable pub segment_shape : ℕ → Pos → ℕ → ℕ → ℕ × ℕ
  segment_shape zero p len style = (len, style)
  segment_shape (suc fuel) p len style =
      let held = segment_shape fuel (increase_dir angle p) (len + 1) (style + 2 ^ len) in
      let free = segment_shape fuel (increase_dir angle p) (len + 1) style in
      if inside p
      then if board p.x p.y == side
        then held
        else if board p.x p.y == empty
        then free
        else (len, style)
      else (len, style)

  unfoldable pub analyze_line_seg_id : Pos → ℕ
  analyze_line_seg_id p =
      let (len, style) = segment_shape scan_fuel (segment_start scan_fuel p) 0 0 in
      if ltb (style + 2 ^ len) 64 then 0 else pre_table (shape_index len style)
