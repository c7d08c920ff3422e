-- ===== src/Consix/Lines.antt =====
-- search.cpp, the table `LineInfo` of analysed lines: its incremental update when stones are put
-- (`GetLineValueForCross`, `UpdateLine`), and its backup and recovery.
pub mod Copy
pub mod Undo
pub mod Current
use package.chess_set.Base.{ℕ, Bool, true, false, ◌&&◌, List, [], ◌∷◌, if◌then◌else◌, leb, ◌==◌}
use package.chess_set.Base.Int.{ℤ, pos, negsuc, ◌==ℤ◌}
use package.chess_set.Consix.State.{
  Angle, angle0, angle45, angle90, angle135, angles, Point, Line, Lines, Board, no_line,
}
use package.chess_set.Consix.Coord.{Pos, line_id, has_line, back_to_edge45, back_to_edge135}
use package.chess_set.Consix.Scan.{analyze_line}

abbrev pub pos_of : Point → Pos
pos_of p = record { x = p.x; y = p.y }

-- `lines[side][id] = line`.
abbrev pub set_line : Lines → ℕ → ℤ → Line → Lines
set_line lines side id line s i = if side == s && id ==ℤ i then line else lines s i

-- The `switch (which)` over the vectors of a line: it is entered at case `which`, and since `All`
-- is true it falls through all later cases; 7 is the default, which copies no vector.
unfoldable pub copy_fields : ℕ → Line → Line → Line
copy_fields which from into = record into {
  value = from.value;
  threat_num = from.threat_num;
  threat_point = if leb which 1 then from.threat_point else into.threat_point;
  big_poten_point = if leb which 2 then from.big_poten_point else into.big_poten_point;
  sma_poten_point = if leb which 3 then from.sma_poten_point else into.sma_poten_point;
  big_poten_step = if leb which 4 then from.big_poten_step else into.big_poten_step;
  sma_poten_step = if leb which 5 then from.sma_poten_step else into.sma_poten_step;
  com_point = if leb which 6 then from.com_point else into.com_point;
}

-- One round of the loop `for (k = 0; k < 4; k++)` of `BackupLine`, `RecoverLine`, `UpdateLine`.
unfoldable pub copy_line : ℕ → Lines → ℕ → Pos → Lines → Angle → Lines
copy_line which from side p into k =
    if has_line k p
    then set_line into side (line_id k p)
        (copy_fields which (from side (line_id k p)) (into side (line_id k p)))
    else into

-- The four lines through a point, copied from one table into another.
unfoldable pub copy_cross : ℕ → Lines → ℕ → Pos → Lines → Lines
copy_cross which from side p into =
    let into0 = copy_line which from side p into angle0 in
    let into1 = copy_line which from side p into0 angle45 in
    let into2 = copy_line which from side p into1 angle90 in
    copy_line which from side p into2 angle135

-- `BackupLine`: from `LineInfo` into the lines kept aside.
unfoldable pub backup_line : Point → Lines → Lines → ℕ → ℕ → Lines
backup_line p line_info line_temp side which =
    if p.x ==ℤ negsuc 0 then line_temp else copy_cross which line_info side (pos_of p) line_temp

-- `RecoverLine`: from the lines kept aside into `LineInfo`.
unfoldable pub recover_line : Point → Lines → Lines → ℕ → ℕ → Lines
recover_line p line_info line_temp side which =
    if p.x ==ℤ negsuc 0 then line_info else copy_cross which line_temp side (pos_of p) line_info

-- The first point of the line through `p`, as `GetLineValueForCross` finds it.
unfoldable pub line_start : Angle → Pos → Pos
line_start angle0 p = record { x = pos 0; y = p.y }
line_start angle45 p = back_to_edge45 20 p
line_start angle90 p = record { x = p.x; y = pos 0 }
line_start angle135 p = back_to_edge135 20 p

module _ (pre_table : ℕ → ℕ) (board : Board) where
  unfoldable pub line_value : ℕ → ℕ → Pos → Lines → Angle → Lines
  line_value side which p line k =
      if has_line k p
      then set_line line side (line_id k p)
          (analyze_line pre_table board side k which (line_start k p))
      else line

  -- `GetLineValueForCross`, with its assignments in their order.
  unfoldable pub get_line_value_for_cross : Point → Lines → ℕ → ℕ → Lines
  get_line_value_for_cross p line side which =
      let line0 = line_value side which (pos_of p) line angle0 in
      let line1 = line_value side which (pos_of p) line0 angle90 in
      let line2 = line_value side which (pos_of p) line1 angle45 in
      line_value side which (pos_of p) line2 angle135

  -- `UpdateLine`: from the lines just analysed into `LineInfo`.
  unfoldable pub update_line : Lines → Point → ℕ → ℕ → Lines → Lines
  update_line line p side which line_info = copy_cross which line side (pos_of p) line_info

  unfoldable pub update_line_for_cross : Point → ℕ → ℕ → Lines → Lines
  update_line_for_cross p side which line_info =
      if p.x ==ℤ negsuc 0
      then line_info
      else update_line (get_line_value_for_cross p (λ s i. no_line) side which) p side which
          line_info
