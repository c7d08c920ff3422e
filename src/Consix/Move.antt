-- ===== src/Consix/Move.antt =====
-- search.cpp, putting and taking back the two stones of a step: `UpdateBoard`, `RecoverBoard`,
-- `MakeMove` and `BackMove`, which the search calls round each step that it tries.
pub mod Restore
pub mod Current
pub mod Key
use package.chess_set.Base.{ℕ, Bool, true, false, if◌then◌else◌, bit_xor}
use package.chess_set.Base.Int.{ℤ, negsuc, ◌==ℤ◌}
use package.chess_set.Consix.State.{Point, Step, Lines, Search, put, next, empty}
use package.chess_set.Consix.Lines.{backup_line, recover_line, update_line_for_cross}

-- `Board[p.X][p.Y] = s`.
abbrev pub put_stone : Search → Point → ℕ → Search
put_stone g p s = record g { board = put g.board p.x p.y s }

-- `UpdateLineForCross(p, side)` on the fields of the search.
abbrev pub cross : Search → Point → ℕ → ℕ → Search
cross g p side which = record g {
  line_info = update_line_for_cross g.pre_table g.board p side which g.line_info;
}

-- The key with the stones of a step taken in, or out: a step of one stone has -1 for its second.
unfoldable pub toggle_step : Search → Step → ℕ → ℕ
toggle_step g step side =
    let one = bit_xor g.hash_key64 (g.hash_board side step.first.x step.first.y) in
    if step.second.x ==ℤ negsuc 0
    then one
    else bit_xor one (g.hash_board side step.second.x step.second.y)

unfoldable pub update_board : Search → Step → ℕ → Search
update_board g step side =
    let g0 = record g { hash_key64 = toggle_step g step side } in
    let g1 = cross g0 step.first side 0 in
    let g2 = cross g1 step.first (next side) 0 in
    let g3 = cross g2 step.second side 0 in cross g3 step.second (next side) 0

-- `RecoverLine(p, LineTemp, side)` on the fields of the search.
abbrev pub recover : Search → Point → Lines → ℕ → ℕ → Search
recover g p line_temp side which = record g {
  line_info = recover_line p g.line_info line_temp side which;
}

unfoldable pub recover_board : Search → Step → ℕ → Lines → Search
recover_board g step side line_temp =
    let g0 = record g { hash_key64 = toggle_step g step side } in
    let g1 = recover g0 step.first line_temp side 0 in
    let g2 = recover g1 step.first line_temp (next side) 0 in
    let g3 = recover g2 step.second line_temp side 0 in
    recover g3 step.second line_temp (next side) 0

-- The four `BackupLine` calls of `MakeMove`.
unfoldable pub backup_step : Search → Step → ℕ → Lines → Lines
backup_step g step side line_temp =
    let t1 = backup_line step.first g.line_info line_temp side 0 in
    let t2 = backup_line step.first g.line_info t1 (next side) 0 in
    let t3 = backup_line step.second g.line_info t2 side 0 in
    backup_line step.second g.line_info t3 (next side) 0

-- Returns the lines kept aside in `LineTemp` beside the new state.
unfoldable pub make_move : Search → Step → ℕ → Lines → Search × Lines
make_move g step side line_temp =
    let g1 = put_stone g step.first side in
    let g2 = put_stone g1 step.second side in
    (update_board g2 step side, backup_step g step side line_temp)

unfoldable pub back_move : Search → Step → ℕ → Lines → Search
back_move g step side line_temp =
    let g1 = put_stone g step.first empty in
    let g2 = put_stone g1 step.second empty in recover_board g2 step side line_temp
