-- ===== src/Consix/Move/Current.antt =====
-- Making and taking back moves keeps the table of lines current.
use chess_set.Base.{
  ℕ, zero, suc, ◌<◌, ◌≡◌, ◌≢◌, refl, sym, ◌∙◌, inl, inr, ◌⊎◌, ◌&&◌, Bool-cases, and_split, arith,
  subst,
}
use chess_set.Base.Int.{◌==ℤ◌, ==ℤ→≡}
use chess_set.Consix.State.{Point, Step, Lines, Board, Search, put, next, empty}
use chess_set.Consix.Coord.{Pos}
use chess_set.Consix.Coord.Geometry.{OnBoard}
use chess_set.Consix.Lines.{pos_of}
use chess_set.Consix.Lines.Current.{IsCurrent}
use chess_set.Consix.Lines.Current.Update.{SameBut, updated_lines-IsCurrent}
use chess_set.Consix.Move.{make_move, back_move, update_board}
use chess_set.Consix.Move.Restore.{back_move-make_move}

put-ne :
    (b : Board) (p : Point) (s : ℕ) (r : Pos) → r ≢ pos_of p → put b p.x p.y s r.x r.y ≡ b r.x r.y
put-ne b p s r ne = elim (Bool-cases (p.x ==ℤ r.x && p.y ==ℤ r.y)) [
  | inl h ↦
      let both = and_split (p.x ==ℤ r.x) (p.y ==ℤ r.y) h in
      absurd
        (ne (λ i. record { x = sym (==ℤ→≡ p.x r.x both.0) i; y = sym (==ℤ→≡ p.y r.y both.1) i }))
  | inr h ↦ rw h
]

two_sides : (side s : ℕ) → side < 2 → s < 2 → (side ≡ s) ⊎ (next side ≡ s)
two_sides zero zero h k = inl refl
two_sides zero (suc zero) h k = inr refl
two_sides (suc zero) zero h k = inr refl
two_sides (suc zero) (suc zero) h k = inl refl
two_sides zero (suc (suc s)) h k = absurd (omega arith)
two_sides (suc zero) (suc (suc s)) h k = absurd (omega arith)
two_sides (suc (suc side)) s h k = absurd (omega arith)

-- The table of lines of a search agrees with its board.
abbrev pub Current : Search → Type 0
Current g = IsCurrent g.pre_table g.board g.line_info

-- `UpdateBoard` makes the table current again after any change of the two squares of the step.
pub update_board-Current :
    (g : Search) (before : Board) (step : Step) (side : ℕ)
    → side < 2
    → OnBoard (pos_of step.first)
    → OnBoard (pos_of step.second)
    → SameBut step.first step.second before g.board
    → IsCurrent g.pre_table before g.line_info
    → Current (update_board g step side)
unfolding update_board
update_board-Current g before step side hs o1 o2 same c =
    updated_lines-IsCurrent g.pre_table before g.board step.first step.second side (next side)
      g.line_info o1 o2 same (λ s. two_sides side s hs) c

-- If the table of lines agrees with the board, then after `MakeMove` of the side 0 or 1 on two squares
-- of the board it agrees with the new board: the entry of every line, for both sides, is what an
-- analysis of that line finds.
pub make_move-Current :
    (g : Search) (step : Step) (side : ℕ) (temp : Lines)
    → side < 2
    → OnBoard (pos_of step.first)
    → OnBoard (pos_of step.second)
    → Current g
    → Current (make_move g step side temp).0
unfolding make_move
make_move-Current g step side temp hs o1 o2 c =
    let g' = record g {
      board = put (put g.board step.first.x step.first.y side) step.second.x step.second.y side;
    } in
    let once = put g.board step.first.x step.first.y side in
    let same : SameBut step.first step.second g.board g'.board =
      λ r n1 n2. sym (put-ne once step.second side r n2 ∙ put-ne g.board step.first side r n1) in
    update_board-Current g' g.board step side hs o1 o2 same c

-- Taking the step back gives the old table back, which is current for the old board.
pub back_move-Current :
    (g : Search) (step : Step) (side : ℕ) (temp : Lines)
    → g.board step.first.x step.first.y ≡ empty
    → g.board step.second.x step.second.y ≡ empty
    → Current g
    → let (made, kept) = make_move g step side temp in Current (back_move made step side kept)
back_move-Current g step side temp e1 e2 c =
    subst Current (sym (back_move-make_move g step side temp e1 e2)) c
