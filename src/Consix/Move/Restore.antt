-- ===== src/Consix/Move/Restore.antt =====
-- Taking a step back restores the state: the board, the key and the table of lines.
use chess_set.Base.{
  ℕ, Bool, true, false, ◌&&◌, ◌≡◌, refl, sym, fun_ext, inl, inr, if◌then◌else◌, Bool-cases,
  and_split,
}
use chess_set.Base.Int.{ℤ, negsuc, ◌==ℤ◌, ==ℤ→≡}
use chess_set.Base.Xor.{xor_cancel, xor_swap}
use chess_set.Consix.State.{Point, Step, Lines, Board, Search, put, next, empty}
use chess_set.Consix.Lines.{backup_line, recover_line, update_line_for_cross}
use chess_set.Consix.Lines.Copy.{
  backup_line_at, recover_line_at, update_line_for_cross_at, reaches, updated_lines,
}
use chess_set.Consix.Lines.Undo.{undo4}
use chess_set.Consix.Move.{
  toggle_step, update_board, recover_board, backup_step, make_move, back_move,
}

-- The lines after four backups, four updates on any boards, and four recoveries.
module _ (pre_table : ℕ → ℕ) (board : Board) (p q : Point) (s1 s2 w : ℕ) (info temp : Lines) where
  abbrev pub kept_lines : Lines
  kept_lines =
      backup_line q info
        (backup_line q info (backup_line p info (backup_line p info temp s1 w) s2 w) s1 w) s2 w

  abbrev new_lines : Lines
  new_lines = updated_lines pre_table board p q s1 s2 w info

  abbrev pub recovered_lines : Lines
  recovered_lines =
      recover_line q
        (recover_line q (recover_line p (recover_line p new_lines kept_lines s1 w) kept_lines s2 w)
          kept_lines s1 w)
        kept_lines s2 w

  recovered_at : (s : ℕ) (id : ℤ) → recovered_lines s id ≡ info s id
  recovered_at s id =
      simp (recover_line_at, backup_line_at, update_line_for_cross_at)
        (undo4 w (info s id) (reaches s1 p s id) (reaches s2 p s id) (reaches s1 q s id)
          (reaches s2 q s id) (temp s id) _ _ _ _)

  pub recovered_lines-eq : recovered_lines ≡ info
  recovered_lines-eq = fun_ext λ s. fun_ext λ id. recovered_at s id

same_square :
    (b : Board) (i j x y : ℤ) → (i ==ℤ x && j ==ℤ y) ≡ true → b i j ≡ empty → b x y ≡ empty
same_square b i j x y h e =
    let both = and_split (i ==ℤ x) (j ==ℤ y) h in rw (← ==ℤ→≡ i x both.0, ← ==ℤ→≡ j y both.1) e

unput_cases :
    (c d : Bool) (s v : ℕ)
    → (c ≡ true → v ≡ empty)
    → (d ≡ true → v ≡ empty)
    → (if d then empty else if c then empty else if d then s else if c then s else v) ≡ v
unput_cases c true s v h k = sym (k refl)
unput_cases true false s v h k = sym (h refl)
unput_cases false false s v h k = refl

-- Two stones put on empty squares and taken away again.
pub unput :
    (b : Board) (i j k l : ℤ) (s : ℕ)
    → b i j ≡ empty
    → b k l ≡ empty
    → put (put (put (put b i j s) k l s) i j empty) k l empty ≡ b
unput b i j k l s e1 e2 = fun_ext λ x. fun_ext λ y.
    unput_cases (i ==ℤ x && j ==ℤ y) (k ==ℤ x && l ==ℤ y) s (b x y)
      (λ h. same_square b i j x y h e1) (λ h. same_square b k l x y h e2)

-- The stones of a step are taken out of the key as they were taken in.
pub toggle_step-toggle_step :
    (g : Search) (step : Step) (side : ℕ)
    → toggle_step (record g { hash_key64 = toggle_step g step side }) step side ≡ g.hash_key64
unfolding toggle_step
toggle_step-toggle_step g step side = elim (Bool-cases (step.second.x ==ℤ negsuc 0)) [
  | inl h ↦ rw h (xor_cancel _ _)
  | inr h ↦ rw h (rw (xor_swap, xor_cancel) (xor_cancel _ _))
]

-- On two empty squares, `BackMove` after `MakeMove`, with the lines that it kept aside, gives the whole
-- state before: the board, the table of lines and the key.
pub back_move-make_move :
    (g : Search) (step : Step) (side : ℕ) (temp : Lines)
    → g.board step.first.x step.first.y ≡ empty
    → g.board step.second.x step.second.y ≡ empty
    → let (made, kept) = make_move g step side temp in back_move made step side kept ≡ g
unfolding make_move back_move update_board recover_board backup_step update_line_for_cross
    toggle_step
back_move-make_move g step side temp e1 e2 = λ i. record g {
  board = unput g.board step.first.x step.first.y step.second.x step.second.y side e1 e2 i;
  hash_key64 = toggle_step-toggle_step g step side i;
  line_info =
      recovered_lines-eq g.pre_table
        (put (put g.board step.first.x step.first.y side) step.second.x step.second.y side)
        step.first step.second side (next side) 0 g.line_info temp i;
}
