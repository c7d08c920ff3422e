-- ===== src/Consix/Handler/Sides.antt =====
-- Whose turn it is, and how the steps of the two sides change it.
use chess_set.Base.{
  ℕ, ◌+◌, ◌%◌, ◌⊎◌, ◌||◌, ◌≡◌, refl, ap, sym, ◌∙◌, Option, none, some, ◌==◌, arith, inl, inr,
  Bool-cases,
}
use chess_set.Base.Int.{ℤ}
use chess_set.Consix.State.{Step, Search, next, black, white}
use chess_set.Consix.Search.Root.{search_step}
use chess_set.Consix.Search.Root
use chess_set.Base.Xor.{xor_cancel}
use chess_set.Consix.Move.{update_board}
use chess_set.Consix.Handler.{put_step, end_turn, human_move, computer_move}
use chess_set.Consix.Search.Turn.{turn_of, computer_move-Fixes}

-- A property of a result, if there is one.
abbrev pub IfSome {ℓ} : {A : Type ℓ} → (A → Type 0) → Option A → Type 0
IfSome P none = Unit
IfSome P (some a) = P a

-- One side has moved.
abbrev pub Turned : Search → Search → Type 0
Turned g h = turn_of h ≡ (next g.player, g.step_id + 1, g.computer_color)

after_choice :
    (chosen : Option Step) (g g' : Search)
    → turn_of g' ≡ turn_of g
    → IfSome
        (λ (r : Step × Search). Turned g r.1)
        (elim chosen [
          | none ↦ none
          | some step ↦
              let (s, made) = put_step g' step g'.computer_color in some (s, end_turn made)
        ])
unfolding put_step update_board end_turn
after_choice none g g' e = tt
after_choice (some step) g g' e = ap (λ (t : ℕ × ℕ × ℕ). (next t.0, t.1 + 1, t.2)) e

module _ (file : Option (ℕ → ℕ)) (keys : ℕ → ℤ → ℤ → ℕ) (fuel : ℕ) where
  pub computer_move-Turned :
      (g : Search) → IfSome (λ (r : Step × Search). Turned g r.1) (computer_move file keys fuel g)
  unfolding computer_move end_turn update_board
  computer_move-Turned g = elim (Bool-cases (g.step_id == 0)) [
    | inl e ↦ rw e refl
    | inr e ↦ rw e (elim (Bool-cases (g.computer_color == black || g.computer_color == white)) [
      | inl c ↦ rw c (
          after_choice (Root.computer_move fuel g).0 g (Root.computer_move fuel g).1
            ((computer_move-Fixes fuel).fixes g))
      | inr c ↦ rw c refl
    ])
  ]

-- The even steps are black's, the odd ones white's, and the side to move is not the computer's.
pub record HumansTurn (g : Search) : Type 0 where
  pub human : g.player ≡ next g.computer_color
  pub order : g.player ≡ g.step_id % 2

-- The same with the computer to move.
pub record ComputersTurn (g : Search) : Type 0 where
  pub computer : g.player ≡ g.computer_color
  pub order : g.player ≡ g.step_id % 2

next_order : (p n : ℕ) → p ≡ n % 2 → next p ≡ (n + 1) % 2
next_order p n e =
    rw e (elim (halves n) [ inl h ↦ rw h (omega arith) | inr h ↦ rw h (omega arith) ])
  where
    halves : (n : ℕ) → (n % 2 ≡ 0) ⊎ (n % 2 ≡ 1)
    halves n = omega arith

pub computer_moves : (g h : Search) → ComputersTurn g → Turned g h → HumansTurn h
computer_moves g h c t = record {
  human =
      ap (λ (t : ℕ × ℕ × ℕ). t.0) t ∙ ap next c.computer ∙ sym (ap (λ (t : ℕ × ℕ × ℕ). next t.2) t);
  order =
      ap (λ (t : ℕ × ℕ × ℕ). t.0) t
      ∙ next_order g.player g.step_id c.order
      ∙ sym (ap (λ (t : ℕ × ℕ × ℕ). t.1 % 2) t);
}

pub human_move-ComputersTurn :
    (g : Search) (s : Step) → HumansTurn g → ComputersTurn (human_move g s)
unfolding human_move update_board
human_move-ComputersTurn g s h = record {
  computer = ap next h.human ∙ xor_cancel g.computer_color 1;
  order = next_order g.player g.step_id h.order;
}
