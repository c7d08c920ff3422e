-- ===== src/Consix/Handler/Replies.antt =====
-- A step that `handle_consix` sends is read back as the same step when it stands in a request.
use chess_set.Base.{
  ℕ, zero, suc, ◌+◌, ◌/◌, ◌%◌, ◌<◌, false, ◌≡◌, refl, ap, ◌∙◌, List, [], ◌∷◌, ◌++◌, All, All-append,
  ltb, ◌==◌, length, get_or, arith, inl, inr, Bool-cases, if_false, le→ltb,
}
use chess_set.Base.Int.{ℤ, pos, negsuc}
use chess_set.Common.Util.{
  Bytes, found, overrun, get_val_by_key, value_from, value_at, strstr, starts_with, until_semicolon,
}
use chess_set.Common.Format.{codes, print_nat, print_int, to_byte, to_short}
use chess_set.Common.Format.Print.{print_ints, sscanf-print_ints}
use chess_set.Consix.State.{Step, at, pair}
use chess_set.Consix.Handler.{step_text, read_step}

-- The numbers of a step, as they stand in a text.
pub step_numbers : Step → Bytes
step_numbers s =
    print_ints (pos s.first.side) (s.first.x ∷ s.first.y ∷ s.second.x ∷ s.second.y ∷ [])

abbrev NoSemicolon : Bytes → Type 0
NoSemicolon cs = All (λ c. (c == 59) ≡ false) cs

print_nat-NoSemicolon :
    (fuel n : ℕ) (tail : Bytes) → NoSemicolon tail → NoSemicolon (print_nat fuel n tail)
unfolding print_nat
print_nat-NoSemicolon zero n tail h = (ground arith, h)
print_nat-NoSemicolon (suc fuel) n tail h = elim (Bool-cases (ltb n 10)) [
  | inl e ↦ rw e (ground arith, h)
  | inr e ↦ rw e (print_nat-NoSemicolon fuel (n / 10) ((n % 10 + 48) ∷ tail) (ground arith, h))
]

print_int-NoSemicolon : (z : ℤ) → NoSemicolon (print_int z)
unfolding print_int
print_int-NoSemicolon (pos n) = print_nat-NoSemicolon n n [] tt
print_int-NoSemicolon (negsuc n) = (refl, print_nat-NoSemicolon (suc n) (suc n) [] tt)

print_ints-NoSemicolon : (z : ℤ) (ys : List ℤ) → NoSemicolon (print_ints z ys)
unfolding print_ints
print_ints-NoSemicolon z [] = print_int-NoSemicolon z
print_ints-NoSemicolon z (y ∷ ys) =
    All-append (λ c. (c == 59) ≡ false) (print_int z) (44 ∷ print_ints y ys)
      (print_int-NoSemicolon z) (refl, print_ints-NoSemicolon y ys)

until_semicolon-all : (cs : Bytes) → NoSemicolon cs → until_semicolon cs ≡ cs
unfolding until_semicolon
until_semicolon-all [] h = refl
until_semicolon-all (c ∷ cs) h =
    if_false (c == 59) [] (c ∷ until_semicolon cs) h.0
    ∙ ap (λ t. c ∷ t) (until_semicolon-all cs h.1)

-- The value of the key `step` in an answer.
step_value :
    (cs : Bytes)
    → NoSemicolon cs
    → get_val_by_key (codes "cmd:move;step:" ++ cs) (codes "step") ≡ found cs
unfolding get_val_by_key value_from value_at strstr starts_with
step_value cs h =
    if_false (ltb (length (codes "cmd:move;step:" ++ cs)) (9 + 4 + 1)) overrun
      (found (until_semicolon cs)) (le→ltb _ _ (omega arith))
    ∙ ap found (until_semicolon-all cs h)

-- Coordinates that a `short` holds, and a side that a byte holds.
pub record Fits (s : Step) : Type 0 where
  pub side_fits : s.first.side < 256
  pub x1_fits : to_short s.first.x ≡ s.first.x
  pub y1_fits : to_short s.first.y ≡ s.first.y
  pub x2_fits : to_short s.second.x ≡ s.second.x
  pub y2_fits : to_short s.second.y ≡ s.second.y

-- The side and the squares of a step.
abbrev pub squares : Step → Step
squares s =
    pair (record (at s.first.x s.first.y) { side = s.first.side })
      (record (at s.second.x s.second.y) { side = s.first.side })

to_byte-fits : (n : ℕ) → n < 256 → to_byte (pos n) ≡ n
unfolding to_byte
to_byte-fits n h = omega arith

read_step-numbers : (s : Step) → Fits s → read_step (step_numbers s) ≡ squares s
unfolding read_step step_numbers
read_step-numbers s f =
    ap
      (λ (l : List ℤ).
        pair
          (record (at (to_short (get_or l 1 (pos 0))) (to_short (get_or l 2 (pos 0)))) {
            side = to_byte (get_or l 0 (pos 0));
          })
          (record (at (to_short (get_or l 3 (pos 0))) (to_short (get_or l 4 (pos 0)))) {
            side = to_byte (get_or l 0 (pos 0));
          }))
      (sscanf-print_ints (pos s.first.side) (s.first.x ∷ s.first.y ∷ s.second.x ∷ s.second.y ∷ []))
    ∙ (λ i.
        pair
          (record (at (f.x1_fits i) (f.y1_fits i)) {
            side = to_byte-fits s.first.side f.side_fits i;
          })
          (record (at (f.x2_fits i) (f.y2_fits i)) {
            side = to_byte-fits s.first.side f.side_fits i;
          }))

-- A step that the server sends, whose numbers fit their fields, is read as the same side and squares
-- when its text comes back in a request: its value is found by the key `step`, and is read as the step.
pub read_step-step_text :
    (s : Step)
    → Fits s
    → (text : Bytes) × (get_val_by_key (step_text s) (codes "step") ≡ found text)
      × (read_step text ≡ squares s)
unfolding step_text step_numbers print_ints
read_step-step_text s f = (
  step_numbers s,
  step_value (step_numbers s) (
      print_ints-NoSemicolon (pos s.first.side)
        (s.first.x ∷ s.first.y ∷ s.second.x ∷ s.second.y ∷ [])),
  read_step-numbers s f,
)
