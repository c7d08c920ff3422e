-- ===== src/Common/Format/Print.antt =====
-- A number that `%d` prints is read back by `%d`, up to what follows it.
use chess_set.Base.{
  ℕ, zero, suc, ◌+◌, ◌*◌, ◌/◌, ◌%◌, ◌≤◌, ◌<◌, true, false, ◌≡◌, refl, sym, ap, ◌∙◌, List, [], ◌∷◌,
  ◌++◌, append-nil, length, none, some, ltb, ◌==◌, arith, inl, inr, Bool-cases, if_true, if_false,
  ltb→lt, ltb→le,
}
use chess_set.Base.Int.{ℤ, pos, negsuc, ◌-ℤ◌}
use chess_set.Common.Util.{Bytes}
use chess_set.Common.Format.{
  is_digit, is_space, scan_digits, scan_nat, signed, scan_int, print_nat, print_int, sscanf,
}

-- What follows a number is no digit.
abbrev pub Stops : Bytes → Type 0
Stops [] = Unit
Stops (c ∷ cs) = is_digit c ≡ false

digit-is_digit : (n : ℕ) → is_digit (n % 10 + 48) ≡ true
digit-is_digit n = ground arith

-- A printed digit, read.
read_digit :
    (n m : ℕ) (cs : Bytes) → scan_digits m ((n % 10 + 48) ∷ cs) ≡ scan_digits (m * 10 + n % 10) cs
unfolding scan_digits
read_digit n m cs =
    if_true (is_digit (n % 10 + 48)) _ (m, (n % 10 + 48) ∷ cs) (digit-is_digit n)
    ∙ ap (λ k. scan_digits k cs) (omega arith)

small : (n : ℕ) → n < 10 → 0 * 10 + n % 10 ≡ n
small n h = omega arith

whole : (n : ℕ) → n / 10 * 10 + n % 10 ≡ n
whole n = omega arith

-- Printing before `tail`, and reading from 0, goes on with `tail` from the number.
scan-print_nat :
    (fuel n : ℕ) (tail : Bytes)
    → n ≤ fuel
    → scan_digits 0 (print_nat fuel n tail) ≡ scan_digits n tail
unfolding print_nat
scan-print_nat zero n tail h =
    read_digit n 0 tail ∙ ap (λ k. scan_digits k tail) (small n (omega arith))
scan-print_nat (suc fuel) n tail h = elim (Bool-cases (ltb n 10)) [
  | inl e ↦ rw e (read_digit n 0 tail ∙ ap (λ k. scan_digits k tail) (small n (ltb→lt n 10 e)))
  | inr e ↦ rw e (
      scan-print_nat fuel (n / 10) ((n % 10 + 48) ∷ tail) (smaller n fuel h (ltb→le n 10 e))
      ∙ read_digit n (n / 10) tail
      ∙ ap (λ k. scan_digits k tail) (whole n))
]
  where
    smaller : (n fuel : ℕ) → n ≤ suc fuel → 10 ≤ n → n / 10 ≤ fuel
    smaller n fuel h k = omega arith

-- What is printed starts with a digit.
print_nat_head :
    (fuel n : ℕ) (tail : Bytes)
    → (d : ℕ) × (cs : Bytes) × (print_nat fuel n tail ≡ (d % 10 + 48) ∷ cs)
unfolding print_nat
print_nat_head zero n tail = (n, tail, refl)
print_nat_head (suc fuel) n tail = elim (Bool-cases (ltb n 10)) [
  | inl e ↦ rw e (n, tail, refl)
  | inr e ↦ rw e (print_nat_head fuel (n / 10) ((n % 10 + 48) ∷ tail))
]

print_nat-append :
    (fuel n : ℕ) (tail rest : Bytes)
    → print_nat fuel n tail ++ rest ≡ print_nat fuel n (tail ++ rest)
unfolding print_nat
print_nat-append zero n tail rest = refl
print_nat-append (suc fuel) n tail rest = elim (Bool-cases (ltb n 10)) [
  | inl e ↦ rw e refl
  | inr e ↦ rw e (print_nat-append fuel (n / 10) ((n % 10 + 48) ∷ tail) rest)
]

scan-Stops : (n : ℕ) (rest : Bytes) → Stops rest → scan_digits n rest ≡ (n, rest)
unfolding scan_digits
scan-Stops n [] h = refl
scan-Stops n (c ∷ cs) h = if_false (is_digit c) _ (n, c ∷ cs) h

scan_nat-print_nat :
    (n : ℕ) (rest : Bytes) → Stops rest → scan_nat (print_nat n n rest) ≡ some (n, rest)
unfolding scan_nat
scan_nat-print_nat n rest h =
    let (d, cs, e) = print_nat_head n n rest in
    rw e (
      if_true (is_digit (d % 10 + 48)) _ none (digit-is_digit d)
      ∙ ap some (rw⁻¹ e (scan-print_nat n n rest (omega arith) ∙ scan-Stops n rest h)))

no_sign :
    (d : ℕ)
    → (is_space (d % 10 + 48) ≡ false)
      × ((d % 10 + 48 == 45) ≡ false)
      × ((d % 10 + 48 == 43) ≡ false)
no_sign d = ground arith

scan_int_digit :
    (d : ℕ) (cs : Bytes)
    → scan_int ((d % 10 + 48) ∷ cs) ≡ signed false (scan_nat ((d % 10 + 48) ∷ cs))
unfolding scan_int
scan_int_digit d cs =
    let n = no_sign d in
    if_false (is_space (d % 10 + 48)) _ _ n.0
    ∙ if_false (d % 10 + 48 == 45) _ _ n.1
    ∙ if_false (d % 10 + 48 == 43) _ _ n.2

minus_suc : (n : ℕ) → pos 0 -ℤ pos (suc n) ≡ negsuc n
unfolding ◌-ℤ◌
minus_suc n = ground arith

scan_minus : (cs : Bytes) → scan_int (45 ∷ cs) ≡ signed true (scan_nat cs)
unfolding scan_int
scan_minus cs = refl

-- `%d` reads back what `%d` has printed, and stops before a text that starts with no digit.
pub scan_int-print_int :
    (z : ℤ) (rest : Bytes) → Stops rest → scan_int (print_int z ++ rest) ≡ some (z, rest)
unfolding print_int
scan_int-print_int (pos n) rest h =
    let (d, cs, e) = print_nat_head n n rest in
    let got : scan_nat ((d % 10 + 48) ∷ cs) ≡ some (n, rest) =
      ap scan_nat (sym e) ∙ scan_nat-print_nat n rest h in
    ap scan_int (print_nat-append n n [] rest ∙ e) ∙ scan_int_digit d cs ∙ ap (signed false) got
scan_int-print_int (negsuc n) rest h =
    scan_minus (print_nat (suc n) (suc n) [] ++ rest)
    ∙ ap (λ t. signed true (scan_nat t)) (print_nat-append (suc n) (suc n) [] rest)
    ∙ ap (signed true) (scan_nat-print_nat (suc n) rest h)
    ∙ ap (λ z. some (z, rest)) (minus_suc n)

-- Numbers printed with commas between them.
unfoldable pub print_ints : ℤ → List ℤ → Bytes
print_ints z [] = print_int z
print_ints z (y ∷ ys) = print_int z ++ 44 ∷ print_ints y ys

scanned_last :
    (n : ℕ) (cs : Bytes) (v : ℤ) → scan_int cs ≡ some (v, []) → sscanf (suc n) cs ≡ v ∷ []
unfolding sscanf
scanned_last n cs v h = rw (h, sscanf) refl

scanned_more :
    (n : ℕ) (cs more : Bytes) (v : ℤ)
    → scan_int cs ≡ some (v, 44 ∷ more)
    → sscanf (suc n) cs ≡ v ∷ sscanf n more
unfolding sscanf
scanned_more n cs more v h = rw (h, sscanf) refl

-- `sscanf` of as many `%d` with commas reads back numbers that are printed so.
pub sscanf-print_ints : (z : ℤ) (ys : List ℤ) → sscanf (suc (length ys)) (print_ints z ys) ≡ z ∷ ys
unfolding print_ints
sscanf-print_ints z [] =
    scanned_last 0 (print_int z) z
      (ap scan_int (sym (append-nil (print_int z))) ∙ scan_int-print_int z [] tt)
sscanf-print_ints z (y ∷ ys) =
    scanned_more (suc (length ys)) (print_int z ++ 44 ∷ print_ints y ys) (print_ints y ys) z
      (scan_int-print_int z (44 ∷ print_ints y ys) refl)
    ∙ ap (λ l. z ∷ l) (sscanf-print_ints y ys)
