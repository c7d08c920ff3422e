-- ===== src/Base/Xor.antt =====
-- The laws of `^` on 64-bit keys, from the digit recursion that the native operation stands for.
use Prim.Native.Nat.{
  ℕ, zero, suc, ◌+◌, ◌*◌, ◌/◌, ◌%◌, ◌≤◌, ◌<◌, digits, bit_xor, bit_xor-bitwise, differ,
}
use mathlib.Core.Path.{◌≡◌, refl, sym, ◌∙◌, ap}
use mathlib.Core.Logic.{◌⊎◌, inl, inr}
use native.Mathlib.Omega.{arith}

abbrev xor_digits : ℕ → ℕ → ℕ → ℕ
xor_digits n a b = digits (λ b. b) differ n a b

xor_digits_fuel : (n m a b : ℕ) → a ≤ n → a ≤ m → xor_digits n a b ≡ xor_digits m a b
xor_digits_fuel zero zero a b p q = refl
xor_digits_fuel zero (suc m) zero b p q = refl
xor_digits_fuel zero (suc m) (suc a) b p q = absurd (omega arith)
xor_digits_fuel (suc n) zero zero b p q = refl
xor_digits_fuel (suc n) zero (suc a) b p q = absurd (omega arith)
xor_digits_fuel (suc n) (suc m) zero b p q = refl
xor_digits_fuel (suc n) (suc m) (suc a) b p q =
    ap (λ k. k * 2 + differ (suc a % 2) (b % 2))
      (xor_digits_fuel n m (suc a / 2) (b / 2) (omega arith) (omega arith))

pub zero-xor : (b : ℕ) → bit_xor 0 b ≡ b
zero-xor b = bit_xor-bitwise 0 b

differ-zero : (b : ℕ) → differ 0 b ≡ b
differ-zero b = refl

xor_step : (a b : ℕ) → bit_xor a b ≡ bit_xor (a / 2) (b / 2) * 2 + differ (a % 2) (b % 2)
xor_step zero b = omega (arith, zero-xor b, zero-xor (b / 2))
xor_step (suc a) b =
    bit_xor-bitwise (suc a) b
    ∙ ap (λ k. k * 2 + differ (suc a % 2) (b % 2))
        (xor_digits_fuel a (suc a / 2) (suc a / 2) (b / 2) (omega arith) (omega arith)
          ∙ sym (bit_xor-bitwise (suc a / 2) (b / 2)))

bit_cases : (a : ℕ) → (a % 2 ≡ 0) ⊎ (a % 2 ≡ 1)
bit_cases a = omega arith

differ-lt : (a b : ℕ) → differ (a % 2) (b % 2) < 2
differ-lt a b = elim (bit_cases a) [
  | inl p ↦ rw p (omega arith)
  | inr p ↦ elim (bit_cases b) [ inl q ↦ rw (p, q) (omega arith) | inr q ↦ rw (p, q) (omega arith) ]
]

xor_half : (a b : ℕ) → bit_xor a b / 2 ≡ bit_xor (a / 2) (b / 2)
xor_half a b = omega (arith, xor_step a b, differ-lt a b)

xor_bit : (a b : ℕ) → bit_xor a b % 2 ≡ differ (a % 2) (b % 2)
xor_bit a b = omega (arith, xor_step a b, differ-lt a b)

differ_comm : (a b : ℕ) → differ (a % 2) (b % 2) ≡ differ (b % 2) (a % 2)
differ_comm a b = elim (bit_cases a) [
  | inl p ↦ elim (bit_cases b) [ inl q ↦ rw (p, q) | inr q ↦ rw (p, q) ]
  | inr p ↦ elim (bit_cases b) [ inl q ↦ rw (p, q) | inr q ↦ rw (p, q) ]
]

differ_cancel : (a b : ℕ) → differ (differ (a % 2) (b % 2)) (b % 2) ≡ a % 2
differ_cancel a b = elim (bit_cases a) [
  | inl p ↦ elim (bit_cases b) [ inl q ↦ rw (p, q) | inr q ↦ rw (p, q) ]
  | inr p ↦ elim (bit_cases b) [ inl q ↦ rw (p, q) | inr q ↦ rw (p, q) ]
]

differ_swap :
    (a b c : ℕ) → differ (differ (a % 2) (b % 2)) (c % 2) ≡ differ (differ (a % 2) (c % 2)) (b % 2)
differ_swap a b c = elim (bit_cases b) [
  | inl q ↦ elim (bit_cases a) [
    | inl p ↦ elim (bit_cases c) [ inl r ↦ rw (p, q, r) | inr r ↦ rw (p, q, r) ]
    | inr p ↦ elim (bit_cases c) [ inl r ↦ rw (p, q, r) | inr r ↦ rw (p, q, r) ]
  ]
  | inr q ↦ elim (bit_cases a) [
    | inl p ↦ elim (bit_cases c) [ inl r ↦ rw (p, q, r) | inr r ↦ rw (p, q, r) ]
    | inr p ↦ elim (bit_cases c) [ inl r ↦ rw (p, q, r) | inr r ↦ rw (p, q, r) ]
  ]
]

-- Numbers with the same half and the same last digit are equal.
by_digits : (a b : ℕ) → a / 2 ≡ b / 2 → a % 2 ≡ b % 2 → a ≡ b
by_digits a b h k = omega arith

comm_fuel : (n a b : ℕ) → a ≤ n → b ≤ n → bit_xor a b ≡ bit_xor b a
comm_fuel zero a b p q = let a0 : a ≡ 0 = omega arith in let b0 : b ≡ 0 = omega arith in rw (a0, b0)
comm_fuel (suc n) a b p q =
    by_digits _ _
      (xor_half a b ∙ comm_fuel n (a / 2) (b / 2) (omega arith) (omega arith) ∙ sym (xor_half b a))
      (xor_bit a b ∙ differ_comm a b ∙ sym (xor_bit b a))

pub xor_comm : (a b : ℕ) → bit_xor a b ≡ bit_xor b a
xor_comm a b = comm_fuel (a + b) a b (omega arith) (omega arith)

cancel_fuel : (n a b : ℕ) → a ≤ n → b ≤ n → bit_xor (bit_xor a b) b ≡ a
cancel_fuel zero a b p q =
    let a0 : a ≡ 0 = omega arith in let b0 : b ≡ 0 = omega arith in rw (a0, b0)
cancel_fuel (suc n) a b p q =
    by_digits _ _
      (xor_half (bit_xor a b) b
        ∙ rw (xor_half a b) (cancel_fuel n (a / 2) (b / 2) (omega arith) (omega arith)))
      (xor_bit (bit_xor a b) b ∙ rw (xor_bit a b) (differ_cancel a b))

-- Taking a key in a second time takes it out.
pub xor_cancel : (a b : ℕ) → bit_xor (bit_xor a b) b ≡ a
xor_cancel a b = cancel_fuel (a + b) a b (omega arith) (omega arith)

swap_fuel :
    (n a b c : ℕ) → a ≤ n → b ≤ n → c ≤ n → bit_xor (bit_xor a b) c ≡ bit_xor (bit_xor a c) b
swap_fuel zero a b c p q r =
    let a0 : a ≡ 0 = omega arith in
    let b0 : b ≡ 0 = omega arith in let c0 : c ≡ 0 = omega arith in rw (a0, b0, c0)
swap_fuel (suc n) a b c p q r =
    by_digits _ _
      (rw (xor_half, xor_half)
        (swap_fuel n (a / 2) (b / 2) (c / 2) (omega arith) (omega arith) (omega arith)
          ∙ sym (xor_half (bit_xor a c) b ∙ ap (λ k. bit_xor k (b / 2)) (xor_half a c))))
      (xor_bit (bit_xor a b) c
        ∙ rw (xor_bit a b) (differ_swap a b c ∙ rw (← xor_bit a c) (sym (xor_bit (bit_xor a c) b))))

-- The order in which keys are taken in does not matter.
pub xor_swap : (a b c : ℕ) → bit_xor (bit_xor a b) c ≡ bit_xor (bit_xor a c) b
xor_swap a b c = swap_fuel (a + b + c) a b c (omega arith) (omega arith) (omega arith)
