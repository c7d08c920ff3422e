-- ===== src/Consix/Scan/Shape.antt =====
-- The length of a shape, which `ValuateShape` reads off the highest bit of its style.
use chess_set.Base.{
  ℕ, zero, suc, ◌+◌, ◌-◌, ◌*◌, ◌%◌, ◌^◌, ◌≤◌, ◌<◌, ◌≡◌, ◌∙◌, ap, true, false, leb, arith,
}
use native.Mathlib.Nat.{two-pow-succ}
use chess_set.Consix.Scan.{top_loop, shape_len}

pub pow_pos : (a : ℕ) → 1 ≤ 2 ^ a
pow_pos zero = omega arith
pow_pos (suc a) = omega (arith, pow_pos a, two-pow-succ a)

pub pow_add : (a b : ℕ) → 2 ^ a * 2 ^ b ≡ 2 ^ (a + b)
pow_add zero b = let e : 0 + b ≡ b = omega arith in rw e (omega arith)
pow_add (suc a) b =
    let e : suc a + b ≡ suc (a + b) = omega arith in
    rw (e, two-pow-succ, two-pow-succ) (grind (arith, pow_add a b))

high_bit : (a : ℕ) → 2 ^ 31 ≤ a → a < 2 ^ 32 → leb (2 ^ 31) (a % 2 ^ 32) ≡ true
high_bit a lo hi = ground arith

low_bit : (a : ℕ) → a < 2 ^ 31 → leb (2 ^ 31) (a % 2 ^ 32) ≡ false
low_bit a hi = ground arith

shift_more : (style i d : ℕ) → style * 2 ^ i * 2 ^ suc d ≡ style * 2 ^ suc i * 2 ^ d
shift_more style i d = rw (two-pow-succ, two-pow-succ) (omega arith)

at_least_two : (a b : ℕ) → 2 ≤ b → a * 2 ≤ a * b
at_least_two a b h = grind arith

-- A style that is `d` shifts below bit 31 is yet below it while `d` is positive.
below : (a d : ℕ) → a * 2 ^ suc d < 2 ^ 32 → a < 2 ^ 31
below a d h =
    let e = two-pow-succ d in
    let p = pow_pos d in
    let m : a * 2 ≤ a * 2 ^ suc d = at_least_two a (2 ^ suc d) (omega arith) in omega arith

-- Shifted by `i`, the style still has `d` shifts to go to bit 31.
top_loop_lem :
    (d count i style : ℕ)
    → d < count
    → 2 ^ 31 ≤ style * 2 ^ i * 2 ^ d
    → style * 2 ^ i * 2 ^ d < 2 ^ 32
    → top_loop count i style ≡ i + d
unfolding top_loop
top_loop_lem d zero i style h lo hi = absurd (omega arith)
top_loop_lem zero (suc count) i style h lo hi =
    let test = high_bit (style * 2 ^ i) (omega arith) (omega arith) in rw test (omega arith)
top_loop_lem (suc d) (suc count) i style h lo hi =
    let test = low_bit (style * 2 ^ i) (below (style * 2 ^ i) d hi) in
    let more = shift_more style i d in
    rw test (
      top_loop_lem d count (suc i) style (omega arith) (rw more at lo) (rw more at hi)
      ∙ omega arith)

scaled : (n l p : ℕ) → l * p ≡ 2 ^ 31 → l ≤ n → n < l + l → (2 ^ 31 ≤ n * p) × (n * p < 2 ^ 32)
scaled n l p e lo hi =
    let m : l * p ≤ n * p = grind arith in
    let p0 : 1 ≤ p = positive p l e in
    let k : (n + 1) * p ≤ (l + l) * p = times (n + 1) (l + l) p (omega arith) in
    (omega arith, omega arith)
  where
    times : (a b c : ℕ) → a ≤ b → a * c ≤ b * c
    times a b c h = grind arith

    positive : (p l : ℕ) → l * p ≡ 2 ^ 31 → 1 ≤ p
    positive zero l e = absurd (omega arith)
    positive (suc p) l e = omega arith

-- For a shape of fewer than 30 squares, whose stones are the bits of `style` below `len`, the loop over
-- the shifted value finds its length.
pub shape_len-eq : (len style : ℕ) → len < 30 → style < 2 ^ len → shape_len (2 ^ len + style) ≡ len
unfolding shape_len
shape_len-eq len style h s =
    let n = 2 ^ len + style in
    let whole : len + suc (30 - len) ≡ 31 = omega arith in
    let total : 2 ^ len * 2 ^ suc (30 - len) ≡ 2 ^ 31 =
      pow_add len (suc (30 - len)) ∙ ap (λ k. 2 ^ k) whole in
    let range = scaled n (2 ^ len) (2 ^ suc (30 - len)) total (omega arith) (omega arith) in
    let moved = shift_more n 0 (30 - len) in
    let stops = top_loop_lem (30 - len) 31 1 n (omega arith) (omega arith) (omega arith) in
    omega arith
