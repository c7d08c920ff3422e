-- ===== src/Websocket/Frame/Mask.antt =====
-- The mask of a message, and the bytes of its length.
use chess_set.Base.{ℕ, suc, ◌%◌, ◌<◌, ◌≡◌, refl, ap, ap₂, [], ◌∷◌, length, get_or, arith}
use chess_set.Base.Xor.{xor_cancel}
use chess_set.Common.Util.{Bytes}
use chess_set.Websocket.Frame.{unmask, big_endian, from_big_endian}

-- Masking twice with the same mask changes nothing.
pub unmask-unmask : (mask : Bytes) (j : ℕ) (bs : Bytes) → unmask mask j (unmask mask j bs) ≡ bs
unfolding unmask
unmask-unmask mask j [] = refl
unmask-unmask mask j (b ∷ bs) =
    ap₂ ◌∷◌ (xor_cancel b (get_or mask (j % 4) 0)) (unmask-unmask mask (suc j) bs)

pub length-unmask : (mask : Bytes) (j : ℕ) (bs : Bytes) → length (unmask mask j bs) ≡ length bs
unfolding unmask
length-unmask mask j [] = refl
length-unmask mask j (b ∷ bs) = ap suc (length-unmask mask (suc j) bs)

pub two_bytes : (n : ℕ) → n < 65536 → from_big_endian 0 (big_endian 2 n) ≡ n
unfolding from_big_endian big_endian
two_bytes n h = omega arith

pub eight_bytes : (n : ℕ) → n < 18446744073709551616 → from_big_endian 0 (big_endian 8 n) ≡ n
unfolding from_big_endian big_endian
eight_bytes n h = omega arith
