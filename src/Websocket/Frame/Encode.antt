-- ===== src/Websocket/Frame/Encode.antt =====
-- What `encodeMessage` makes is a frame that a reader of RFC 6455 takes the message from.
use chess_set.Base.{
  ℕ, ◌<◌, ◌≡◌, refl, inl, inr, Bool-cases, Option, none, some, [], ◌∷◌, ◌++◌, if◌then◌else◌, leb,
  ◌==◌, leb→le, ≡→==, length, take, drop, take_all, arith,
}
use chess_set.Common.Util.{Bytes}
use chess_set.Websocket.Frame.{Message, encode_message, big_endian, from_big_endian}
use chess_set.Websocket.Frame.Mask.{two_bytes, eight_bytes}

-- How a client reads a text frame that is not masked: `none` if it is not one, or not as long as
-- it says.
abbrev pub sized : ℕ → Bytes → Option Bytes
sized n rest = if length rest == n then some rest else none

abbrev pub read_frame : Bytes → Option Bytes
read_frame [] = none
read_frame (op ∷ []) = none
read_frame (op ∷ n ∷ rest) =
    if op == 129
    then if leb n 125
      then sized n rest
      else if n == 126
      then sized (from_big_endian 0 (take 2 rest)) (drop 2 rest)
      else if n == 127
      then sized (from_big_endian 0 (take 8 rest)) (drop 8 rest)
      else none
    else none

sized_own : (n : ℕ) (bs : Bytes) → length bs ≡ n → sized n bs ≡ some bs
sized_own n bs h = rw (≡→== (length bs) n h) refl

-- For a message of `len` bytes, fewer than 2^64: `enc` is `enc_len` bytes long and a frame from which
-- the message is read; and `hybi00` is the message between the bytes 0 and 255.
pub encode_message_lem :
    (m : Message)
    → length m.msg ≡ m.len
    → m.len < 18446744073709551616
    → let e = encode_message m in
      (read_frame e.enc ≡ some m.msg)
      × (length e.enc ≡ e.enc_len)
      × (e.hybi00 ≡ 0 ∷ (m.msg ++ (255 ∷ [])))
      × (e.msg ≡ m.msg)
unfolding encode_message big_endian
encode_message_lem m size bound =
    let whole : take m.len m.msg ≡ m.msg = take_all m.len m.msg (omega arith) in
    elim (Bool-cases (leb m.len 125)) [
      | inl e ↦ rw (whole, e) (rw e (sized_own m.len m.msg size), omega arith, refl, refl)
      | inr e ↦ elim (Bool-cases (leb m.len 65535)) [
        | inl k ↦
            let le = leb→le _ _ k in
            rw (whole, e, k, two_bytes m.len (omega arith))
              (sized_own m.len m.msg size, omega arith, refl, refl)
        | inr k ↦
            rw (whole, e, k, eight_bytes m.len bound)
              (sized_own m.len m.msg size, omega arith, refl, refl)
      ]
    ]
