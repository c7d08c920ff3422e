-- ===== src/Websocket/Frame/Parse.antt =====
-- `parseMessage` gives back what a client has framed.
use chess_set.Base.{
  ℕ, zero, suc, ◌+◌, ◌-◌, ◌%◌, ◌≤◌, ◌≡◌, refl, sym, ◌∙◌, ap, ap₂, inl, inr, true, false, Bool-cases,
  List, [], ◌∷◌, ◌++◌, append-nil, append_assoc, if◌then◌else◌, ltb, leb, ◌==◌, ltb→lt, ltb→le,
  lt→ltb, le→ltb, leb→le, le→leb, ≡→==, length, take, drop, length-append, take_all, drop_all,
  take-append, drop-append, arith,
}
use chess_set.Common.Util.{Bytes}
use chess_set.Websocket.Frame.{
  Message, continue, max_message, zeros, copy_at, unmask, big_endian, status, finish, parse_body,
  parse_message, message_new,
}
use chess_set.Websocket.Frame.Mask.{unmask-unmask, length-unmask, two_bytes, eight_bytes}

-- The head of a client's frame, as RFC 6455 lays it out: the opcode, the length with the mask bit,
-- the longer forms of the length, and the mask.
abbrev pub frame_head : ℕ → Bytes → ℕ → Bytes
frame_head opcode mask n =
    if leb n 125
    then opcode ∷ (128 + n) ∷ mask
    else if leb n 65535
    then opcode ∷ 254 ∷ (big_endian 2 n ++ mask)
    else opcode ∷ 255 ∷ (big_endian 8 n ++ mask)

abbrev pub client_frame : ℕ → Bytes → Bytes → Bytes
client_frame opcode mask payload = frame_head opcode mask (length payload) ++ unmask mask 0 payload

length-zeros : (n : ℕ) → length (zeros n) ≡ n
length-zeros zero = refl
length-zeros (suc n) = ap suc (length-zeros n)

-- Copying over all of a buffer.
copy_at_all : (bs : Bytes) → copy_at (zeros (length bs)) 0 bs ≡ bs
unfolding copy_at
copy_at_all bs =
    let size = length-zeros (length bs) in
    ap (λ t. bs ++ t) (drop_all (0 + length bs) (zeros (length bs)) (omega arith)) ∙ append-nil bs

-- The message that a parsed frame leaves.
abbrev pub parsed : Message → Bytes → Bytes → Bytes → Message
parsed m mask payload extra = record m {
  mask = mask;
  len = length payload;
  msg = payload;
  next = if ltb 0 (length extra) then extra else m.next;
  next_len = if ltb 0 (length extra) then length extra else m.next_len;
}

module _ (chunks : List Bytes) (head payload extra : Bytes) (m : Message)
    (same : m.len ≡ length payload) where
  abbrev framed : Bytes
  framed = head ++ (unmask m.mask 0 payload ++ extra)

  framed_size : length framed ≡ length head + (m.len + length extra)
  framed_size =
      let a = length-append head (unmask m.mask 0 payload ++ extra) in
      let b = length-append (unmask m.mask 0 payload) extra in
      let c = length-unmask m.mask 0 payload in omega arith

  behind_head : drop (length head) framed ≡ unmask m.mask 0 payload ++ extra
  behind_head =
      let e : length head ≡ length head + 0 = omega arith in
      ap (λ k. drop k framed) e ∙ drop-append head (unmask m.mask 0 payload ++ extra) 0

  the_body : take m.len (drop (length head) framed) ≡ unmask m.mask 0 payload
  the_body =
      ap₂ take (same ∙ sym (length-unmask m.mask 0 payload)) behind_head
      ∙ take-append (unmask m.mask 0 payload) extra

  behind_body : drop (m.len + length head) framed ≡ extra
  behind_body =
      let size = length-unmask m.mask 0 payload in
      let e : m.len + length head ≡ length head + (length (unmask m.mask 0 payload) + 0) =
        omega arith in
      ap (λ k. drop k framed) e
      ∙ drop-append head (unmask m.mask 0 payload ++ extra) _
      ∙ drop-append (unmask m.mask 0 payload) extra 0

  copied : copy_at (zeros m.len) 0 (unmask m.mask 0 payload) ≡ unmask m.mask 0 payload
  copied =
      ap (λ k. copy_at (zeros k) 0 (unmask m.mask 0 payload))
        (same ∙ sym (length-unmask m.mask 0 payload))
      ∙ copy_at_all (unmask m.mask 0 payload)

  unmasked : unmask m.mask 0 (take m.len (unmask m.mask 0 payload)) ≡ payload
  unmasked =
      let size = length-unmask m.mask 0 payload in
      ap (unmask m.mask 0) (take_all m.len (unmask m.mask 0 payload) (omega arith))
      ∙ unmask-unmask m.mask 0 payload

  buf_len : length framed - length head ≡ m.len + length extra
  buf_len = let size = framed_size in omega arith

  -- A frame that is in the buffer as a whole, with what comes behind it.
  pub parse_body_lem :
      parse_body chunks framed 0 (length head) m
      ≡ status continue
          (record m {
            msg = payload;
            next = if ltb 0 (length extra) then extra else m.next;
            next_len = if ltb 0 (length extra) then length extra else m.next_len;
          })
          chunks
  unfolding parse_body finish
  parse_body_lem =
      let size = framed_size in
      let enough : ltb (length framed) (length head) ≡ false = le→ltb _ _ (omega arith) in
      let z : 0 + m.len ≡ m.len = omega arith in
      let fits : ltb m.len m.len ≡ false = le→ltb m.len m.len (omega arith) in
      let in_room : ltb (m.len + 1) m.len ≡ false = le→ltb (m.len + 1) m.len (omega arith) in
      let all : (m.len == m.len) ≡ true = ≡→== m.len m.len refl in
      elim (Bool-cases (ltb 0 (length extra))) [
        | inl e ↦
            let e' = ltb→lt 0 (length extra) e in
            let more : ltb m.len (m.len + length extra) ≡ true = lt→ltb _ _ (omega arith) in
            let left : m.len + length extra - m.len ≡ length extra = omega arith in
            rw
              (
                buf_len, more, z, enough, in_room, fits, e, the_body, copied, behind_body, left,
                all, unmasked,
              )
              refl
        | inr e ↦
            let e' = ltb→le 0 (length extra) e in
            let none_left : m.len + length extra ≡ m.len = omega arith in
            rw
              (
                buf_len, none_left, fits, z, in_room, enough, fits, e, the_body, copied, all,
                unmasked,
              )
              refl
      ]

module _ (chunks : List Bytes) (opcode a b c d : ℕ) (payload extra : Bytes)
    (small : length payload ≤ max_message) where
  abbrev the_mask : Bytes
  the_mask = a ∷ b ∷ c ∷ d ∷ []

  abbrev Result : Bytes → Type 0
  Result head =
      parse_message chunks (head ++ (unmask the_mask 0 payload ++ extra)) message_new
      ≡ status continue (parsed message_new the_mask payload extra) chunks

  abbrev with_head : Message
  with_head = record message_new { len = length payload; mask = the_mask }

  whole_len : (0 + length payload) % 18446744073709551616 ≡ length payload
  whole_len = omega arith

  not_big : ltb max_message (length payload) ≡ false
  not_big = le→ltb _ _ small

  short_frame : length payload ≤ 125 → Result (opcode ∷ (128 + length payload) ∷ the_mask)
  unfolding parse_message
  short_frame h =
      let head = opcode ∷ (128 + length payload) ∷ the_mask in
      let short : (128 + length payload) % 128 ≡ length payload = omega arith in
      let at_most : leb (length payload) 125 ≡ true = le→leb _ _ h in
      let has_mask : ltb (128 + length payload) 128 ≡ false = le→ltb _ _ (omega arith) in
      rw (short, at_most, has_mask, whole_len, not_big)
        (parse_body_lem chunks head payload extra with_head refl)

  middle_frame :
      length payload ≤ 65535 → Result (opcode ∷ 254 ∷ (big_endian 2 (length payload) ++ the_mask))
  unfolding parse_message big_endian
  middle_frame h =
      let head = opcode ∷ 254 ∷ (big_endian 2 (length payload) ++ the_mask) in
      rw (two_bytes (length payload) (omega arith), whole_len, not_big)
        (parse_body_lem chunks head payload extra with_head refl)

  long_frame : Result (opcode ∷ 255 ∷ (big_endian 8 (length payload) ++ the_mask))
  unfolding parse_message big_endian
  long_frame =
      let head = opcode ∷ 255 ∷ (big_endian 8 (length payload) ++ the_mask) in
      rw (eight_bytes (length payload) (omega arith), whole_len, not_big)
        (parse_body_lem chunks head payload extra with_head refl)

  -- When the buffer starts with a client's frame with a mask and at most MAXMESSAGE bytes,
  -- whichever of the three forms its length has, and it is the first of its message,
  -- `parseMessage` continues with the payload as the message, without its mask, and with the
  -- bytes behind the frame as the start of the next one.
  pub parse_message-client_frame :
      parse_message chunks (client_frame opcode the_mask payload ++ extra) message_new
      ≡ status continue (parsed message_new the_mask payload extra) chunks
  parse_message-client_frame =
      ap (λ t. parse_message chunks t message_new)
        (append_assoc (frame_head opcode the_mask (length payload)) (unmask the_mask 0 payload)
          extra)
      ∙ elim (Bool-cases (leb (length payload) 125)) [
        | inl e ↦ rw e (short_frame (leb→le _ _ e))
        | inr e ↦ elim (Bool-cases (leb (length payload) 65535)) [
          | inl k ↦ rw (e, k) (middle_frame (leb→le _ _ k))
          | inr k ↦ rw (e, k) long_frame
        ]
      ]
