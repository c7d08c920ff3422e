-- ===== src/Common/Socket/Wire.antt =====
-- A message that `socket_send` puts on the stream is what `socket_recv` reads from it, however the
-- stream is cut into calls.
use chess_set.Base.{
  ℕ, ◌+◌, ◌-◌, ◌^◌, ◌≤◌, ◌<◌, min, ◌≡◌, refl, sym, ◌∙◌, ap, ap₂, inl, inr, false, Bool-cases, List,
  [], ◌∷◌, ◌++◌, append_assoc, ltb, leb, ◌==◌, length, take, drop, length-take, length-drop,
  length-append, take_all, take_add, take-append, le→ltb, ≢→==, leb→le, leb→lt, lt→leb, take-drop,
  drop-drop, drop-append, All, arith,
}
use chess_set.Base.Int.{pos}
use chess_set.Common.Util.{Bytes}
use chess_set.Common.Socket.{
  Reply, failed, upto, htonl, ntohl, returns, send_loop, socket_send, received, recv_loop,
  socket_recv,
}

-- How much a call takes or gives at most.
abbrev pub room : Reply → ℕ
room failed = 0
room (upto r) = r

-- The call makes progress.
abbrev pub Open : Reply → Type 0
Open r = 0 < room r

-- Enough calls that make progress send all of the buffer.
send_loop_lem :
    (rs : List Reply) (buf : Bytes) (w : ℕ) (wire : Bytes)
    → w < length buf
    → All Open rs
    → length buf ≤ w + length rs
    → send_loop rs buf w wire ≡ returns (pos 0) (wire ++ drop w buf)
unfolding send_loop
send_loop_lem [] buf w wire l o n = absurd (omega arith)
send_loop_lem (failed ∷ rs) buf w wire l (o, os) n = absurd (omega arith)
send_loop_lem (upto r ∷ rs) buf w wire l (o, os) n =
    elim (Bool-cases (leb (length buf) (w + min r (length buf - w)))) [
      | inl e ↦
          let enough = leb→le _ _ e in
          let size = length-drop w buf in
          rw e (ap (λ t. returns (pos 0) (wire ++ t)) (take_all r (drop w buf) (omega arith)))
      | inr e ↦
          let short = leb→lt _ _ e in
          let step : w + min r (length buf - w) ≡ w + r = omega arith in
          rw (e, step)
            (send_loop_lem rs buf (w + r) (wire ++ take r (drop w buf)) (omega arith) os
                (omega arith)
              ∙ ap (returns (pos 0)) (
                  append_assoc wire (take r (drop w buf)) (drop (w + r) buf)
                  ∙ ap (λ t. wire ++ t)
                      (ap (λ t. take r (drop w buf) ++ t) (sym (drop-drop w r buf))
                        ∙ take-drop r (drop w buf))))
    ]

-- A message is read off the stream when the calls cut it into pieces in any way.
recv_loop_lem :
    (rs : List Reply) (n : ℕ) (buf stream : Bytes)
    → length buf < n
    → All Open rs
    → n ≤ length buf + length rs
    → n ≤ length buf + length stream
    → recv_loop rs n buf stream
      ≡ received (pos 0) (buf ++ take (n - length buf) stream) (drop (n - length buf) stream)
unfolding recv_loop
recv_loop_lem [] n buf stream l o e s = absurd (omega arith)
recv_loop_lem (failed ∷ rs) n buf stream l (o, os) e s = absurd (omega arith)
recv_loop_lem (upto r ∷ rs) n buf stream l (o, os) e s =
    let k = min r (n - length buf) in
    let size : length (buf ++ take k stream) ≡ length buf + k =
      length-append buf (take k stream)
      ∙ ap (λ t. length buf + t) (length-take k stream)
      ∙ (omega arith) in
    elim (Bool-cases (leb n (length (buf ++ take k stream)))) [
      | inl t ↦
          let enough = leb→le _ _ t in
          let whole : k ≡ n - length buf = omega arith in
          rw t (ap₂ (λ a b. received (pos 0) (buf ++ take a stream) (drop b stream)) whole whole)
      | inr t ↦
          let short = leb→lt _ _ t in
          let left = length-drop k stream in
          rw t (
            recv_loop_lem rs n (buf ++ take k stream) (drop k stream) (omega arith) os (omega arith)
              (omega arith)
            ∙ ap₂ (λ a b. received (pos 0) a b)
                (append_assoc buf (take k stream) _
                  ∙ ap (λ t. buf ++ t)
                      (take_add k _ stream ∙ ap (λ j. take j stream) (omega arith)))
                (drop-drop k _ stream ∙ ap (λ j. drop j stream) (omega arith)))
    ]

-- The four bytes of a length give the length back.
ntohl-htonl : (n : ℕ) → n < 2 ^ 32 → ntohl (htonl n) ≡ n
unfolding ntohl htonl
ntohl-htonl n h = omega arith

-- The stream that a message is.
abbrev pub message : Bytes → Bytes
message buf = htonl (length buf) ++ buf

length-htonl : (n : ℕ) → length (htonl n) ≡ 4
unfolding htonl
length-htonl n = refl

-- When the call for the length takes its four bytes, every later call takes at least one, and
-- there are as many calls as bytes, `socket_send` of a buffer that is not empty returns 0 and
-- has put the length and the buffer on the stream.
pub socket_send_lem :
    (r : ℕ) (rs : List Reply) (buf : Bytes)
    → 4 ≤ r
    → 0 < length buf
    → All Open rs
    → length buf ≤ length rs
    → socket_send (upto r ∷ rs) buf ≡ returns (pos 0) (message buf)
unfolding socket_send
socket_send_lem r rs [] h l o n = absurd (omega arith)
socket_send_lem r rs (b ∷ bs) h l o n =
    let r0 : (r == 0) ≡ false = ≢→== r 0 (omega arith) in
    let r4 : ltb r 4 ≡ false = le→ltb r 4 h in
    let four = length-htonl (length (b ∷ bs)) in
    let whole : take r (htonl (length (b ∷ bs))) ≡ htonl (length (b ∷ bs)) =
      take_all r (htonl (length (b ∷ bs))) (omega arith) in
    rw (r0, r4, whole) (send_loop_lem rs (b ∷ bs) 0 _ l o (omega arith))

-- The start of a stream that a message comes first on.
module _ (r : ℕ) (buf rest : Bytes) (four : 4 ≤ r) where
  header : take (min r 4) (message buf ++ rest) ≡ htonl (length buf)
  unfolding htonl
  header = let e : min r 4 ≡ 4 = omega arith in ap (λ k. take k (message buf ++ rest)) e

  body : drop (min r 4) (message buf ++ rest) ≡ buf ++ rest
  unfolding htonl
  body = let e : min r 4 ≡ 4 = omega arith in ap (λ k. drop k (message buf ++ rest)) e

  -- When a message of at least one and less than 2^31 bytes comes first on the stream, the call
  -- for the length may give four bytes, every later call may give at least one, and there are
  -- as many calls as bytes, `socket_recv` returns 0 and the message, and leaves the rest of the
  -- stream.
  pub socket_recv_lem :
      (rs : List Reply)
      → 0 < length buf
      → length buf < 2 ^ 31
      → All Open rs
      → length buf ≤ length rs
      → socket_recv (upto r ∷ rs) (message buf ++ rest) ≡ received (pos 0) buf rest
  unfolding socket_recv
  socket_recv_lem rs l m o n =
      let number = ntohl-htonl (length buf) (omega arith) in
      let size = length-htonl (length buf) in
      let some_bytes : (length buf == 0) ≡ false = ≢→== (length buf) 0 (omega arith) in
      let small : leb (2 ^ 31) (length buf) ≡ false = lt→leb (2 ^ 31) (length buf) m in
      let all = length-append buf rest in
      let read = recv_loop_lem rs (length buf) [] (buf ++ rest) l o (omega arith) (omega arith) in
      let whole : length buf - 0 ≡ length buf = omega arith in
      rw (header, body, size, number, some_bytes, small)
        (read
          ∙ ap₂ (received (pos 0)) (ap (λ k. take k (buf ++ rest)) whole ∙ take-append buf rest)
              (ap (λ k. drop k (buf ++ rest)) (omega arith) ∙ drop-append buf rest 0))
