-- ===== src/Common/Socket.antt =====
-- common/socket_i.c, `socket_send` and `socket_recv`: a message is its length in four bytes, the
-- high byte first, and then its bytes. What the calls of `send` and `recv` answer is a parameter: a
-- call fails, or takes or gives at most so many bytes and at most what is asked for.
pub mod Wire
use package.chess_set.Base.{
  ℕ, zero, suc, ◌+◌, ◌-◌, ◌*◌, ◌/◌, ◌%◌, ◌^◌, min, Bool, true, false, ◌||◌, List, [], ◌∷◌, ◌++◌,
  if◌then◌else◌, ltb, leb, ◌==◌, length, take, drop,
}
use package.chess_set.Base.Int.{ℤ, pos, negsuc}
use package.chess_set.Common.Util.{Bytes}

-- What one call of `send` or `recv` answers.
pub data Reply : Type 0 where
  failed : Reply
  upto : ℕ → Reply

-- `htonl`, as the bytes in memory, and `ntohl` of them.
unfoldable pub htonl : ℕ → Bytes
htonl n = n / 16777216 % 256 ∷ n / 65536 % 256 ∷ n / 256 % 256 ∷ n % 256 ∷ []

unfoldable pub ntohl : Bytes → ℕ
ntohl (a ∷ b ∷ c ∷ d ∷ []) = a * 16777216 + b * 65536 + c * 256 + d
ntohl other = 0

-- How `socket_send` ends, with the bytes that it has put on the stream: it returns a code; it reads
-- before the start of the buffer; or the replies are used up and it still waits.
pub data Sending : Type 0 where
  returns : ℤ → Bytes → Sending
  underrun : Sending
  waiting : Bytes → Sending

-- `while (1) { write_len += send(…); if (write_len >= buf_len) break; }`. A failed call takes one
-- off `write_len`, since -1 is added to it.
unfoldable pub send_loop : List Reply → Bytes → ℕ → Bytes → Sending
send_loop [] buf write_len wire = waiting wire
send_loop (failed ∷ rs) buf zero wire = underrun
send_loop (failed ∷ rs) buf (suc write_len) wire = send_loop rs buf write_len wire
send_loop (upto r ∷ rs) buf write_len wire =
    let wire' = wire ++ take r (drop write_len buf) in
    let write_len' = write_len + min r (length buf - write_len) in
    let rest = send_loop rs buf write_len' wire' in
    if leb (length buf) write_len' then returns (pos 0) wire' else rest

-- The call that sends the length, and then the loop. No buffer is the empty one: both return -1.
unfoldable pub socket_send : List Reply → Bytes → Sending
socket_send rs [] = returns (negsuc 0) []
socket_send [] (b ∷ bs) = waiting []
socket_send (failed ∷ rs) (b ∷ bs) = returns (negsuc 1) []
socket_send (upto r ∷ rs) (b ∷ bs) =
    let wire = take r (htonl (length (b ∷ bs))) in
    let rest = send_loop rs (b ∷ bs) 0 wire in
    if r == 0 then returns (negsuc 2) wire else if ltb r 4 then returns (negsuc 3) wire else rest

-- How `socket_recv` ends: with a code, the buffer and what is left on the stream.
pub data Receiving : Type 0 where
  received : ℤ → Bytes → Bytes → Receiving
  misplaced : Receiving
  starved : Bytes → Receiving

-- The loop of `socket_recv`: `buf` is what has been read, of `buf_len` bytes. A failed call takes
-- one off `read_len`, so that the next byte goes where the last one was.
unfoldable pub recv_loop : List Reply → ℕ → Bytes → Bytes → Receiving
recv_loop [] buf_len buf stream = starved buf
recv_loop (failed ∷ rs) buf_len [] stream = misplaced
recv_loop (failed ∷ rs) buf_len (b ∷ bs) stream =
    recv_loop rs buf_len (take (length bs) (b ∷ bs)) stream
recv_loop (upto r ∷ rs) buf_len buf stream =
    let n = min r (buf_len - length buf) in
    let buf' = buf ++ take n stream in
    let rest = recv_loop rs buf_len buf' (drop n stream) in
    if leb buf_len (length buf') then received (pos 0) buf' (drop n stream) else rest

-- The call that reads the length, a 32-bit `int`, and then the loop.
unfoldable pub socket_recv : List Reply → Bytes → Receiving
socket_recv [] stream = starved []
socket_recv (failed ∷ rs) stream = received (negsuc 1) [] stream
socket_recv (upto r ∷ rs) stream =
    let head = take (min r 4) stream in
    let left = drop (min r 4) stream in
    let buf_len = ntohl head in
    let rest = recv_loop rs buf_len [] left in
    if length head == 0
    then received (negsuc 2) [] left
    else if ltb (length head) 4
    then received (negsuc 3) [] left
    else if buf_len == 0 || leb (2 ^ 31) buf_len
    then received (negsuc 4) [] left
    else rest
