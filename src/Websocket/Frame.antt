-- ===== src/Websocket/Frame.antt =====
-- websocket/Communicate.c, `encodeMessage` and `parseMessage`: the frames of RFC 6455. Allocations
-- succeed. `recv` gives the chunks that are a parameter, and an empty chunk stands for its failure.
pub mod Mask
pub mod Parse
pub mod Encode
use package.chess_set.Base.{
  ℕ, zero, suc, ◌+◌, ◌-◌, ◌*◌, ◌/◌, ◌%◌, ◌^◌, Bool, true, false, ◌||◌, Option, none, some, List, [],
  ◌∷◌, ◌++◌, if◌then◌else◌, ltb, leb, ◌==◌, length, get_or, take, drop, bit_xor,
}
use package.chess_set.Common.Util.{Bytes}

abbrev pub max_message : ℕ
max_message = 1048576

-- The statuses of `ws_connection_close` that the functions return.
pub data Close : Type 0 where
  continue close_protocol close_big close_policy : Close

-- `ws_message`; a pointer that is not set is the empty list.
pub record Message : Type 0 where
  pub mask : Bytes
  pub len : ℕ
  pub enc_len : ℕ
  pub next_len : ℕ
  pub msg : Bytes
  pub next : Bytes
  pub enc : Bytes
  pub hybi00 : Bytes

-- `message_new`.
abbrev pub message_new : Message
message_new = record {
  mask = 0 ∷ 0 ∷ 0 ∷ 0 ∷ [];
  len = 0;
  enc_len = 0;
  next_len = 0;
  msg = [];
  next = [];
  enc = [];
  hybi00 = [];
}

-- `n` bytes of a number, the high byte first: `htons` and `ntohl64`, as the bytes in memory.
unfoldable pub big_endian : ℕ → ℕ → Bytes
big_endian zero value = []
big_endian (suc n) value = value / 256 ^ n % 256 ∷ big_endian n value

-- The number that bytes stand for: `ntohs` and `ntohl64`.
unfoldable pub from_big_endian : ℕ → Bytes → ℕ
from_big_endian acc [] = acc
from_big_endian acc (b ∷ bs) = from_big_endian (acc * 256 + b) bs

unfoldable pub encode_message : Message → Message
encode_message m =
    let body = take m.len m.msg in
    let head =
      if leb m.len 125
      then 129 ∷ m.len ∷ []
      else if leb m.len 65535
      then 129 ∷ 126 ∷ big_endian 2 m.len
      else 129 ∷ 127 ∷ big_endian 8 m.len in
    record m {
      enc = head ++ body;
      enc_len = m.len + (if leb m.len 125 then 2 else if leb m.len 65535 then 4 else 10);
      hybi00 = 0 ∷ (body ++ (255 ∷ []));
    }

-- `n` zero bytes, as `memset` writes.
abbrev pub zeros : ℕ → Bytes
zeros zero = []
zeros (suc n) = 0 ∷ zeros n

-- `memcpy(msg + place, bytes, …)`.
unfoldable pub copy_at : Bytes → ℕ → Bytes → Bytes
copy_at msg place bytes = take place msg ++ (bytes ++ drop (place + length bytes) msg)

-- `for (…) m->msg[j] = m->msg[i] ^ m->mask[j % 4]`, from byte `j` on.
unfoldable pub unmask : Bytes → ℕ → Bytes → Bytes
unmask mask j [] = []
unmask mask j (b ∷ bs) = bit_xor b (get_or mask (j % 4) 0) ∷ unmask mask (suc j) bs

-- The loop of `getRemainingMessage`: `reached` bytes of the message have been read. Where it returns
-- 0 the first component is `none`.
unfoldable pub get_remaining : List Bytes → ℕ → Message → Option ℕ × Message × List Bytes
get_remaining [] reached m = (none, m, [])
get_remaining ([] ∷ chunks) reached m = (none, m, chunks)
get_remaining ((b ∷ bs) ∷ chunks) reached m =
    let chunk = b ∷ bs in
    let final = reached + length chunk in
    let kept = if ltb m.len final then take (m.len - reached) chunk else chunk in
    let m1 =
      if ltb m.len final
      then record m { next = drop (m.len - reached) chunk; next_len = final - m.len }
      else m in
    let m2 = record m1 { msg = copy_at m1.msg reached kept } in
    let rest = get_remaining chunks (reached + length kept) m2 in
    if ltb (reached + length kept) m.len then rest else (some (reached + length kept), m2, chunks)

-- How `parseMessage` ends: it returns a status, or it reads or writes outside its buffers.
pub data Parsed : Type 0 where
  status : Close → Message → List Bytes → Parsed
  fault : Parsed

-- The end of `parseMessage`: the whole message, without its mask.
unfoldable pub finish : ℕ → Message → List Bytes → Parsed
finish message_length m chunks =
    if message_length == m.len
    then status continue (record m { msg = unmask m.mask 0 (take message_length m.msg) }) chunks
    else status close_policy m chunks

-- After `getRemainingMessage`.
unfoldable pub after_remaining : Option ℕ × Message × List Bytes → Parsed
after_remaining (none, m, chunks) = status close_policy m chunks
after_remaining (some reached, m, chunks) = finish reached m chunks

-- After the length is known: copy what the buffer has, and read the rest.
unfoldable pub parse_body : List Bytes → Bytes → ℕ → ℕ → Message → Parsed
parse_body chunks buffer message_length skip m =
    let buf_len = length buffer - skip in
    let m1 = record m { msg = zeros m.len } in
    let m2 =
      if ltb m.len buf_len
      then record m1 { next = drop (m.len + skip) buffer; next_len = buf_len - m.len }
      else m1 in
    let taken = if ltb m.len buf_len then m.len else buf_len in
    let m3 = record m2 { msg = copy_at m2.msg message_length (take taken (drop skip buffer)) } in
    let message_length' = message_length + taken in
    let rest = after_remaining (get_remaining chunks message_length' m3) in
    let whole = finish message_length' m3 chunks in
    if ltb (length buffer) skip || ltb (m.len + 1) message_length'
    then fault
    else if ltb message_length' m.len
    then rest
    else whole

-- `parseMessage`, on a message that may hold the length of earlier fragments. Behind what has been
-- read, the buffer is zero.
unfoldable pub parse_message : List Bytes → Bytes → Message → Parsed
parse_message chunks buffer m =
    let code = get_or buffer 1 0 in
    let view = buffer ++ zeros 14 in
    let short = code % 128 in
    let skip = if leb short 125 then 6 else if short == 126 then 8 else 14 in
    let more =
      if leb short 125
      then short
      else if short == 126
      then from_big_endian 0 (take 2 (drop 2 view))
      else from_big_endian 0 (take 8 (drop 2 view)) in
    let m1 = record m { len = (m.len + more) % 2 ^ 64; mask = take 4 (drop (skip - 4) view) } in
    let body = parse_body chunks buffer m.len skip m1 in
    if ltb code 128
    then status close_protocol m chunks
    else if ltb max_message m1.len
    then status close_big m1 chunks
    else body
