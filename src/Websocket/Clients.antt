-- ===== src/Websocket/Clients.antt =====
-- websocket/Datastructures.c: the list of clients. A client is the number of its pointer, and NULL is
-- 0; `nodes` is the memory that the pointers lead to, and `sent` the calls of `send` so far, oldest
-- first: the client and the bytes. Locks are not modelled: every operation holds the list's lock.
pub mod Chain
pub mod Sends
pub mod Without
pub mod Remove
use package.chess_set.Base.{
  ℕ, zero, suc, ◌+◌, ◌-◌, Bool, true, false, ◌&&◌, ◌||◌, not, List, [], ◌∷◌, ◌++◌, if◌then◌else◌,
  ◌==◌, take,
}
use package.chess_set.Common.Util.{Bytes}
use package.chess_set.Websocket.Frame.{Message}

-- `ws_type`.
pub data WsType : Type 0 where
  unknown rfc6455 hybi10 hybi07 hybi00 hixie75 http : WsType

-- The fields of `ws_client` that the list reads: `string` and `thread_id` play no part here.
pub record Client : Type 0 where
  pub socket_id : ℕ
  pub client_ip : Bytes
  pub type : WsType
  pub next : ℕ

-- `ws_list`, with the memory and the calls of `send`.
pub record Clients : Type 0 where
  pub len : ℕ
  pub first : ℕ
  pub last : ℕ
  pub nodes : ℕ → Client
  pub sent : List (ℕ × Bytes)

-- `n->next = m`.
abbrev pub set_next : (ℕ → Client) → ℕ → ℕ → ℕ → Client
set_next nodes n m p = if n == p then record (nodes p) { next = m } else nodes p

-- What `ws_send` gives to `send` for a client: nothing for the types that it does not serve.
unfoldable pub ws_send : WsType → Message → List Bytes
ws_send hybi00 m = take (m.len + 2) m.hybi00 ∷ []
ws_send hixie75 m = []
ws_send hybi07 m = take m.enc_len m.enc ∷ []
ws_send rfc6455 m = take m.enc_len m.enc ∷ []
ws_send hybi10 m = take m.enc_len m.enc ∷ []
ws_send unknown m = []
ws_send http m = []

-- What `ws_closeframe` gives to `send`.
unfoldable pub ws_closeframe : WsType → List Bytes
ws_closeframe rfc6455 = (136 ∷ 0 ∷ []) ∷ []
ws_closeframe hybi10 = (136 ∷ 0 ∷ []) ∷ []
ws_closeframe hybi07 = (136 ∷ 0 ∷ []) ∷ []
ws_closeframe hybi00 = (255 ∷ 0 ∷ []) ∷ []
ws_closeframe unknown = []
ws_closeframe hixie75 = []
ws_closeframe http = []

-- The calls of `send` for one client.
abbrev pub to_client : ℕ → List Bytes → List (ℕ × Bytes)
to_client p [] = []
to_client p (b ∷ bs) = (p, b) ∷ to_client p bs

abbrev pub list_new : Clients → Clients
list_new s = record s { len = 0; first = 0; last = 0 }

unfoldable pub list_add : Clients → ℕ → Clients
list_add s n =
    if s.first == 0
    then record s { first = n; last = n; len = s.len + 1 }
    else record s { nodes = set_next s.nodes s.last n; last = n; len = s.len + 1 }

-- `do { … p = p->next; } while (p != NULL)` over the clients that pass a test, on fuel.
unfoldable pub send_all :
    ℕ → (ℕ → Client) → (ℕ → Bool) → (WsType → List Bytes) → ℕ → List (ℕ × Bytes)
send_all zero nodes test frame p = []
send_all (suc fuel) nodes test frame p =
    let rest = send_all fuel nodes test frame (nodes p).next in
    let own = if test p then to_client p (frame (nodes p).type) else [] in
    if p == 0 then [] else own ++ rest

-- `list_multicast`: to all clients but `n`.
unfoldable pub list_multicast : ℕ → Clients → ℕ → Message → Clients
list_multicast fuel s n m = record s {
  sent = s.sent ++ send_all fuel s.nodes (λ p. not (p == n)) (λ t. ws_send t m) s.first;
}

-- `list_multicast_all`.
unfoldable pub list_multicast_all : ℕ → Clients → Message → Clients
list_multicast_all fuel s m = record s {
  sent = s.sent ++ send_all fuel s.nodes (λ p. true) (λ t. ws_send t m) s.first;
}

-- The loop of `list_multicast_one`, which ends at the client.
unfoldable pub send_one : ℕ → (ℕ → Client) → ℕ → Message → ℕ → List (ℕ × Bytes)
send_one zero nodes n m p = []
send_one (suc fuel) nodes n m p =
    let rest = send_one fuel nodes n m (nodes p).next in
    if p == 0 then [] else if p == n then to_client p (ws_send (nodes p).type m) else rest

unfoldable pub list_multicast_one : ℕ → Clients → ℕ → Message → Clients
list_multicast_one fuel s n m = record s {
  sent = s.sent ++ (if n == 0 then [] else send_one fuel s.nodes n m s.first);
}

-- `list_remove_all`: a close frame to every client.
unfoldable pub list_remove_all : ℕ → Clients → Clients
list_remove_all fuel s = record s {
  sent = s.sent ++ send_all fuel s.nodes (λ p. true) ws_closeframe s.first;
}

-- `n` leaves the list, which `p` is before it; its memory is freed.
unfoldable pub unlink : Clients → ℕ → ℕ → Clients
unlink s p n =
    let after = (s.nodes n).next in
    record s {
      first = if n == s.first then after else s.first;
      nodes = if n == s.first then s.nodes else set_next s.nodes p after;
      last = if n == s.last then p else s.last;
      sent = s.sent ++ to_client n (ws_closeframe (s.nodes n).type);
      len = s.len - 1;
    }

-- The loop of `list_remove`, at the client `n` with `p` before it.
unfoldable pub remove_loop : ℕ → Clients → ℕ → ℕ → ℕ → Clients
remove_loop zero s r p n = s
remove_loop (suc fuel) s r p n =
    let rest = remove_loop fuel s r n (s.nodes n).next in
    if n == 0 then s else if n == r then unlink s p n else rest

-- The end of `list_remove`.
unfoldable pub trim : Clients → Clients
trim s =
    if s.len == 0
    then record s { first = 0; last = 0 }
    else if s.len == 1
    then record s { last = s.first }
    else s

-- `junk` is what the variable `p` holds before it is set.
unfoldable pub list_remove : ℕ → Clients → ℕ → ℕ → Clients
list_remove fuel s r junk =
    if s.first == 0 || r == 0 then s else trim (remove_loop fuel s r junk s.first)
