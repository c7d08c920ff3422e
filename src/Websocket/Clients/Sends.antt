-- ===== src/Websocket/Clients/Sends.antt =====
-- What the operations that walk the list send.
use chess_set.Base.{
  inl, inr, ℕ, zero, suc, ◌≤◌, ◌≡◌, refl, sym, ◌∙◌, ap, Bool, true, false, not, List, [], ◌∷◌, ◌++◌,
  if◌then◌else◌, ◌==◌, ≡→==, ≢→==, ==→≡, ◌≢◌, Bool-cases, length, arith,
}
use chess_set.Common.Util.{Bytes}
use chess_set.Websocket.Frame.{Message}
use chess_set.Websocket.Clients.{
  WsType, Client, Clients, to_client, ws_send, ws_closeframe, send_all, list_multicast,
  list_multicast_all, list_remove_all, send_one, list_multicast_one,
}
use chess_set.Websocket.Clients.Chain.{Linked, Holds, has}

-- The frames for each client of a list that passes a test, in the order of the list.
abbrev pub frames : (ℕ → Client) → (ℕ → Bool) → (WsType → List Bytes) → List ℕ → List (ℕ × Bytes)
frames nodes test frame [] = []
frames nodes test frame (x ∷ xs) =
    (if test x then to_client x (frame (nodes x).type) else []) ++ frames nodes test frame xs

send_all_lem :
    (fuel : ℕ) (nodes : ℕ → Client) (test : ℕ → Bool) (frame : WsType → List Bytes) (p : ℕ)
    (xs : List ℕ)
    → length xs ≤ fuel
    → Linked nodes p xs 0
    → send_all fuel nodes test frame p ≡ frames nodes test frame xs
unfolding send_all
send_all_lem zero nodes test frame p [] h l = refl
send_all_lem zero nodes test frame p (x ∷ xs) h l = absurd (omega arith)
send_all_lem (suc fuel) nodes test frame p [] h l = rw (≡→== p 0 l) refl
send_all_lem (suc fuel) nodes test frame p (x ∷ xs) h (e, z, l) =
    let there : (p == 0) ≡ false = ≢→== p 0 (λ q. z (sym e ∙ q)) in
    rw (there, e)
      (ap (λ t. (if test x then to_client x (frame (nodes x).type) else []) ++ t)
        (send_all_lem fuel nodes test frame (nodes x).next xs (omega arith) l))

-- In a list that holds `xs`, with fuel for its length, the calls of `send` that follow are, in
-- the order of the list: for `list_multicast` what `ws_send` makes of the message for each
-- client but the one given, for `list_multicast_all` the same for each client, and for
-- `list_remove_all` the close frame of each.
pub list_multicast_lem :
    (fuel : ℕ) (s : Clients) (xs : List ℕ) (n : ℕ) (m : Message)
    → length xs ≤ fuel
    → Holds s xs
    → ((list_multicast fuel s n m).sent
        ≡ s.sent ++ frames s.nodes (λ p. not (p == n)) (λ t. ws_send t m) xs)
      × ((list_multicast_all fuel s m).sent
          ≡ s.sent ++ frames s.nodes (λ p. true) (λ t. ws_send t m) xs)
      × ((list_remove_all fuel s).sent ≡ s.sent ++ frames s.nodes (λ p. true) ws_closeframe xs)
unfolding list_multicast list_multicast_all list_remove_all
list_multicast_lem fuel s xs n m h k = (
  ap (λ t. s.sent ++ t) (send_all_lem fuel s.nodes _ _ s.first xs h k.linked),
  ap (λ t. s.sent ++ t) (send_all_lem fuel s.nodes _ _ s.first xs h k.linked),
  ap (λ t. s.sent ++ t) (send_all_lem fuel s.nodes _ _ s.first xs h k.linked),
)

send_one_lem :
    (fuel : ℕ) (nodes : ℕ → Client) (n : ℕ) (m : Message) (p : ℕ) (xs : List ℕ)
    → length xs ≤ fuel
    → Linked nodes p xs 0
    → send_one fuel nodes n m p ≡ (if has n xs then to_client n (ws_send (nodes n).type m) else [])
unfolding send_one
send_one_lem zero nodes n m p [] h l = refl
send_one_lem zero nodes n m p (x ∷ xs) h l = absurd (omega arith)
send_one_lem (suc fuel) nodes n m p [] h l = rw (≡→== p 0 l) refl
send_one_lem (suc fuel) nodes n m p (x ∷ xs) h (e, z, l) =
    let there : (p == 0) ≡ false = ≢→== p 0 (λ q. z (sym e ∙ q)) in
    elim (Bool-cases (x == n)) [
      | inl k ↦ rw (there, e, k) (ap (λ c. to_client c (ws_send (nodes c).type m)) (==→≡ x n k))
      | inr k ↦ rw (there, e, k) (send_one_lem fuel nodes n m (nodes x).next xs (omega arith) l)
    ]

-- In a list that holds `xs`, with fuel for its length, the calls of `send` of
-- `list_multicast_one` for a client that is not NULL are what `ws_send` makes of the message
-- for that client if it is in the list, and none if it is not.
pub list_multicast_one_lem :
    (fuel : ℕ) (s : Clients) (xs : List ℕ) (n : ℕ) (m : Message)
    → length xs ≤ fuel
    → n ≢ 0
    → Holds s xs
    → (list_multicast_one fuel s n m).sent
      ≡ s.sent ++ (if has n xs then to_client n (ws_send (s.nodes n).type m) else [])
unfolding list_multicast_one
list_multicast_one_lem fuel s xs n m h nz k =
    rw (≢→== n 0 nz) (ap (λ t. s.sent ++ t) (send_one_lem fuel s.nodes n m s.first xs h k.linked))
