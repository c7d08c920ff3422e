-- ===== src/Service/Close.antt =====
-- What the end of a client's connection does to the table.
use chess_set.Base.{
  ℕ, suc, ◌≡◌, ◌≢◌, refl, sym, ◌∙◌, ap, subst, ◌⊎◌, inl, inr, true, false, true≢false, ◌||◌,
  Bool-cases, none, some, List, [], ◌∷◌, if_true, if_false, or_true, ◌==◌, ==→≡, ==→≢, ≡→==, ≢→==,
  arith,
}
use chess_set.Service.{ConnectPara, Connections, get_socket, handle_close}
use chess_set.Service.Table.{listed, entries, socket_of, get_socket_lem, has_socket, without}
use chess_set.Service.Requests.{IsProper}
use chess_set.Service.Remove.{del_socket_lem}

has_socket_of :
    (client : ℕ) (cs : List ConnectPara)
    → socket_of client cs ≢ 0
    → has_socket (socket_of client cs) cs ≡ true
has_socket_of client [] h = absurd (h refl)
has_socket_of client (c ∷ cs) h = elim (Bool-cases (c.pclient == client)) [
  | inl e ↦
      let own = if_true (c.pclient == client) c.socket (socket_of client cs) e in
      subst (λ s. has_socket s (c ∷ cs) ≡ true) (sym own)
        (ap (λ b. b || has_socket c.socket cs) (≡→== c.socket c.socket refl))
  | inr e ↦
      let later = if_false (c.pclient == client) c.socket (socket_of client cs) e in
      subst (λ s. has_socket s (c ∷ cs) ≡ true) (sym later)
        (or_true (c.socket == socket_of client cs) _ (has_socket_of client cs (λ z. h (later ∙ z))))
]

no_entries : (t : Connections) (client : ℕ) → t.num ≡ 0 → socket_of client (entries t) ≡ 0
unfolding listed
no_entries t client z = ap (λ n. socket_of client (listed n 0 t.para)) z

-- Where sockets differ, taking out the one of a client leaves the socket of every other client.
others_kept :
    (client other s : ℕ) (cs : List ConnectPara)
    → client ≢ other
    → IsProper cs
    → socket_of client cs ≡ s
    → s ≢ 0
    → socket_of other (without s cs) ≡ socket_of other cs
others_kept client other s [] ne p k h = refl
others_kept client other s (c ∷ cs) ne (z, fresh, p) k h = elim (Bool-cases (c.pclient == client)) [
  | inl e ↦
      let own = sym (if_true (c.pclient == client) c.socket (socket_of client cs) e) ∙ k in
      let owner = ==→≡ c.pclient client e in
      let not_other = ≢→== c.pclient other (omega arith) in rw (≡→== c.socket s own, not_other) refl
  | inr e ↦
      let later = sym (if_false (c.pclient == client) c.socket (socket_of client cs) e) ∙ k in
      let there = has_socket_of client cs (λ z. h (sym later ∙ z)) in
      let apart : (c.socket == s) ≡ false =
        ≢→== c.socket s
          λ q. true≢false (sym there ∙ ap (λ x. has_socket x cs) (later ∙ sym q) ∙ fresh) in
      let rest = others_kept client other s cs ne p later h in
      rw apart (elim (Bool-cases (c.pclient == other)) [ inl o ↦ rw o refl | inr o ↦ rw o rest ])
]

-- Where the engine sockets of the connections differ and none is 0: the end of a client without
-- one changes nothing; for another client its socket is the one that is closed, one entry fewer
-- remains, and every other client keeps its socket.
pub handle_close_lem :
    (t : Connections) (client : ℕ)
    → IsProper (entries t)
    → (get_socket t client ≡ 0) × (handle_close t client ≡ some (none, t))
      ⊎ ((t' : Connections) × (handle_close t client ≡ some (some (get_socket t client), t'))
          × (suc t'.num ≡ t.num)
          × ((other : ℕ) → client ≢ other → get_socket t' other ≡ get_socket t other))
unfolding handle_close
handle_close_lem t client p = elim (Bool-cases (get_socket t client == 0)) [
  | inl e ↦ inl (==→≡ _ _ e, rw e refl)
  | inr e ↦ elim (del_socket_lem t (get_socket t client)) [
    | inl d ↦ absurd (==→≢ _ _ e (get_socket_lem t client ∙ no_entries t client d.0))
    | inr d ↦
        let found = get_socket_lem t client in
        let there = has_socket_of client (entries t) (λ z. ==→≢ _ _ e (found ∙ z)) in
        let list = d.3 ∙ if_true _ _ _ (ap (λ s. has_socket s (entries t)) found ∙ there) in
        inr (
          d.0,
          rw (e, d.1) refl,
          d.2,
          λ other ne.
              get_socket_lem d.0 other
              ∙ ap (socket_of other) list
              ∙ others_kept client other (get_socket t client) (entries t) ne p (sym found)
                  (==→≢ _ _ e)
              ∙ sym (get_socket_lem t other),
        )
  ]
]
