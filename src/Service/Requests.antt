-- ===== src/Service/Requests.antt =====
-- What a request does to the table of connections.
use chess_set.Base.{
  ℕ, ◌+◌, ◌≤◌, ◌<◌, ◌≡◌, ◌≢◌, refl, sym, ◌∙◌, ap, subst, inl, inr, true, false, ◌||◌, Bool-cases,
  Option, some, some-injective, none-ne-some, List, [], ◌∷◌, ◌++◌, if_true, if_false, leb, leb→lt,
  ◌==◌, ≢→==, arith,
}
use chess_set.Common.Util.{Bytes, Lookup, missing, found, overrun, get_val_by_key}
use chess_set.Service.{
  ConnectPara, Connections, max_connect, get_socket, add_socket, same_text, type_key, cmd_key,
  consix, start, Handled, forward, handle_start, handle_cmd, handle_type, handle_service,
}
use chess_set.Service.Table.{entries, socket_of, get_socket_lem, add_socket_lem, has_socket}

-- The list of entries is as it was, or, if the text asks for a start and there is room, has one
-- entry more, for the client.
pub data Change (t : Connections) (client connected : ℕ) (preq : Bytes) (t' : Connections)
    : Type 0 where
  same : t' ≡ t → Change t client connected preq t'
  more :
      t.num < max_connect
      → ((value : Bytes) × (get_val_by_key preq type_key ≡ found value)
          × (same_text value consix ≡ true))
      → ((value : Bytes) × (get_val_by_key preq cmd_key ≡ found value)
          × (same_text value start ≡ true))
      → t'.num ≡ t.num + 1
      → entries t' ≡ entries t ++ (record { pclient = client; socket = connected } ∷ [])
      → Change t client connected preq t'

added_entries :
    (t : Connections) (client socket : ℕ)
    → leb max_connect t.num ≡ false
    → entries (add_socket t client socket).1
      ≡ entries t ++ (record { pclient = client; socket = socket } ∷ [])
added_entries t client socket e = elim (add_socket_lem t client socket) [
  | inl a ↦ a.2
  | inr a ↦ let l = leb→lt _ _ e in absurd (omega (arith, a.0))
]

added_num :
    (t : Connections) (client socket : ℕ)
    → leb max_connect t.num ≡ false
    → (add_socket t client socket).1.num ≡ t.num + 1
unfolding add_socket
added_num t client socket e = rw e refl

table_of : (P : Connections → Type 0) (g h : Handled) → some g ≡ some h → P g.table → P h.table
table_of P g h e p = subst (λ v. P v.table) (some-injective g h e) p

module _ (connected : ℕ) (exchange : ℕ → Bytes → Option Bytes) (t : Connections) (client : ℕ)
    (preq : Bytes) where
  abbrev Changed : Connections → Type 0
  Changed = Change t client connected preq

  started :
      ((value : Bytes) × (get_val_by_key preq type_key ≡ found value)
        × (same_text value consix ≡ true))
      → ((value : Bytes) × (get_val_by_key preq cmd_key ≡ found value)
          × (same_text value start ≡ true))
      → Changed (handle_start connected exchange t client preq).table
  unfolding handle_start add_socket forward
  started a b = elim (Bool-cases (leb max_connect t.num)) [
    | inl e ↦ rw e (same refl)
    | inr e ↦ rw e (
        more (leb→lt _ _ e) a b (added_num t client connected e)
          (added_entries t client connected e))
  ]

  by_cmd :
      (h : Handled) (l : Lookup)
      → get_val_by_key preq cmd_key ≡ l
      → ((value : Bytes) × (get_val_by_key preq type_key ≡ found value)
          × (same_text value consix ≡ true))
      → handle_cmd connected exchange t client preq l ≡ some h
      → Changed h.table
  unfolding handle_cmd forward
  by_cmd h missing k a e = table_of Changed _ h e (same refl)
  by_cmd h overrun k a e = absurd (none-ne-some h e)
  by_cmd h (found value) k a e = table_of Changed _ h e (elim (Bool-cases (same_text value start)) [
    | inl b ↦ rw b (started a (value, k, b))
    | inr b ↦ rw b (same refl)
  ])

  by_type :
      (h : Handled) (l : Lookup)
      → get_val_by_key preq type_key ≡ l
      → handle_type connected exchange t client preq l ≡ some h
      → Changed h.table
  unfolding handle_type
  by_type h missing k e = table_of Changed _ h e (same refl)
  by_type h overrun k e = absurd (none-ne-some h e)
  by_type h (found value) k e = elim (Bool-cases (same_text value consix)) [
    | inl b ↦ by_cmd h (get_val_by_key preq cmd_key) refl (value, k, b) (sym (if_true _ _ _ b) ∙ e)
    | inr b ↦ table_of Changed _ h (sym (if_false _ _ _ b) ∙ e) (same refl)
  ]

  -- A request that is handled without reading behind its text leaves the table as it was, or
  -- appends one entry for the client; it appends only if its `type` is `consix`, its `cmd` is
  -- `start` and there were fewer than ten connections.
  pub handle_service-Change :
      (req_len : ℕ) (h : Handled)
      → handle_service connected exchange t client preq req_len ≡ some h
      → Change t client connected preq h.table
  unfolding handle_service
  handle_service-Change req_len h e = elim (Bool-cases (client == 0 || req_len == 0)) [
    | inl b ↦ table_of Changed _ h (sym (if_true _ _ _ b) ∙ e) (same refl)
    | inr b ↦ by_type h (get_val_by_key preq type_key) refl (sym (if_false _ _ _ b) ∙ e)
  ]

append_other :
    (other client socket : ℕ) (cs : List ConnectPara)
    → client ≢ other
    → socket_of other (cs ++ (record { pclient = client; socket = socket } ∷ []))
      ≡ socket_of other cs
append_other other client socket [] ne = rw (≢→== client other ne) refl
append_other other client socket (c ∷ cs) ne = elim (Bool-cases (c.pclient == other)) [
  | inl e ↦ rw e refl
  | inr e ↦ rw e (append_other other client socket cs ne)
]

-- From a table of at most ten connections, a request that is handled without reading behind its
-- text does not change the socket of another client, and leaves at most ten connections.
pub handle_service-get_socket :
    (connected : ℕ) (exchange : ℕ → Bytes → Option Bytes) (t : Connections) (client : ℕ)
    (preq : Bytes) (req_len : ℕ) (h : Handled)
    → handle_service connected exchange t client preq req_len ≡ some h
    → t.num ≤ max_connect
    → (h.table.num ≤ max_connect)
      × ((other : ℕ) → client ≢ other → get_socket h.table other ≡ get_socket t other)
handle_service-get_socket connected exchange t client preq req_len h e room =
    by_change (handle_service-Change connected exchange t client preq req_len h e)
  where
    by_change :
        Change t client connected preq h.table
        → (h.table.num ≤ max_connect)
          × ((other : ℕ) → client ≢ other → get_socket h.table other ≡ get_socket t other)
    by_change (same s) = (rw s room, λ other ne. ap (λ v. get_socket v other) s)
    by_change (more l a b n s) = (
      omega (arith, n),
      λ other ne.
          get_socket_lem h.table other
          ∙ ap (socket_of other) s
          ∙ append_other other client connected (entries t) ne
          ∙ sym (get_socket_lem t other),
    )

-- The sockets of the entries differ, and none is 0.
abbrev pub IsProper : List ConnectPara → Type 0
IsProper [] = Unit
IsProper (c ∷ cs) = (c.socket ≢ 0) × (has_socket c.socket cs ≡ false) × IsProper cs
