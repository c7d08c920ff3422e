-- ===== src/Service/Table.antt =====
-- The table of connections is a list: what its operations do to the array and the count is what
-- the operations of a list do to the entries.
use chess_set.Base.{
  ℕ, zero, suc, ◌+◌, ◌≤◌, ◌<◌, ◌≡◌, ◌≢◌, refl, ◌∙◌, ap, ap₂, ◌⊎◌, inl, inr, Bool, false, ◌||◌,
  Bool-cases, List, [], ◌∷◌, ◌++◌, if◌then◌else◌, leb, leb→le, leb→lt, ◌==◌, ≡→==, ≢→==, arith,
}
use chess_set.Base.Int.{pos, negsuc}
use chess_set.Service.{
  ConnectPara, Connections, max_connect, set_para, get_loop, get_socket, add_socket,
}

-- The entries `start` to `start + count - 1` of the array.
unfoldable pub listed : ℕ → ℕ → (ℕ → ConnectPara) → List ConnectPara
listed zero i para = []
listed (suc count) i para = para i ∷ listed count (suc i) para

abbrev pub entries : Connections → List ConnectPara
entries t = listed t.num 0 t.para

-- The socket of the first entry of a client, or 0.
abbrev pub socket_of : ℕ → List ConnectPara → ℕ
socket_of client [] = 0
socket_of client (c ∷ cs) = if c.pclient == client then c.socket else socket_of client cs

-- Whether an entry has the socket, and the list without the first that has it.
abbrev pub has_socket : ℕ → List ConnectPara → Bool
has_socket socket [] = false
has_socket socket (c ∷ cs) = c.socket == socket || has_socket socket cs

abbrev pub without : ℕ → List ConnectPara → List ConnectPara
without socket [] = []
without socket (c ∷ cs) = if c.socket == socket then cs else c ∷ without socket cs

get_loop_lem :
    (count i : ℕ) (para : ℕ → ConnectPara) (client : ℕ)
    → get_loop count i para client ≡ socket_of client (listed count i para)
unfolding get_loop listed
get_loop_lem zero i para client = refl
get_loop_lem (suc count) i para client = elim (Bool-cases ((para i).pclient == client)) [
  | inl e ↦ rw e refl
  | inr e ↦ rw e (get_loop_lem count (suc i) para client)
]

-- `get_socket` finds the socket of the first entry of the client, and 0 if it has none.
pub get_socket_lem :
    (t : Connections) (client : ℕ) → get_socket t client ≡ socket_of client (entries t)
unfolding get_socket
get_socket_lem t client = get_loop_lem t.num 0 t.para client

-- Arrays that agree on a range have the same entries there.
pub listed_ext :
    (count i : ℕ) (p q : ℕ → ConnectPara)
    → ((j : ℕ) → i ≤ j → j < i + count → p j ≡ q j)
    → listed count i p ≡ listed count i q
unfolding listed
listed_ext zero i p q same = refl
listed_ext (suc count) i p q same =
    ap₂ ◌∷◌ (same i (omega arith) (omega arith))
      (listed_ext count (suc i) p q (λ j lo hi. same j (omega arith) (omega arith)))

pub set_para-other :
    (p : ℕ → ConnectPara) (i j : ℕ) (c : ConnectPara) → i ≢ j → set_para p i c j ≡ p j
set_para-other p i j c ne = rw (≢→== i j ne) refl

pub whole : (i : ℕ) → i ≡ i + 0
whole i = omega arith

pub shifted : (i n : ℕ) → suc i + n ≡ i + suc n
shifted i n = omega arith

listed-snoc :
    (count i : ℕ) (p : ℕ → ConnectPara)
    → listed (suc count) i p ≡ listed count i p ++ (p (i + count) ∷ [])
unfolding listed
listed-snoc zero i p = ap (λ k. p k ∷ []) (whole i)
listed-snoc (suc count) i p =
    ap (λ t. p i ∷ t)
      (listed-snoc count (suc i) p
        ∙ ap (λ k. listed count (suc i) p ++ (p k ∷ [])) (shifted i count))

-- `add_socket` appends an entry and returns 0 while there are fewer than ten, and else returns -1 and
-- changes nothing.
pub add_socket_lem :
    (t : Connections) (client socket : ℕ)
    → (t.num < max_connect)
        × ((add_socket t client socket).0 ≡ pos 0)
        × (entries (add_socket t client socket).1
            ≡ entries t ++ (record { pclient = client; socket = socket } ∷ []))
      ⊎ (max_connect ≤ t.num) × (add_socket t client socket ≡ (negsuc 0, t))
unfolding add_socket
add_socket_lem t client socket = elim (Bool-cases (leb max_connect t.num)) [
  | inl e ↦ inr (leb→le _ _ e, rw e refl)
  | inr e ↦
      let less = leb→lt _ _ e in
      let c : ConnectPara = record { pclient = client; socket = socket } in
      let p = set_para t.para t.num c in
      inl (
        less,
        rw e refl,
        rw e (
            ap (λ n. listed n 0 p) (omega arith)
            ∙ listed-snoc t.num 0 p
            ∙ ap₂ (λ a b. a ++ (b ∷ []))
                (listed_ext t.num 0 p t.para
                  (λ j lo hi. set_para-other t.para t.num j c (omega arith)))
                (at_itself t.num c)),
      )
]
  where
    at_itself : (n : ℕ) (c : ConnectPara) → set_para t.para n c (0 + n) ≡ c
    at_itself n c = rw (≡→== n (0 + n) (omega arith)) refl
