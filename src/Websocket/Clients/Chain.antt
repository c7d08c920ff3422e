-- ===== src/Websocket/Clients/Chain.antt =====
-- The linked list is a list of pointers: `list_add` appends to it and `list_remove` removes from it.
use chess_set.Base.{
  ℕ, ◌+◌, ◌≡◌, ◌≢◌, refl, sym, ◌∙◌, ap, subst, Bool, false, ◌||◌, or_none, List, [], ◌∷◌, ◌++◌,
  ◌==◌, ==→≢, ≡→==, ≢→==, length, length-append, arith,
}
use chess_set.Websocket.Clients.{Client, Clients, set_next, list_new, list_add}

-- From `p` on, the pointers lead through `xs` and then to `tail`.
abbrev pub Linked : (ℕ → Client) → ℕ → List ℕ → ℕ → Type 0
Linked nodes p [] tail = p ≡ tail
Linked nodes p (x ∷ xs) tail = (p ≡ x) × (x ≢ 0) × Linked nodes (nodes x).next xs tail

-- Whether a pointer is in a list.
abbrev pub has : ℕ → List ℕ → Bool
has r [] = false
has r (x ∷ xs) = x == r || has r xs

abbrev pub Distinct : List ℕ → Type 0
Distinct [] = Unit
Distinct (x ∷ xs) = (has x xs ≡ false) × Distinct xs

-- The last of a list, or 0.
abbrev pub last_of : List ℕ → ℕ
last_of [] = 0
last_of (x ∷ []) = x
last_of (x ∷ y ∷ ys) = last_of (y ∷ ys)

-- The structure holds the list of clients `xs`.
pub record Holds (s : Clients) (xs : List ℕ) : Type 0 where
  pub linked : Linked s.nodes s.first xs 0
  pub distinct : Distinct xs
  pub last_eq : s.last ≡ last_of xs
  pub len_eq : s.len ≡ length xs

pub set_next-other : (nodes : ℕ → Client) (n m p : ℕ) → n ≢ p → set_next nodes n m p ≡ nodes p
set_next-other nodes n m p ne = rw (≢→== n p ne) refl

pub set_next-own : (nodes : ℕ → Client) (n m : ℕ) → (set_next nodes n m n).next ≡ m
set_next-own nodes n m = rw (≡→== n n refl) refl

-- A list without the pointer is linked as before.
pub Linked-set_next :
    (nodes : ℕ → Client) (n m p : ℕ) (xs : List ℕ) (tail : ℕ)
    → has n xs ≡ false
    → Linked nodes p xs tail
    → Linked (set_next nodes n m) p xs tail
Linked-set_next nodes n m p [] tail h l = l
Linked-set_next nodes n m p (x ∷ xs) tail h (e, z, l) =
    let (x_ne, more) = or_none (x == n) (has n xs) h in
    let other = set_next-other nodes n m x (λ q. ==→≢ x n x_ne (sym q)) in
    (
      e,
      z,
      subst (λ c. Linked (set_next nodes n m) c.next xs tail) (sym other)
          (Linked-set_next nodes n m (nodes x).next xs tail more l),
    )

pub last_of-ne : (x y : ℕ) (ys : List ℕ) → has x (y ∷ ys) ≡ false → last_of (y ∷ ys) ≢ x
last_of-ne x y [] h = ==→≢ y x (or_none (y == x) false h).0
last_of-ne x y (w ∷ ws) h = last_of-ne x w ws (or_none (y == x) _ h).1

-- The last node is given a next one.
Linked-append :
    (nodes : ℕ → Client) (n p x : ℕ) (xs : List ℕ)
    → n ≢ 0
    → Distinct (x ∷ xs)
    → has n (x ∷ xs) ≡ false
    → (nodes n).next ≡ 0
    → Linked nodes p (x ∷ xs) 0
    → Linked (set_next nodes (last_of (x ∷ xs)) n) p ((x ∷ xs) ++ (n ∷ [])) 0
Linked-append nodes n p x [] nz d h end (e, z, l) =
    let (x_ne, more) = or_none (x == n) false h in
    (
      e,
      z,
      (
        set_next-own nodes x n,
        nz,
        ap (λ c. c.next) (set_next-other nodes x n n (==→≢ x n x_ne)) ∙ end,
      ),
    )
Linked-append nodes n p x (y ∷ ys) nz (fresh, d) h end (e, z, l) =
    let (x_ne, more) = or_none (x == n) (has n (y ∷ ys)) h in
    let last_ne = last_of-ne x y ys fresh in
    (
      e,
      z,
      subst (λ c. Linked (set_next nodes (last_of (y ∷ ys)) n) c.next ((y ∷ ys) ++ (n ∷ [])) 0)
          (sym (set_next-other nodes (last_of (y ∷ ys)) n x last_ne))
          (Linked-append nodes n (nodes x).next y ys nz d more end l),
    )

Distinct-snoc : (n : ℕ) (xs : List ℕ) → Distinct xs → has n xs ≡ false → Distinct (xs ++ (n ∷ []))
Distinct-snoc n [] d h = (refl, tt)
Distinct-snoc n (x ∷ xs) (fresh, d) h =
    let (x_ne, more) = or_none (x == n) (has n xs) h in
    (not_there x n xs fresh (λ e. ==→≢ x n x_ne (sym e)), Distinct-snoc n xs d more)
  where
    not_there : (x n : ℕ) (xs : List ℕ) → has x xs ≡ false → n ≢ x → has x (xs ++ (n ∷ [])) ≡ false
    not_there x n [] h ne = rw (≢→== n x ne) refl
    not_there x n (y ∷ ys) h ne =
        let (a, b) = or_none (y == x) (has x ys) h in rw a (not_there x n ys b ne)

last_of-snoc : (n : ℕ) (xs : List ℕ) → last_of (xs ++ (n ∷ [])) ≡ n
last_of-snoc n [] = refl
last_of-snoc n (x ∷ []) = refl
last_of-snoc n (x ∷ y ∷ ys) = last_of-snoc n (y ∷ ys)

length-snoc : (n : ℕ) (xs : List ℕ) (k : ℕ) → k ≡ length xs → k + 1 ≡ length (xs ++ (n ∷ []))
length-snoc n xs k e = let size = length-append xs (n ∷ []) in omega arith

first_is_null :
    (s : Clients) (n : ℕ)
    → s.first ≡ 0
    → list_add s n ≡ record s { first = n; last = n; len = s.len + 1 }
unfolding list_add
first_is_null s n e = rw (≡→== s.first 0 e) refl

first_is_set :
    (s : Clients) (n : ℕ)
    → s.first ≢ 0
    → list_add s n ≡ record s { nodes = set_next s.nodes s.last n; last = n; len = s.len + 1 }
unfolding list_add
first_is_set s n e = rw (≢→== s.first 0 e) refl

-- If the list holds `xs`, then after `list_add` of a client that is not NULL, not in the list
-- and not linked to another it holds `xs` with the client at its end.
pub list_add-Holds :
    (s : Clients) (n : ℕ) (xs : List ℕ)
    → n ≢ 0
    → has n xs ≡ false
    → (s.nodes n).next ≡ 0
    → Holds s xs
    → Holds (list_add s n) (xs ++ (n ∷ []))
list_add-Holds s n [] nz h end k =
    subst (λ t. Holds t (n ∷ [])) (sym (first_is_null s n k.linked))
      (record {
        linked = (refl, nz, end);
        distinct = (refl, tt);
        last_eq = refl;
        len_eq = length-snoc n [] s.len k.len_eq;
      })
list_add-Holds s n (x ∷ xs) nz h end k =
    let at_first = k.linked.0 in
    let whole : Linked (set_next s.nodes s.last n) s.first ((x ∷ xs) ++ (n ∷ [])) 0 =
      subst (λ l. Linked (set_next s.nodes l n) s.first ((x ∷ xs) ++ (n ∷ [])) 0) (sym k.last_eq)
        (Linked-append s.nodes n s.first x xs nz k.distinct h end k.linked) in
    subst (λ t. Holds t ((x ∷ xs) ++ (n ∷ [])))
      (sym (first_is_set s n (λ e. k.linked.1 (sym at_first ∙ e))))
      (record {
        linked = whole;
        distinct = Distinct-snoc n (x ∷ xs) k.distinct h;
        last_eq = sym (last_of-snoc n (x ∷ xs));
        len_eq = length-snoc n (x ∷ xs) s.len k.len_eq;
      })

-- A new list is empty.
pub list_new-Holds : (s : Clients) → Holds (list_new s) []
list_new-Holds s = record { linked = refl; distinct = tt; last_eq = refl; len_eq = refl }
