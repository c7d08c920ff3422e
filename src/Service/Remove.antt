-- ===== src/Service/Remove.antt =====
-- `del_socket` on the list of entries.
use chess_set.Base.{
  ℕ, zero, suc, ◌+◌, ◌-◌, ◌≤◌, ◌<◌, ◌≡◌, refl, sym, ◌∙◌, ap, ap₂, ◌⊎◌, inl, inr, true, false,
  Bool-cases, none, some, ◌∷◌, ◌++◌, if◌then◌else◌, ◌==◌, ==→≡, ==→≢, drop, arith,
}
use chess_set.Service.{ConnectPara, Connections, set_para, index_loop, shift_loop, del_socket}
use chess_set.Service.Table.{
  listed, entries, has_socket, without, listed_ext, set_para-other, whole, shifted,
}

-- Where the second loop of `del_socket` has moved the entries.
shift_below : (count i : ℕ) (p : ℕ → ConnectPara) (j : ℕ) → j < i → shift_loop count i p j ≡ p j
unfolding shift_loop
shift_below zero i p j l = refl
shift_below (suc count) i p j l =
    shift_below count (suc i) _ j (omega arith) ∙ set_para-other p i j (p (suc i)) (omega arith)

shift_in :
    (count i : ℕ) (p : ℕ → ConnectPara) (j : ℕ)
    → i ≤ j
    → j < i + count
    → shift_loop count i p j ≡ p (suc j)
unfolding shift_loop
shift_in zero i p j lo hi = absurd (omega arith)
shift_in (suc count) i p j lo hi = elim (Bool-cases (i == j)) [
  | inl e ↦
      let same = ==→≡ i j e in
      shift_below count (suc i) _ j (omega arith) ∙ rw e (ap (λ k. p (suc k)) same)
  | inr e ↦
      let other = ==→≢ i j e in
      shift_in count (suc i) _ j (omega arith) (omega arith)
      ∙ set_para-other p i (suc j) (p (suc i)) (omega arith)
]

listed_shift :
    (count i j : ℕ) (p q : ℕ → ConnectPara)
    → ((k : ℕ) → i ≤ k → k < i + count → p k ≡ q (suc k))
    → j ≡ suc i
    → listed count i p ≡ listed count j q
unfolding listed
listed_shift zero i j p q same e = refl
listed_shift (suc count) i j p q same e =
    ap₂ ◌∷◌ (same i (omega arith) (omega arith) ∙ ap q (sym e)) (
      listed_shift count (suc i) (suc j) p q (λ k lo hi. same k (omega arith) (omega arith))
        (omega arith))

listed-append :
    (m n i : ℕ) (p : ℕ → ConnectPara) → listed (m + n) i p ≡ listed m i p ++ listed n (i + m) p
unfolding listed
listed-append zero n i p = ap₂ (λ a b. listed a b p) (zero_add n) (whole i)
  where
    zero_add : (n : ℕ) → 0 + n ≡ n
    zero_add n = omega arith
listed-append (suc m) n i p =
    ap (λ k. listed k i p) (suc_add m n)
    ∙ ap (λ t. p i ∷ t)
        (listed-append m n (suc i) p ∙ ap (λ k. listed m (suc i) p ++ listed n k p) (shifted i m))
  where
    suc_add : (m n : ℕ) → suc m + n ≡ suc (m + n)
    suc_add m n = omega arith

-- Where the first loop of `del_socket` stops, and what the list is without that entry.
pub record Located (count i : ℕ) (p : ℕ → ConnectPara) (socket : ℕ) (index : ℕ) : Type 0 where
  pub place : ℕ
  pub index_at : index ≡ i + place
  pub within : place < count
  pub rest :
      without socket (listed count i p)
      ≡ listed place i p ++ listed (count - 1 - place) (suc (i + place)) p

Location : ℕ → ℕ → (ℕ → ConnectPara) → ℕ → ℕ → Type 0
Location count i p socket index =
    (has_socket socket (listed count i p) ≡ true) × Located count i p socket index
    ⊎ (has_socket socket (listed count i p) ≡ false) × (index ≡ 0)

here-Located :
    (count i : ℕ) (p : ℕ → ConnectPara) (socket : ℕ)
    → ((p i).socket == socket) ≡ true
    → Located (suc count) i p socket i
unfolding listed
here-Located count i p socket e = record {
  place = 0;
  index_at = omega arith;
  within = omega arith;
  rest = rw e (ap₂ (λ a b. listed a b p) (the_count count) (the_start i));
}
  where
    the_count : (n : ℕ) → n ≡ suc n - 1 - 0
    the_count n = omega arith

    the_start : (i : ℕ) → suc i ≡ suc (i + 0)
    the_start i = omega arith

later-Located :
    (count i : ℕ) (p : ℕ → ConnectPara) (socket index : ℕ)
    → ((p i).socket == socket) ≡ false
    → Located count (suc i) p socket index
    → Located (suc count) i p socket index
unfolding listed
later-Located count i p socket index e l =
    let from = l.index_at in
    let below = l.within in
    record {
      place = suc l.place;
      index_at = omega arith;
      within = omega arith;
      rest = rw e (
          ap (λ t. p i ∷ t)
            (l.rest
              ∙ ap₂ (λ a b. listed l.place (suc i) p ++ listed a b p) (omega arith) (omega arith)));
    }

index_loop_lem :
    (count i : ℕ) (p : ℕ → ConnectPara) (socket : ℕ)
    → Location count i p socket (index_loop count i p socket)
unfolding Location index_loop listed
index_loop_lem zero i p socket = inr (refl, refl)
index_loop_lem (suc count) i p socket = elim (Bool-cases ((p i).socket == socket)) [
  | inl e ↦ rw e (inl (refl, here-Located count i p socket e))
  | inr e ↦ rw e (elim (index_loop_lem count (suc i) p socket) [
    | inl l ↦ inl (l.0, later-Located count i p socket _ e l.1)
    | inr l ↦ inr l
  ])
]

-- The entries after `del_socket`, which takes out the entry at an index.
removed :
    (num index : ℕ) (p : ℕ → ConnectPara) (last : ConnectPara)
    → index < num
    → listed (num - 1) 0 (set_para (shift_loop (num - 1 - index) index p) (num - 1) last)
      ≡ listed index 0 p ++ listed (num - 1 - index) (suc index) p
removed num index p last l =
    let count = num - 1 - index in
    let q = shift_loop count index p in
    let r = set_para q (num - 1) last in
    let whole : num - 1 ≡ index + count = omega arith in
    ap (λ k. listed k 0 r) whole
    ∙ listed-append index count 0 r
    ∙ ap₂ ◌++◌
        (listed_ext index 0 r p (λ j lo hi.
          set_para-other q (num - 1) j last (omega arith)
          ∙ shift_below count index p j (omega arith)))
        (ap (λ k. listed count k r) (omega arith)
          ∙ listed_shift count index (suc index) r p
              (λ j lo hi.
                set_para-other q (num - 1) j last (omega arith) ∙ shift_in count index p j lo hi)
              refl)

head_removed :
    (num : ℕ) (p : ℕ → ConnectPara)
    → 0 < num
    → listed 0 0 p ++ listed (num - 1 - 0) 1 p ≡ drop 1 (listed num 0 p)
unfolding listed
head_removed zero p l = absurd (omega arith)
head_removed (suc n) p l = ap (λ k. listed k 1 p) (omega arith)

-- What `index_loop` finds is taken out.
remaining :
    (num : ℕ) (p : ℕ → ConnectPara) (socket index : ℕ) (last : ConnectPara)
    → 0 < num
    → Location num 0 p socket index
    → listed (num - 1) 0 (set_para (shift_loop (num - 1 - index) index p) (num - 1) last) ≡ (
        if has_socket socket (listed num 0 p)
        then without socket (listed num 0 p)
        else drop 1 (listed num 0 p))
unfolding Location
remaining num p socket index last l (inl (h, f)) =
    let below = f.within in
    let from = f.index_at in
    let place : f.place ≡ index = omega arith in
    rw h (
      removed num index p last (omega arith)
      ∙ ap (λ k. listed k 0 p ++ listed (num - 1 - k) (suc k) p) (sym place)
      ∙ ap (λ k. listed f.place 0 p ++ listed (num - 1 - f.place) k p) (omega arith)
      ∙ sym f.rest)
remaining num p socket index last l (inr (h, z)) = rw h (
    removed num index p last (omega arith)
    ∙ ap (λ k. listed k 0 p ++ listed (num - 1 - k) (suc k) p) z
    ∙ head_removed num p l)

-- `del_socket` takes out the first entry that has the socket; with no such entry it takes out the
-- first entry of all, and with no entry at all it writes before the array (`none`).
pub del_socket_lem :
    (t : Connections) (socket : ℕ)
    → (t.num ≡ 0) × (del_socket t socket ≡ none)
      ⊎ ((t' : Connections) × (del_socket t socket ≡ some t')
          × (suc t'.num ≡ t.num)
          × (entries t' ≡ (
              if has_socket socket (entries t)
              then without socket (entries t)
              else drop 1 (entries t))))
unfolding del_socket
del_socket_lem t socket = elim (Bool-cases (t.num == 0)) [
  | inl e ↦ inl (==→≡ t.num 0 e, rw e refl)
  | inr e ↦
      let some_there = ==→≢ t.num 0 e in
      let index = index_loop t.num 0 t.para socket in
      let last : ConnectPara = record { pclient = 0; socket = 0 } in
      inr (
        record {
          para = set_para (shift_loop (t.num - 1 - index) index t.para) (t.num - 1) last;
          num = t.num - 1;
        },
        rw e refl,
        omega arith,
        remaining t.num t.para socket index last (omega arith)
            (index_loop_lem t.num 0 t.para socket),
      )
]
