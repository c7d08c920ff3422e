-- ===== src/Websocket/Clients/Without.antt =====
-- A linked list without one of its clients.
use chess_set.Base.{
  ℕ, zero, suc, ◌≤◌, ◌≡◌, ◌≢◌, refl, sym, ◌∙◌, ap, subst, inl, inr, true, false, true≢false, ◌||◌,
  or_none, Bool-cases, List, [], ◌∷◌, if◌then◌else◌, if_true, if_false, ◌==◌, ==→≡, ==→≢, ≡→==,
  ≢→==, length, arith,
}
use chess_set.Websocket.Clients.{Client, Clients, set_next, unlink, remove_loop}
use chess_set.Websocket.Clients.Chain.{
  Linked, has, Distinct, last_of, last_of-ne, set_next-other, set_next-own, Linked-set_next,
}

-- The list without a client.
abbrev pub remove : ℕ → List ℕ → List ℕ
remove r [] = []
remove r (x ∷ xs) = if x == r then xs else x ∷ remove r xs

-- The client before `r` in a list, where `p` is before the list.
abbrev pub pred : ℕ → List ℕ → ℕ → ℕ
pred p [] r = p
pred p (x ∷ xs) r = if x == r then p else pred x xs r

-- Where the loop of `list_remove` stops.
pub remove_loop_lem :
    (fuel : ℕ) (s : Clients) (r p n : ℕ) (zs : List ℕ)
    → length zs ≤ fuel
    → Linked s.nodes n zs 0
    → remove_loop fuel s r p n ≡ (if has r zs then unlink s (pred p zs r) r else s)
unfolding remove_loop
remove_loop_lem zero s r p n [] h l = refl
remove_loop_lem zero s r p n (x ∷ xs) h l = absurd (omega arith)
remove_loop_lem (suc fuel) s r p n [] h l = rw (≡→== n 0 l) refl
remove_loop_lem (suc fuel) s r p n (x ∷ xs) h (e, z, l) =
    let there : (n == 0) ≡ false = ≢→== n 0 (λ q. z (sym e ∙ q)) in
    elim (Bool-cases (x == r)) [
      | inl k ↦ rw (there, e, k) (ap (unlink s p) (==→≡ x r k))
      | inr k ↦ rw (there, e, k) (remove_loop_lem fuel s r x (s.nodes x).next xs (omega arith) l)
    ]

pub length-remove : (r : ℕ) (xs : List ℕ) → has r xs ≡ true → suc (length (remove r xs)) ≡ length xs
length-remove r [] h = absurd (true≢false (sym h))
length-remove r (x ∷ xs) h = elim (Bool-cases (x == r)) [
  | inl e ↦ rw e refl
  | inr e ↦ rw e (ap suc (length-remove r xs (sym (ap (λ b. b || has r xs) e) ∙ h)))
]

pub has-remove : (y r : ℕ) (xs : List ℕ) → has y xs ≡ false → has y (remove r xs) ≡ false
has-remove y r [] h = refl
has-remove y r (x ∷ xs) h =
    let (a, b) = or_none (x == y) (has y xs) h in
    elim (Bool-cases (x == r)) [ inl e ↦ rw e b | inr e ↦ rw (e, a) (has-remove y r xs b) ]

pub Distinct-remove : (r : ℕ) (xs : List ℕ) → Distinct xs → Distinct (remove r xs)
Distinct-remove r [] d = d
Distinct-remove r (x ∷ xs) (fresh, d) = elim (Bool-cases (x == r)) [
  | inl e ↦ rw e d
  | inr e ↦ rw e (has-remove x r xs fresh, Distinct-remove r xs d)
]

pub later : (x r : ℕ) (xs : List ℕ) → (x == r) ≡ false → has r (x ∷ xs) ≡ true → has r xs ≡ true
later x r xs e h = sym (ap (λ b. b || has r xs) e) ∙ h

pub choose :
    (P : ℕ → List ℕ → Type 0) {q q' : ℕ} {zs zs' : List ℕ} → q ≡ q' → zs ≡ zs' → P q zs → P q' zs'
choose P {q} {q'} {zs} {zs'} e f x = subst (λ t. P t zs') e (subst (P q) f x)

-- The client before `r` is given what comes after `r`.
pub Linked-remove :
    (nodes : ℕ → Client) (r p x : ℕ) (xs : List ℕ)
    → Distinct (x ∷ xs)
    → (x == r) ≡ false
    → has r xs ≡ true
    → Linked nodes p (x ∷ xs) 0
    → Linked (set_next nodes (pred x xs r) (nodes r).next) p (x ∷ remove r xs) 0
Linked-remove nodes r p x [] d ne h l = absurd (true≢false (sym h))
Linked-remove nodes r p x (y ∷ ys) (fresh, d) ne h (e, z, (f, z', l)) =
    let after = (nodes r).next in
    let whole = λ (q : ℕ) (zs : List ℕ). Linked (set_next nodes q after) p (x ∷ zs) 0 in
    let pr = pred y ys r in
    elim (Bool-cases (y == r)) [
      | inl k ↦
          let same = ap (λ c. (nodes c).next) (sym (==→≡ y r k)) in
          let kept =
            Linked-set_next nodes x after (nodes y).next ys 0 (or_none (y == x) (has x ys) fresh).1
              l in
          let own = sym (set_next-own nodes x after ∙ same) in
          choose whole (sym (if_true (y == r) x pr k))
            (sym (if_true (y == r) ys (y ∷ remove r ys) k))
            (e, z, subst (λ q. Linked (set_next nodes x after) q ys 0) own kept)
      | inr k ↦
          let kept = Linked-remove nodes r (nodes x).next y ys d k (later y r ys k h) (f, z', l) in
          let other = sym (set_next-other nodes pr after x (not_pred x y ys r fresh)) in
          choose whole (sym (if_false (y == r) x pr k))
            (sym (if_false (y == r) ys (y ∷ remove r ys) k))
            (
              e,
              z,
              subst (λ c. Linked (set_next nodes pr after) c.next (y ∷ remove r ys) 0) other kept,
            )
    ]
  where
    not_pred : (x y : ℕ) (ys : List ℕ) (r : ℕ) → has x (y ∷ ys) ≡ false → pred y ys r ≢ x
    not_pred x y [] r h q = ==→≢ y x (or_none (y == x) false h).0 q
    not_pred x y (w ∷ ws) r h q = elim (Bool-cases (w == r)) [
      | inl k ↦ ==→≢ y x (or_none (y == x) _ h).0 (sym (if_true _ y (pred w ws r) k) ∙ q)
      | inr k ↦ not_pred x w ws r (or_none (y == x) _ h).1 (sym (if_false _ y (pred w ws r) k) ∙ q)
    ]

-- The last of the list that remains.
pub last_of-remove :
    (r x : ℕ) (xs : List ℕ)
    → Distinct (x ∷ xs)
    → (x == r) ≡ false
    → has r xs ≡ true
    → (if r == last_of (x ∷ xs) then pred x xs r else last_of (x ∷ xs)) ≡ last_of (x ∷ remove r xs)
last_of-remove r x [] d ne h = absurd (true≢false (sym h))
last_of-remove r x (y ∷ []) d ne h = elim (Bool-cases (y == r)) [
  | inl k ↦ rw (≡→== r y (sym (==→≡ y r k)), k) refl
  | inr k ↦ absurd (true≢false (sym (later y r [] k h)))
]
last_of-remove r x (y ∷ w ∷ ws) d ne h = elim (Bool-cases (y == r)) [
  | inl k ↦
      let same = ==→≡ y r k in
      let not_last = last_of-ne y w ws d.1.0 in
      rw (≢→== r (last_of (w ∷ ws)) (λ q. not_last (sym (same ∙ q))), k) refl
  | inr k ↦ rw k (last_of-remove r y (w ∷ ws) d.1 k (later y r (w ∷ ws) k h))
]
