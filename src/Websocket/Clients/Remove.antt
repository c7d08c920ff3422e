-- ===== src/Websocket/Clients/Remove.antt =====
-- `list_remove` takes one client out of the list.
use chess_set.Base.{
  ℕ, ◌≤◌, ◌≡◌, ◌≢◌, refl, sym, ◌∙◌, ap, subst, inl, inr, true, false, true≢false, or_none,
  Bool-cases, List, [], ◌∷◌, if◌then◌else◌, if_true, if_false, ◌==◌, ==→≡, ==→≢, ≡→==, ≢→==, length,
  arith,
}
use chess_set.Websocket.Clients.{Clients, set_next, unlink, trim, list_remove}
use chess_set.Websocket.Clients.Chain.{Linked, has, Distinct, last_of, Holds, last_of-ne}
use chess_set.Websocket.Clients.Without.{
  remove, pred, remove_loop_lem, length-remove, has-remove, Distinct-remove, Linked-remove,
  last_of-remove, choose, later,
}

-- The list is in order but for `last`, which matters only if there are two or more.
record Loose (t : Clients) (xs : List ℕ) : Type 0 where
  linked : Linked t.nodes t.first xs 0
  distinct : Distinct xs
  last_eq : 2 ≤ length xs → t.last ≡ last_of xs
  len_eq : t.len ≡ length xs

trim-Holds : (t : Clients) (xs : List ℕ) → Loose t xs → Holds (trim t) xs
unfolding trim
trim-Holds t [] k =
    rw (≡→== t.len 0 k.len_eq)
      (record { linked = refl; distinct = tt; last_eq = refl; len_eq = k.len_eq })
trim-Holds t (x ∷ []) k =
    let size = k.len_eq in
    let not0 : (t.len == 0) ≡ false = ≢→== t.len 0 (omega arith) in
    let is1 : (t.len == 1) ≡ true = ≡→== t.len 1 size in
    rw (not0, is1)
      (record { linked = k.linked; distinct = k.distinct; last_eq = k.linked.0; len_eq = k.len_eq })
trim-Holds t (x ∷ y ∷ ys) k =
    let size = k.len_eq in
    let not0 : (t.len == 0) ≡ false = ≢→== t.len 0 (omega arith) in
    let not1 : (t.len == 1) ≡ false = ≢→== t.len 1 (omega arith) in
    rw (not0, not1)
      (record {
        linked = k.linked;
        distinct = k.distinct;
        last_eq = k.last_eq (omega arith);
        len_eq = k.len_eq;
      })

-- The first client leaves.
unlink_first :
    (s : Clients) (r junk x : ℕ) (xs : List ℕ)
    → x ≡ r
    → Holds s (x ∷ xs)
    → Loose (unlink s junk r) xs
unfolding unlink
unlink_first s r junk x xs e k =
    let front : (r == s.first) ≡ true = ≡→== r s.first (sym e ∙ sym k.linked.0) in
    let size = k.len_eq in
    record {
      linked = rw front (subst (λ c. Linked s.nodes (s.nodes c).next xs 0) e k.linked.2);
      distinct = k.distinct.1;
      last_eq = λ two. not_the_last xs two k.distinct.0 k.last_eq;
      len_eq = omega arith;
    }
  where
    not_the_last :
        (ys : List ℕ)
        → 2 ≤ length ys
        → has x ys ≡ false
        → s.last ≡ last_of (x ∷ ys)
        → (if r == s.last then junk else s.last) ≡ last_of ys
    not_the_last [] two fresh l = absurd (omega arith)
    not_the_last (y ∷ ys) two fresh l =
        let ne : (r == s.last) ≡ false =
          ≢→== r s.last (λ q. last_of-ne x y ys fresh (sym l ∙ sym q ∙ sym e)) in
        rw ne l

-- A later client leaves.
unlink_later :
    (s : Clients) (r x : ℕ) (xs : List ℕ)
    → (x == r) ≡ false
    → has r xs ≡ true
    → Holds s (x ∷ xs)
    → Loose (unlink s (pred x xs r) r) (x ∷ remove r xs)
unfolding unlink
unlink_later s r x xs ne h k =
    let apart = ==→≢ x r ne in
    let behind : (r == s.first) ≡ false = ≢→== r s.first (λ q. apart (sym k.linked.0 ∙ sym q)) in
    let size = k.len_eq in
    let less = length-remove r xs h in
    let after = (s.nodes r).next in
    let changed = set_next s.nodes (pred x xs r) after in
    record {
      linked =
          subst (λ n. Linked n (if r == s.first then after else s.first) (x ∷ remove r xs) 0)
            (sym (if_false (r == s.first) s.nodes changed behind))
            (subst (λ f. Linked changed f (x ∷ remove r xs) 0)
              (sym (if_false (r == s.first) after s.first behind))
              (Linked-remove s.nodes r s.first x xs k.distinct ne h k.linked));
      distinct = (has-remove x r xs k.distinct.0, Distinct-remove r xs k.distinct.1);
      last_eq = λ two.
          ap (λ l. if r == l then pred x xs r else l) k.last_eq
          ∙ last_of-remove r x xs k.distinct ne h;
      len_eq = omega arith;
    }

-- What `list_remove` does once it has found the client.
unlinked :
    (s : Clients) (r junk : ℕ) (xs : List ℕ)
    → has r xs ≡ true
    → Holds s xs
    → Loose (unlink s (pred junk xs r) r) (remove r xs)
unlinked s r junk [] h k = absurd (true≢false (sym h))
unlinked s r junk (x ∷ xs) h k =
    let result = λ (q : ℕ) (zs : List ℕ). Loose (unlink s q r) zs in
    elim (Bool-cases (x == r)) [
      | inl e ↦
          choose result (sym (if_true (x == r) junk (pred x xs r) e))
            (sym (if_true (x == r) xs (x ∷ remove r xs) e))
            (unlink_first s r junk x xs (==→≡ x r e) k)
      | inr e ↦
          choose result (sym (if_false (x == r) junk (pred x xs r) e))
            (sym (if_false (x == r) xs (x ∷ remove r xs) e))
            (unlink_later s r x xs e (later x r xs e h) k)
    ]

stays : (r : ℕ) (xs : List ℕ) → has r xs ≡ false → remove r xs ≡ xs
stays r [] h = refl
stays r (x ∷ xs) h =
    let (a, b) = or_none (x == r) (has r xs) h in rw a (ap (λ t. x ∷ t) (stays r xs b))

as_it_is : {s : Clients} {xs : List ℕ} → Holds s xs → Loose s xs
as_it_is k = record {
  linked = k.linked;
  distinct = k.distinct;
  last_eq = λ two. k.last_eq;
  len_eq = k.len_eq;
}

-- In a list that holds `xs`, with fuel for its length, `list_remove` of a client that is not
-- NULL leaves a list that holds `xs` without it, whatever its variable `p` held at first; a
-- client that is not in the list changes nothing in what the list holds.
pub list_remove-Holds :
    (fuel : ℕ) (s : Clients) (r junk : ℕ) (xs : List ℕ)
    → length xs ≤ fuel
    → r ≢ 0
    → Holds s xs
    → Holds (list_remove fuel s r junk) (remove r xs)
unfolding list_remove
list_remove-Holds fuel s r junk [] h nz k = rw (≡→== s.first 0 k.linked) k
list_remove-Holds fuel s r junk (x ∷ xs) h nz k =
    let there : (s.first == 0) ≡ false = ≢→== s.first 0 (λ q. k.linked.1 (sym k.linked.0 ∙ q)) in
    let given : (r == 0) ≡ false = ≢→== r 0 nz in
    rw (there, given, remove_loop_lem fuel s r junk s.first (x ∷ xs) h k.linked)
      (trim-Holds _ _ (elim (Bool-cases (has r (x ∷ xs))) [
        | inl e ↦ loop_end (sym (if_true _ _ _ e)) (unlinked s r junk (x ∷ xs) e k)
        | inr e ↦
            loop_end (sym (if_false _ _ _ e))
              (subst (λ t. Loose s t) (sym (stays r (x ∷ xs) e)) (as_it_is k))
      ]))
  where
    loop_end :
        {t t' : Clients} → t ≡ t' → Loose t (remove r (x ∷ xs)) → Loose t' (remove r (x ∷ xs))
    loop_end e l = subst (λ v. Loose v (remove r (x ∷ xs))) e l
