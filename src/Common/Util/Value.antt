-- ===== src/Common/Util/Value.antt =====
-- What `get_val_by_key` finds, against a description by concatenation.
use chess_set.Base.{
  ℕ, zero, suc, ◌+◌, ◌<◌, ◌≡◌, refl, sym, ◌∙◌, ap, ap₂, ◌⊎◌, inl, inr, true, false, Bool-cases,
  and_split, none, some, [], ◌∷◌, ◌++◌, append-nil, ltb, lt→ltb, le→ltb, ◌==◌, ==→≡, length,
  length-append, drop, drop-append, subst, arith,
}
use chess_set.Common.Util.{
  Bytes, starts_with, strstr, until_semicolon, Lookup, missing, found, overrun, value_at,
  value_from, get_val_by_key,
}

-- The key does not start at any of the first `n` places.
abbrev pub NotBefore : Bytes → Bytes → ℕ → Type 0
NotBefore text key n = (m : ℕ) → m < n → starts_with key (drop m text) ≡ false

-- `data` is `before`, the key, one more byte, the value, and then nothing or a `;`.
pub record HasValue (text : Bytes) (key : Bytes) (value : Bytes) : Type 0 where
  pub before : Bytes
  pub separator : ℕ
  pub after : Bytes
  pub parts : text ≡ before ++ (key ++ (separator ∷ (value ++ after)))
  pub first : NotBefore text key (length before)
  pub ends : (after ≡ []) ⊎ ((rest : Bytes) × (after ≡ 59 ∷ rest))
  pub whole : until_semicolon value ≡ value

starts_with-append :
    (key text : Bytes) → starts_with key text ≡ true → (rest : Bytes) × (text ≡ key ++ rest)
unfolding starts_with
starts_with-append [] text h = (text, refl)
starts_with-append (k ∷ ks) [] h = cc
starts_with-append (k ∷ ks) (c ∷ cs) h =
    let (e, more) = and_split (k == c) (starts_with ks cs) h in
    let (rest, same) = starts_with-append ks cs more in (rest, ap₂ ◌∷◌ (sym (==→≡ k c e)) same)

-- The place that `strstr` returns is the first one where the key stands.
pub record FirstAt (text : Bytes) (key : Bytes) (i : ℕ) : Type 0 where
  pub before : Bytes
  pub rest : Bytes
  pub place : length before ≡ i
  pub parts : text ≡ before ++ (key ++ rest)
  pub first : NotBefore text key (length before)

at_start : (text key : Bytes) → starts_with key text ≡ true → FirstAt text key 0
at_start text key h =
    let (rest, e) = starts_with-append key text h in
    record {
      before = [];
      rest = rest;
      place = refl;
      parts = e;
      first = λ m l. absurd (omega arith);
    }

one_later :
    (c : ℕ) (cs key : Bytes) (i : ℕ)
    → starts_with key (c ∷ cs) ≡ false
    → FirstAt cs key i
    → FirstAt (c ∷ cs) key (suc i)
one_later c cs key i h f = record {
  before = c ∷ f.before;
  rest = f.rest;
  place = ap suc f.place;
  parts = ap (λ t. c ∷ t) f.parts;
  first = not_here f.first;
}
  where
    not_here : {n : ℕ} → NotBefore cs key n → NotBefore (c ∷ cs) key (suc n)
    not_here g zero l = h
    not_here g (suc m) l = g m (omega arith)

-- The key does not occur in the text.
abbrev pub Absent : Bytes → Bytes → Type 0
Absent text key = (m : ℕ) → starts_with key (drop m text) ≡ false

cons-Absent :
    (c : ℕ) (cs key : Bytes)
    → starts_with key (c ∷ cs) ≡ false
    → Absent cs key
    → Absent (c ∷ cs) key
cons-Absent c cs key h a zero = h
cons-Absent c cs key h a (suc m) = a m

nil-Absent : (key : Bytes) → starts_with key [] ≡ false → Absent [] key
nil-Absent key h zero = h
nil-Absent key h (suc m) = h

-- `strstr` returns the first place of the key, and NULL if there is none.
strstr_lem :
    (text key : Bytes)
    → (strstr text key ≡ none) × Absent text key
      ⊎ ((i : ℕ) × (strstr text key ≡ some i) × FirstAt text key i)
unfolding strstr
strstr_lem [] key = elim (Bool-cases (starts_with key [])) [
  | inl e ↦ inr (0, rw e refl, at_start [] key e)
  | inr e ↦ inl (rw e refl, nil-Absent key e)
]
strstr_lem (c ∷ cs) key = elim (Bool-cases (starts_with key (c ∷ cs))) [
  | inl e ↦ inr (0, rw e refl, at_start (c ∷ cs) key e)
  | inr e ↦ elim (strstr_lem cs key) [
    | inl none_there ↦ inl (rw (e, none_there.0) refl, cons-Absent c cs key e none_there.1)
    | inr there ↦ inr (suc there.0, rw (e, there.1) refl, one_later c cs key there.0 e there.2)
  ]
]

-- The value ends where the text ends or at a `;`.
until_semicolon_lem :
    (text : Bytes)
    → (after : Bytes) × (text ≡ until_semicolon text ++ after)
      × ((after ≡ []) ⊎ ((rest : Bytes) × (after ≡ 59 ∷ rest)))
unfolding until_semicolon
until_semicolon_lem [] = ([], refl, inl refl)
until_semicolon_lem (c ∷ cs) = elim (Bool-cases (c == 59)) [
  | inl e ↦ (c ∷ cs, rw e refl, inr (cs, ap (λ t. t ∷ cs) (==→≡ c 59 e)))
  | inr e ↦
      let (after, same, ends) = until_semicolon_lem cs in (after, rw e (ap (λ t. c ∷ t) same), ends)
]

until_semicolon_twice :
    (text : Bytes) → until_semicolon (until_semicolon text) ≡ until_semicolon text
unfolding until_semicolon
until_semicolon_twice [] = refl
until_semicolon_twice (c ∷ cs) = elim (Bool-cases (c == 59)) [
  | inl e ↦ rw e refl
  | inr e ↦ rw (e, e) (ap (λ t. c ∷ t) (until_semicolon_twice cs))
]

-- What a result of `get_val_by_key` says about the text.
abbrev pub Outcome : Bytes → Bytes → Lookup → Type 0
Outcome text key missing = Absent text key
Outcome text key (found value) = HasValue text key value
Outcome text key overrun =
    (before : Bytes) × (text ≡ before ++ key) × NotBefore text key (length before)

at_end :
    (text key before : Bytes) (i : ℕ)
    → length before ≡ i
    → text ≡ before ++ (key ++ [])
    → NotBefore text key (length before)
    → Outcome text key (value_at text key i)
unfolding value_at
at_end text key before i place parts first =
    let whole = parts ∙ ap (λ t. before ++ t) (append-nil key) in
    let size : length text ≡ length before + length key =
      ap length whole ∙ length-append before key in
    let short : ltb (length text) (i + length key + 1) ≡ true = lt→ltb _ _ (omega arith) in
    rw short (before, whole, first)

in_text :
    (text key before : Bytes) (i c : ℕ) (cs : Bytes)
    → length before ≡ i
    → text ≡ before ++ (key ++ (c ∷ cs))
    → NotBefore text key (length before)
    → Outcome text key (value_at text key i)
unfolding value_at
in_text text key before i c cs place parts first =
    let size : length text ≡ length before + length (key ++ (c ∷ cs)) =
      ap length parts ∙ length-append before (key ++ (c ∷ cs)) in
    let size' = length-append key (c ∷ cs) in
    let long : ltb (length text) (i + length key + 1) ≡ false = le→ltb _ _ (omega arith) in
    let start : drop (i + length key + 1) text ≡ cs =
      ap₂ drop (ap (λ k. k + length key + 1) (sym place)) parts
      ∙ ap (λ k. drop k (before ++ (key ++ (c ∷ cs)))) (omega arith)
      ∙ drop-append before (key ++ (c ∷ cs)) (length key + 1)
      ∙ drop-append key (c ∷ cs) 1 in
    let (after, same, ends) = until_semicolon_lem cs in
    rw (long, start)
      (record {
        before = before;
        separator = c;
        after = after;
        parts = parts ∙ ap (λ t. before ++ (key ++ (c ∷ t))) same;
        first = first;
        ends = ends;
        whole = until_semicolon_twice cs;
      })

-- The two cases of `value_at`, at the place that `strstr` found.
value_at_lem :
    (text key : Bytes) (i : ℕ) → FirstAt text key i → Outcome text key (value_at text key i)
value_at_lem text key i f = by_rest f.rest f.parts
  where
    by_rest :
        (rest : Bytes) → text ≡ f.before ++ (key ++ rest) → Outcome text key (value_at text key i)
    by_rest [] parts = at_end text key f.before i f.place parts f.first
    by_rest (c ∷ cs) parts = in_text text key f.before i c cs f.place parts f.first

-- For every text and every key that is not empty: a value that is found stands in the text behind
-- the first occurrence of the key and one more byte, and ends before the first `;` or at the end; if
-- NULL is returned the key does not occur; and if the code reads behind the text's terminator, the
-- first occurrence of the key is the end of the text.
pub get_val_by_key_lem :
    (text key : Bytes) → 0 < length key → Outcome text key (get_val_by_key text key)
unfolding get_val_by_key value_from starts_with
get_val_by_key_lem text [] h = absurd (omega arith)
get_val_by_key_lem [] (k ∷ ks) h = nil-Absent (k ∷ ks) refl
get_val_by_key_lem (c ∷ cs) (k ∷ ks) h = elim (strstr_lem (c ∷ cs) (k ∷ ks)) [
  | inl a ↦ subst (λ o. Outcome (c ∷ cs) (k ∷ ks) (value_from (c ∷ cs) (k ∷ ks) o)) (sym a.0) a.1
  | inr f ↦
      subst (λ o. Outcome (c ∷ cs) (k ∷ ks) (value_from (c ∷ cs) (k ∷ ks) o)) (sym f.1)
        (value_at_lem (c ∷ cs) (k ∷ ks) f.0 f.2)
]
