-- ===== src/Consix/Run/Keeps.antt =====
-- What the calls of the search leave as it was: all fields but the board and the tables of histories.
-- On the board no square gets a stone.
use chess_set.Base.{
  ℕ, Bool, true, false, ◌&&◌, ◌≡◌, refl, sym, ap, ◌∙◌, fun_ext, ◌⊎◌, inl, inr, List, [], ◌∷◌, ◌++◌,
  if◌then◌else◌, Bool-cases, and_split,
}
use chess_set.Base.Int.{ℤ, ◌==ℤ◌, ==ℤ→≡}
use chess_set.Consix.State.{Point, Board, Search, put, empty}
use chess_set.Consix.Move.{put_stone}
use chess_set.Consix.Run.{Run, ◌>>=◌, ◌>>◌, pure, gets, gather, place, with_stone, with_stones}

-- Of two boards: a square that differs is empty on the second, and is one of those that `P` allows.
abbrev pub Emptied : (ℤ → ℤ → Type 0) → Board → Board → Type 0
Emptied P b b' = (x y : ℤ) → (b' x y ≡ b x y) ⊎ ((b' x y ≡ empty) × P x y)

-- All squares are allowed.
abbrev pub Anywhere : ℤ → ℤ → Type 0
Anywhere x y = Unit

-- The squares that are empty on a board.
abbrev pub Free : Board → ℤ → ℤ → Type 0
Free b x y = b x y ≡ empty

module _ (P : ℤ → ℤ → Type 0) where
  pub record Keeps (g g' : Search) : Type 0 where
    pub board : Emptied P g.board g'.board
    pub rest : g' ≡ record g {
      board = g'.board;
      temp_hash_table = g'.temp_hash_table;
      hash_list = g'.hash_list;
    }

  pub Emptied-refl : (b : Board) → Emptied P b b
  Emptied-refl b x y = inl refl

  pub Emptied-trans : (a b c : Board) → Emptied P a b → Emptied P b c → Emptied P a c
  Emptied-trans a b c h k x y = elim (k x y) [
    | inl same ↦ elim (h x y) [ inl e ↦ inl (same ∙ e) | inr e ↦ inr (same ∙ e.0, e.1) ]
    | inr gone ↦ inr gone
  ]

  pub Keeps-refl : (g : Search) → Keeps g g
  Keeps-refl g = record { board = Emptied-refl g.board; rest = refl }

  pub Keeps-trans : (f g h : Search) → Keeps f g → Keeps g h → Keeps f h
  Keeps-trans f g h k l = record {
    board = Emptied-trans f.board g.board h.board k.board l.board;
    rest =
        l.rest
        ∙ ap
            (λ (s : Search). record s {
              board = h.board;
              temp_hash_table = h.temp_hash_table;
              hash_list = h.hash_list;
            })
            k.rest;
  }

  -- The squares that are empty now are allowed.
  abbrev pub Within : Board → Type 0
  Within b = (x y : ℤ) → b x y ≡ empty → P x y

  Keeps-Within : (g h : Search) → Keeps g h → Within g.board → Within h.board
  Keeps-Within g h k w x y e = elim (k.board x y) [
    | inl same ↦ w x y (sym same ∙ e)
    | inr gone ↦ gone.1
  ]

  -- An action that keeps, from whatever state it starts.
  pub record IsSafe {A : Type 0} (m : Run A) : Type 0 where
    pub keeps : (g : Search) → Within g.board → Keeps g (m g).1

  module _ {A : Type 0} where
    pub pure-IsSafe : (a : A) → IsSafe (pure a)
    unfolding pure
    pure-IsSafe a = record { keeps = λ g w. Keeps-refl g }

    pub gets-IsSafe : (f : Search → A) → IsSafe (gets f)
    unfolding gets
    gets-IsSafe f = record { keeps = λ g w. Keeps-refl g }

    pub if-IsSafe : (c : Bool) {m k : Run A} → IsSafe m → IsSafe k → IsSafe (if c then m else k)
    if-IsSafe true h k = h
    if-IsSafe false h k = k

  pub bind-IsSafe :
      {A B : Type 0} {m : Run A} {f : A → Run B}
      → IsSafe m
      → ((a : A) → IsSafe (f a))
      → IsSafe (m >>= f)
  unfolding ◌>>=◌
  bind-IsSafe {A} {B} {m} {f} h k = record {
    keeps = λ g w.
        let one : Keeps g (m g).1 = h.keeps g w in
        Keeps-trans g (m g).1 (f (m g).0 (m g).1).1 one
          ((k (m g).0).keeps (m g).1 (Keeps-Within g (m g).1 one w));
  }

  pub then-IsSafe : {A B : Type 0} {m : Run A} {k : Run B} → IsSafe m → IsSafe k → IsSafe (m >> k)
  unfolding ◌>>◌
  then-IsSafe {A} {B} {m} {k} h l = record {
    keeps = λ g w.
        let one : Keeps g (m g).1 = h.keeps g w in
        Keeps-trans g (m g).1 (k (m g).1).1 one (l.keeps (m g).1 (Keeps-Within g (m g).1 one w));
  }

  pub gather-IsSafe :
      {A B : Type 0} {f : A → Run (List B)} (xs : List A)
      → ((a : A) → IsSafe (f a))
      → IsSafe (gather xs f)
  unfolding gather
  gather-IsSafe [] h = pure-IsSafe []
  gather-IsSafe (x ∷ xs) h =
      bind-IsSafe (h x)
        (λ found. bind-IsSafe (gather-IsSafe xs h) (λ more. pure-IsSafe (found ++ more)))

  -- A point on a square that `P` allows.
  abbrev pub Allowed : Point → Type 0
  Allowed p = P p.x p.y

  allowed_here : (i j x y : ℤ) → (i ==ℤ x && j ==ℤ y) ≡ true → P i j → P x y
  allowed_here i j x y h a =
      let both = and_split (i ==ℤ x) (j ==ℤ y) h in rw (← ==ℤ→≡ i x both.0, ← ==ℤ→≡ j y both.1) a

  pub put-Within : (p : Point) (s : ℕ) (b : Board) → Allowed p → Within b → Within (put b p.x p.y s)
  put-Within p s b a w x y = elim (Bool-cases (p.x ==ℤ x && p.y ==ℤ y)) [
    | inl e ↦ rw e (λ _. allowed_here p.x p.y x y e a)
    | inr e ↦ rw e (w x y)
  ]

  -- A stone that is put, and taken away after the board has changed only by losing stones.
  pub put-Emptied :
      (p : Point) (s : ℕ) (b b' : Board)
      → Allowed p
      → Emptied P (put b p.x p.y s) b'
      → Emptied P b (put b' p.x p.y empty)
  put-Emptied p s b b' a h x y = elim (Bool-cases (p.x ==ℤ x && p.y ==ℤ y)) [
    | inl e ↦ rw e (inr (refl, allowed_here p.x p.y x y e a))
    | inr e ↦ rw e (rw e at (h x y))
  ]

  pub puts-Emptied :
      (p q : Point) (s : ℕ) (b b' : Board)
      → Allowed p
      → Allowed q
      → Emptied P (put (put b p.x p.y s) q.x q.y s) b'
      → Emptied P b (put (put b' p.x p.y empty) q.x q.y empty)
  puts-Emptied p q s b b' a c h x y = elim (Bool-cases (q.x ==ℤ x && q.y ==ℤ y)) [
    | inl e ↦ rw e (inr (refl, allowed_here q.x q.y x y e c))
    | inr e ↦ elim (Bool-cases (p.x ==ℤ x && p.y ==ℤ y)) [
      | inl d ↦ rw (e, d) (inr (refl, allowed_here p.x p.y x y d a))
      | inr d ↦ rw (e, d) (rw (e, d) at (h x y))
    ]
  ]

  module _ {A : Type 0} {look : Run A} (p : Point) (s : ℕ) where
    pub with_stone-IsSafe : Allowed p → IsSafe look → IsSafe (with_stone p s look)
    unfolding with_stone ◌>>=◌ ◌>>◌ place pure
    with_stone-IsSafe a h = record {
      keeps = λ g w.
          let k : Keeps (put_stone g p s) (look (put_stone g p s)).1 =
            h.keeps (put_stone g p s) (put-Within p s g.board a w) in
          record {
            board = put-Emptied p s g.board (look (put_stone g p s)).1.board a k.board;
            rest = ap (λ (t : Search). put_stone t p empty) k.rest;
          };
    }

    pub with_stones-IsSafe :
        (q : Point) → Allowed p → Allowed q → IsSafe look → IsSafe (with_stones p q s look)
    unfolding with_stones ◌>>=◌ ◌>>◌ place pure
    with_stones-IsSafe q a c h = record {
      keeps = λ g w.
          let start : Search = put_stone (put_stone g p s) q s in
          let k : Keeps start (look start).1 =
            h.keeps start (put-Within q s (put g.board p.x p.y s) c (put-Within p s g.board a w)) in
          record {
            board = puts-Emptied p q s g.board (look start).1.board a c k.board;
            rest = ap (λ (t : Search). put_stone (put_stone t p empty) q empty) k.rest;
          };
    }

-- Where only squares that were empty are allowed, the board is as it was.
pub Emptied-eq : (b b' : Board) → Emptied (Free b) b b' → b' ≡ b
Emptied-eq b b' h = fun_ext λ x. fun_ext λ y. elim (h x y) [ inl e ↦ e | inr e ↦ e.0 ∙ sym e.1 ]

-- An action that keeps the squares that are empty gives back the board, the table of lines, the key
-- and all other fields but the tables of histories.
abbrev pub Restores : Search → Search → Type 0
Restores g g' = g' ≡ record g { temp_hash_table = g'.temp_hash_table; hash_list = g'.hash_list }

pub Keeps-Restores : (g g' : Search) → Keeps (Free g.board) g g' → Restores g g'
Keeps-Restores g g' k = k.rest ∙ (λ i. record g {
  board = Emptied-eq g.board g'.board k.board i;
  temp_hash_table = g'.temp_hash_table;
  hash_list = g'.hash_list;
})

pub IsSafe-Restores :
    {A : Type 0} (m : Run A) (g : Search) → IsSafe (Free g.board) m → Restores g (m g).1
IsSafe-Restores m g h = Keeps-Restores g (m g).1 (h.keeps g (λ x y e. e))
