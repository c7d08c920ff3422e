-- ===== src/Consix/Move/Key.antt =====
-- The key of a position, `HashKey64`, is that of the stones on the board, however they came there.
use chess_set.Base.{
  ℕ, zero, suc, ◌<◌, ◌≡◌, ◌≢◌, refl, sym, ◌∙◌, ap, ap₂, true, false, inl, inr, Bool-cases, bit_xor,
  if◌then◌else◌, ◌==◌, ◌&&◌, ==→≡, arith,
}
use chess_set.Base.Int.{ℤ, pos, negsuc, ◌==ℤ◌, ≢→==ℤ, ==ℤ_refl, int_laws}
use chess_set.Base.Xor.{xor_swap, xor_comm, zero-xor}
use chess_set.Consix.State.{Step, Search, Board, Lines, put, empty}
use chess_set.Consix.Coord.Geometry.{OnBoard}
use chess_set.Consix.Lines.{pos_of}
use chess_set.Consix.Move.{toggle_step, update_board, make_move}

-- `f 0 ^ f 1 ^ … ^ f (n - 1)`.
abbrev pub xor_below : ℕ → (ℕ → ℕ) → ℕ
xor_below zero f = 0
xor_below (suc n) f = bit_xor (xor_below n f) (f n)

-- What one square of a board adds to the key: nothing if it is empty, and else the key of its stone.
abbrev pub square_key : (ℕ → ℤ → ℤ → ℕ) → Board → ℕ → ℕ → ℕ
square_key keys b i j =
    let stone = b (pos i) (pos j) in if stone == empty then 0 else keys stone (pos i) (pos j)

-- The key of all stones on the 19 by 19 squares of a board.
unfoldable pub position_key : (ℕ → ℤ → ℤ → ℕ) → Board → ℕ
position_key keys b = xor_below 19 (λ i. xor_below 19 (square_key keys b i))

-- The key of the game is that of its board.
abbrev pub HasKey : Search → Type 0
HasKey g = g.hash_key64 ≡ position_key g.hash_board g.board

xor_below-same :
    (n : ℕ) (f h : ℕ → ℕ) → ((j : ℕ) → j < n → h j ≡ f j) → xor_below n h ≡ xor_below n f
xor_below-same zero f h e = refl
xor_below-same (suc n) f h e =
    ap₂ bit_xor (xor_below-same n f h (λ j l. e j (omega arith))) (e n (omega arith))

xor_assoc : (a b c : ℕ) → bit_xor a (bit_xor b c) ≡ bit_xor (bit_xor a b) c
xor_assoc a b c = xor_comm a (bit_xor b c) ∙ xor_swap b c a ∙ ap (λ t. bit_xor t c) (xor_comm b a)

-- One of the numbers is another one.
xor_below-change :
    (n i d : ℕ) (f h : ℕ → ℕ)
    → i < n
    → ((j : ℕ) → i ≢ j → h j ≡ f j)
    → h i ≡ bit_xor (f i) d
    → xor_below n h ≡ bit_xor (xor_below n f) d
xor_below-change zero i d f h l e c = absurd (omega arith)
xor_below-change (suc n) i d f h l e c = elim (Bool-cases (i == n)) [
  | inl t ↦
      let s = ==→≡ i n t in
      ap₂ bit_xor (xor_below-same n f h (λ j k. e j (λ q. omega arith)))
        (ap h (sym s) ∙ c ∙ ap (λ k. bit_xor (f k) d) s)
      ∙ xor_assoc (xor_below n f) (f n) d
  | inr t ↦
      ap₂ bit_xor (xor_below-change n i d f h (ground arith) e c) (e n (λ q. ground arith))
      ∙ xor_swap (xor_below n f) d (f n)
]

module _ (keys : ℕ → ℤ → ℤ → ℕ) (b : Board) where
  other_square :
      (i j s : ℕ) (k m : ℕ)
      → (pos i ==ℤ pos k && pos j ==ℤ pos m) ≡ false
      → square_key keys (put b (pos i) (pos j) s) k m ≡ square_key keys b k m
  other_square i j s k m e = rw e refl

  this_square :
      (i j s : ℕ)
      → b (pos i) (pos j) ≡ empty
      → (s == empty) ≡ false
      → square_key keys (put b (pos i) (pos j) s) i j
        ≡ bit_xor (square_key keys b i j) (keys s (pos i) (pos j))
  this_square i j s free stone =
      rw (==ℤ_refl (pos i), ==ℤ_refl (pos j), free, stone) (sym (zero-xor (keys s (pos i) (pos j))))

  -- A stone on an empty square is taken into the key.
  put-position_key :
      (i j s : ℕ)
      → i < 19
      → j < 19
      → b (pos i) (pos j) ≡ empty
      → (s == empty) ≡ false
      → position_key keys (put b (pos i) (pos j) s)
        ≡ bit_xor (position_key keys b) (keys s (pos i) (pos j))
  unfolding position_key
  put-position_key i j s hi hj free stone =
      let after = put b (pos i) (pos j) s in
      let d = keys s (pos i) (pos j) in
      xor_below-change 19 i d (λ k. xor_below 19 (square_key keys b k))
        (λ k. xor_below 19 (square_key keys after k)) hi
        (λ k n.
          xor_below-same 19 (square_key keys b k) (square_key keys after k)
            (λ m l. other_square i j s k m (ground arith)))
        (xor_below-change 19 j d (square_key keys b i) (square_key keys after i) hj
          (λ m n. other_square i j s i m (ground arith)) (this_square i j s free stone))

  put-position_key_at :
      (x y : ℤ) (s : ℕ)
      → OnBoard (record { x = x; y = y })
      → b x y ≡ empty
      → (s == empty) ≡ false
      → position_key keys (put b x y s) ≡ bit_xor (position_key keys b) (keys s x y)
  put-position_key_at (pos i) (pos j) s on free stone =
      put-position_key i j s (omega int_laws) (omega int_laws) free stone
  put-position_key_at (negsuc i) y s on free stone = absurd (omega int_laws)
  put-position_key_at (pos i) (negsuc j) s on free stone = absurd (omega int_laws)

  -- What is put beside the board does not count.
  put-position_key_off :
      (x y : ℤ) (s : ℕ) → x ≡ negsuc 0 → position_key keys (put b x y s) ≡ position_key keys b
  unfolding position_key
  put-position_key_off x y s e = rw e (
      xor_below-same 19 _ _ (λ k l.
        xor_below-same 19 (square_key keys b k) (square_key keys (put b (negsuc 0) y s) k) (λ m h.
          let beside : (negsuc 0 ==ℤ pos k && y ==ℤ pos m) ≡ false = ground arith in
          rw beside refl)))

-- The second stone of a step: there is none, or it stands on an empty square that is not the first's.
pub data SecondStone (g : Search) (step : Step) : Type 0 where
  one_stone : step.second.x ≡ negsuc 0 → SecondStone g step
  two_stones :
      OnBoard (pos_of step.second)
      → g.board step.second.x step.second.y ≡ empty
      → (step.first.x ==ℤ step.second.x && step.first.y ==ℤ step.second.y) ≡ false
      → SecondStone g step

-- When the key of a game is the exclusive or of the keys of all stones on its board, it is so after
-- `MakeMove` of a side, which is not EMPTY, on one empty square of the board or on two different ones;
-- a step of one stone has -1 for the column of its second.
pub make_move-HasKey :
    (g : Search) (step : Step) (side : ℕ) (line_temp : Lines)
    → HasKey g
    → (side == empty) ≡ false
    → OnBoard (pos_of step.first)
    → g.board step.first.x step.first.y ≡ empty
    → SecondStone g step
    → HasKey (make_move g step side line_temp).0
unfolding make_move update_board toggle_step
make_move-HasKey g step side line_temp key stone on free (one_stone off) =
    let one =
      put-position_key_at g.hash_board g.board step.first.x step.first.y side on free stone in
    let two =
      put-position_key_off g.hash_board (put g.board step.first.x step.first.y side) step.second.x
        step.second.y side off in
    let test : (step.second.x ==ℤ negsuc 0) ≡ true = rw off refl in
    rw test
      (ap (λ k. bit_xor k (g.hash_board side step.first.x step.first.y)) key ∙ sym (two ∙ one))
make_move-HasKey g step side line_temp key stone on free (two_stones on2 free2 apart) =
    let b1 : Board = put g.board step.first.x step.first.y side in
    let one =
      put-position_key_at g.hash_board g.board step.first.x step.first.y side on free stone in
    let two =
      put-position_key_at g.hash_board b1 step.second.x step.second.y side on2 (rw apart free2)
        stone in
    let test : (step.second.x ==ℤ negsuc 0) ≡ false =
      ≢→==ℤ step.second.x (negsuc 0) (λ e. omega int_laws) in
    rw test (
      ap
        (λ k.
          bit_xor (bit_xor k (g.hash_board side step.first.x step.first.y))
            (g.hash_board side step.second.x step.second.y))
        key
      ∙ sym (two ∙ ap (λ k. bit_xor k (g.hash_board side step.second.x step.second.y)) one))
