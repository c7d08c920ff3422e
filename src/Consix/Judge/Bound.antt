-- ===== src/Consix/Judge/Bound.antt =====
-- How far `Discount` can raise the value of a leaf.
use chess_set.Base.{ℕ, Bool, ◌&&◌, List, [], ◌∷◌, if◌then◌else◌, ltb, ◌==◌, length, true, false}
use chess_set.Base.Int.{ℤ, pos, ◌-ℤ◌, ◌≤ℤ◌, int_laws}
use chess_set.Consix.State.{Point, Line, Search, threat}
use chess_set.Consix.Run.{Run, ◌>>=◌, pure, gets, new_lines}
use chess_set.Consix.Run.Returns.{Returns, pure-Returns, bind-Returns, then-Returns, trial-Returns}
use chess_set.Consix.Judge.{
  one_stone, discount_two, discount_second, discount_first, discount_one, discount_none, discount,
}

-- Less something stays below a bound.
less : (b m : ℤ) (k : ℕ) → b ≤ℤ m → b -ℤ pos k ≤ℤ m
less b m k h = omega int_laws

module _ (m : ℤ) where
  choose : (c : Bool) (a b : ℤ) → a ≤ℤ m → b ≤ℤ m → (if c then a else b) ≤ℤ m
  choose true a b h k = h
  choose false a b h k = k

  discount_two-le :
      (beta : ℤ) (large : ℕ) (c p : Line)
      → beta ≤ℤ m
      → pos large -ℤ pos threat ≤ℤ m
      → discount_two beta large c p ≤ℤ m
  unfolding discount_two
  discount_two-le beta large c p h k =
      choose (c.threat_num == 0) _ beta
        (choose (ltb 2 p.threat_num) (pos large -ℤ pos threat) _ k (
          choose (p.threat_num == 2) _ _ (less beta m _ h)
            (choose (p.threat_num == 1) _ beta (less beta m _ h) h)))
        h

  one_stone-le : (beta : ℤ) (c p : Line) → beta ≤ℤ m → one_stone beta c p ≤ℤ m
  unfolding one_stone
  one_stone-le beta c p h =
      choose (c.threat_num == 0 && ltb 0 (length p.big_poten_point)) _ beta (less beta m _ h) h

  discount_none-le : (si2 : Line) (beta : ℤ) → beta ≤ℤ m → discount_none si2 beta ≤ℤ m
  unfolding discount_none
  discount_none-le si2 beta h =
      let one = choose (ltb 0 (length si2.big_poten_point)) _ beta (less beta m _ h) h in
      let two = choose (ltb 0 (length si2.big_poten_step)) _ _ (less _ m _ one) one in
      choose (ltb 3 (length si2.sma_poten_point)) _ _ (less _ m _ two) two

  abbrev Below : ℤ → Type 0
  Below b = b ≤ℤ m

  second-le :
      (s1 s2 large : ℕ) (beta : ℤ) (qs : List Point)
      → beta ≤ℤ m
      → pos large -ℤ pos threat ≤ℤ m
      → Returns Below (discount_second s1 s2 large beta qs)
  unfolding discount_second
  second-le s1 s2 large beta [] h k = pure-Returns beta h
  second-le s1 s2 large beta (q ∷ qs) h k = bind-Returns _ (λ lines.
      second-le s1 s2 large (discount_two beta large lines.0 lines.1) qs
        (discount_two-le beta large lines.0 lines.1 h k) k)

  first-le :
      (s1 s2 large : ℕ) (beta : ℤ) (ps : List Point)
      → beta ≤ℤ m
      → pos large -ℤ pos threat ≤ℤ m
      → Returns Below (discount_first s1 s2 large beta ps)
  unfolding discount_first
  first-le s1 s2 large beta [] h k = pure-Returns beta h
  first-le s1 s2 large beta (p ∷ ps) h k =
      then-Returns (trial-Returns p s2 s1 7 s2 7 new_lines (second-le s1 s2 large beta ps h k))
        (λ beta' h'. first-le s1 s2 large beta' ps h' k)

  one-le :
      (s1 s2 : ℕ) (beta : ℤ) (ps : List Point)
      → beta ≤ℤ m
      → Returns Below (discount_one s1 s2 beta ps)
  unfolding discount_one
  one-le s1 s2 beta [] h = pure-Returns beta h
  one-le s1 s2 beta (p ∷ ps) h = bind-Returns _ (λ lines.
      one-le s1 s2 (one_stone beta lines.0 lines.1) ps (one_stone-le beta lines.0 lines.1 h))

  pick :
      (c : Bool) (a b : Run ℤ) (g : Search)
      → Below (a g).0
      → Below (b g).0
      → Below ((if c then a else b) g).0
  pick true a b g h k = h
  pick false a b g h k = k

-- `Discount` does not raise a value above a bound that is at least the value and `-(THREAT - LargeDepth)`,
-- which it sets when the other side is left with more than two threats.
pub discount-le :
    (m : ℤ) (si1 si2 : Line) (beta : ℤ) (g : Search)
    → beta ≤ℤ m
    → pos (g.large_depth g.computer_color) -ℤ pos threat ≤ℤ m
    → (discount si1 si2 beta g).0 ≤ℤ m
unfolding discount ◌>>=◌ gets
discount-le m si1 si2 beta g h k =
    pick m (si1.threat_num == 2) _ _ g
      ((first-le m si1.side si2.side (g.large_depth g.computer_color) beta si1.threat_point h
          k).result
        g)
      (pick m (si1.threat_num == 1) _ _ g
        ((one-le m si1.side si2.side beta si1.threat_point h).result g)
        (pick m (si1.threat_num == 0) (pure (discount_none si2 beta)) (pure beta) g
          ((pure-Returns {Q = Below m} (discount_none si2 beta)
              (discount_none-le m si2 beta h)).result
            g)
          ((pure-Returns {Q = Below m} beta h).result g)))
