-- ===== src/Consix/Judge/Restored.antt =====
-- The judgement of a leaf takes back every stone that it tries.
use chess_set.Base.{ℕ, Bool, ◌&&◌, List, [], ◌∷◌, ltb, ◌==◌, length, true, false}
use chess_set.Base.Int.{ℤ}
use chess_set.Consix.State.{Point, Line}
use chess_set.Consix.Run.{new_lines, trial}
use chess_set.Consix.Run.Keeps.{IsSafe, Anywhere, pure-IsSafe, gets-IsSafe, if-IsSafe, bind-IsSafe}
use chess_set.Consix.Run.Trial.{trial-IsSafe}
use chess_set.Consix.Defend.{both_sides}
use chess_set.Consix.Defend.Restored.{both_sides-IsSafe}
use chess_set.Consix.Judge.{
  block_and_look, need_con_search_for_double_threat, need_con_search_for_single_threat, one_stone,
  discount_two, discount_second, discount_first, discount_one, discount_none, discount,
}

looks :
    (p : Point) (stone s1 v1 s2 v2 w1 w2 : ℕ)
    → IsSafe Anywhere (trial p stone s1 v1 s2 v2 new_lines (both_sides s1 w1 s2 w2))
looks p stone s1 v1 s2 v2 w1 w2 =
    trial-IsSafe Anywhere p stone s1 v1 s2 v2 new_lines tt (both_sides-IsSafe s1 w1 s2 w2)

block_and_look-IsSafe :
    (s1 s2 which : ℕ) (found : Line → Bool) (ps : List Point)
    → IsSafe Anywhere (block_and_look s1 s2 which found ps)
unfolding block_and_look
block_and_look-IsSafe s1 s2 which found [] = pure-IsSafe Anywhere _
block_and_look-IsSafe s1 s2 which found (p ∷ ps) =
    bind-IsSafe Anywhere (looks p s1 s1 which s2 1 which 1) (λ lines.
      if-IsSafe Anywhere _ (pure-IsSafe Anywhere _) (block_and_look-IsSafe s1 s2 which found ps))

pub need_con_search_for_double_threat-IsSafe :
    (si1 si2 : Line) → IsSafe Anywhere (need_con_search_for_double_threat si1 si2)
unfolding need_con_search_for_double_threat
need_con_search_for_double_threat-IsSafe si1 si2 =
    let deeper = pure-IsSafe Anywhere true in
    let looked =
      block_and_look-IsSafe si1.side si2.side 2 (λ l. ltb 0 (length l.big_poten_point))
        si2.threat_point in
    if-IsSafe Anywhere (si2.threat_num == 2) deeper (
      if-IsSafe Anywhere (ltb 0 (length si1.big_poten_point)) deeper (
        if-IsSafe Anywhere (si2.threat_num == 0 && ltb 0 (length si1.big_poten_step)) deeper (
          if-IsSafe Anywhere (si2.threat_num == 0 && ltb 3 (length si1.sma_poten_point)) deeper (
            if-IsSafe Anywhere (si2.threat_num == 1 && length si1.big_poten_point == 0) looked
              (pure-IsSafe Anywhere false)))))

pub need_con_search_for_single_threat-IsSafe :
    (si1 si2 : Line) → IsSafe Anywhere (need_con_search_for_single_threat si1 si2)
unfolding need_con_search_for_single_threat
need_con_search_for_single_threat-IsSafe si1 si2 =
    let looked =
      block_and_look-IsSafe si1.side si2.side 3 (λ l. ltb 0 (length l.sma_poten_point))
        si2.threat_point in
    if-IsSafe Anywhere (si2.threat_num == 1 && ltb 0 (length si1.sma_poten_point))
      (pure-IsSafe Anywhere true)
      (if-IsSafe Anywhere (si2.threat_num == 1 && length si1.sma_poten_point == 0) looked
        (pure-IsSafe Anywhere false))

discount_second-IsSafe :
    (s1 s2 large : ℕ) (beta : ℤ) (qs : List Point)
    → IsSafe Anywhere (discount_second s1 s2 large beta qs)
unfolding discount_second
discount_second-IsSafe s1 s2 large beta [] = pure-IsSafe Anywhere _
discount_second-IsSafe s1 s2 large beta (q ∷ qs) =
    bind-IsSafe Anywhere (looks q s2 s1 7 s2 7 7 7)
      (λ lines. discount_second-IsSafe s1 s2 large (discount_two beta large lines.0 lines.1) qs)

discount_first-IsSafe :
    (s1 s2 large : ℕ) (beta : ℤ) (ps : List Point)
    → IsSafe Anywhere (discount_first s1 s2 large beta ps)
unfolding discount_first
discount_first-IsSafe s1 s2 large beta [] = pure-IsSafe Anywhere _
discount_first-IsSafe s1 s2 large beta (p ∷ ps) =
    bind-IsSafe Anywhere
      (trial-IsSafe Anywhere p s2 s1 7 s2 7 new_lines tt
        (discount_second-IsSafe s1 s2 large beta ps))
      (λ beta'. discount_first-IsSafe s1 s2 large beta' ps)

discount_one-IsSafe :
    (s1 s2 : ℕ) (beta : ℤ) (ps : List Point) → IsSafe Anywhere (discount_one s1 s2 beta ps)
unfolding discount_one
discount_one-IsSafe s1 s2 beta [] = pure-IsSafe Anywhere _
discount_one-IsSafe s1 s2 beta (p ∷ ps) =
    bind-IsSafe Anywhere (looks p s2 s1 2 s2 2 2 2)
      (λ lines. discount_one-IsSafe s1 s2 (one_stone beta lines.0 lines.1) ps)

pub discount-IsSafe : (si1 si2 : Line) (beta : ℤ) → IsSafe Anywhere (discount si1 si2 beta)
unfolding discount
discount-IsSafe si1 si2 beta =
    if-IsSafe Anywhere (si1.threat_num == 2)
      (bind-IsSafe Anywhere (gets-IsSafe Anywhere (λ g. g.large_depth g.computer_color))
        (λ large. discount_first-IsSafe si1.side si2.side large beta si1.threat_point))
      (if-IsSafe Anywhere (si1.threat_num == 1)
        (discount_one-IsSafe si1.side si2.side beta si1.threat_point)
        (if-IsSafe Anywhere (si1.threat_num == 0) (pure-IsSafe Anywhere (discount_none si2 beta))
          (pure-IsSafe Anywhere beta)))
