-- ===== src/Consix/Search/Fuel.antt =====
-- The search ends by itself: at `MaxDepth` and `LargeDepth`, whichever is deeper, no level calls the
-- next one, so that more fuel than there are levels left changes nothing.
use chess_set.Base.{
  ℕ, zero, suc, ◌+◌, ◌≤◌, Bool, true, false, ◌≡◌, sym, ap, ◌∙◌, if◌then◌else◌, ltb, leb, arith,
  le→ltb, le→leb, if_false,
}
use chess_set.Base.Int.{ℤ}
use chess_set.Consix.State.{Line, Search, next}
use chess_set.Consix.Run.{Run, ◌>>=◌, pure, gets}
use chess_set.Consix.Threats.Restored.{get_all_line_infor-IsSafe}
use chess_set.Consix.Judge.{need_con_search_for_double_threat, need_con_search_for_single_threat}
use chess_set.Consix.Judge.Restored.{
  need_con_search_for_double_threat-IsSafe, need_con_search_for_single_threat-IsSafe,
}
use chess_set.Consix.Search.Keeps.{max_search-IsSafe, min_search-IsSafe}
use chess_set.Consix.Search.{con_search, con_flags, max_level, min_level, max_search, min_search}
use chess_set.Consix.Search.Agree.{
  Within, Agree, after, read, either, same, safe-Within, max_level-Agree, min_level-Agree,
}

module _ (limit : ℕ) where
  le_trans : {a b c : ℕ} → a ≤ b → b ≤ c → a ≤ c
  le_trans h k = omega arith

  taken :
      {A : Type 0} (c : Bool) {m m' : Run A} (l l' : Run A)
      → c ≡ true
      → Agree limit m m'
      → Agree limit (if c then m else l) (if c then m' else l')
  taken true l l' h e = e
  taken false l l' h e = cc

  flags_shut : (one two c : Bool) → c ≡ false → (con_flags one two c).0 ≡ false
  unfolding con_flags
  flags_shut one two c h = ground arith

  -- At the limit `con_search` says to stop.
  con_search-bottom :
      (depth : ℕ) (own other : Line)
      → limit ≤ depth
      → (g : Search) → Within limit g
      → (con_search depth own other g).0.0 ≡ false
  unfolding con_search ◌>>=◌ gets pure
  con_search-bottom depth own other low g w =
      let g1 : Search = (need_con_search_for_double_threat own other g).1 in
      let g2 : Search = (need_con_search_for_single_threat own other g1).1 in
      let w1 : Within limit g1 =
        safe-Within limit (need_con_search_for_double_threat-IsSafe own other) g w in
      let w2 : Within limit g2 =
        safe-Within limit (need_con_search_for_single_threat-IsSafe own other) g1 w1 in
      flags_shut (need_con_search_for_double_threat own other g).0
        (need_con_search_for_single_threat own other g1).0
        (ltb depth (g2.large_depth g2.computer_color))
        (le→ltb depth _ (le_trans w2.large_within low))

  ended :
      {A : Type 0} (depth : ℕ) (own other : Line)
      → limit ≤ depth
      → (f k : Bool × Bool × Bool → Run A) (leaf : Run A)
      → Agree limit
          (con_search depth own other >>= λ go. if go.0 then f go else leaf)
          (con_search depth own other >>= λ go. if go.0 then k go else leaf)
  unfolding ◌>>=◌
  ended depth own other low f k leaf g w =
      let r = con_search depth own other g in
      let stop = con_search-bottom depth own other low g w in
      ap (λ (m : Run _). m r.1) (if_false r.0.0 (f r.0) leaf stop)
      ∙ sym (ap (λ (m : Run _). m r.1) (if_false r.0.0 (k r.0) leaf stop))

  -- A level at the limit does not call the next one.
  max_level-bottom :
      (d e : ℤ → ℤ → Run ℤ) (alpha beta : ℤ) (depth : ℕ)
      → limit ≤ depth
      → Agree limit (max_level d alpha beta depth) (max_level e alpha beta depth)
  unfolding max_level
  max_level-bottom d e alpha beta depth low =
      read limit (λ g. g.computer_color) _ _
        (λ g w.
          let color = g.computer_color in
          after limit (get_all_line_infor-IsSafe color 0)
            (λ si_com. after limit (get_all_line_infor-IsSafe (next color) 0) (λ si_per.
              read limit (λ g. g.max_depth g.computer_color) _ _
                (λ g w.
                  either limit (ltb 0 si_per.threat_num) (same limit _)
                    (either limit (ltb 2 si_com.threat_num) (same limit _) (
                      taken (leb (g.max_depth g.computer_color) depth) _ _
                        (le→leb _ depth (le_trans w.max_within low))
                        (ended depth si_per si_com low _ _ _)))
                    g w)))
            g w)

  -- A level at the limit does not call the next one.
  min_level-bottom :
      (d e : ℤ → ℤ → Run ℤ) (alpha beta : ℤ) (depth : ℕ)
      → limit ≤ depth
      → Agree limit (min_level d alpha beta depth) (min_level e alpha beta depth)
  unfolding min_level
  min_level-bottom d e alpha beta depth low =
      read limit (λ g. g.computer_color) _ _
        (λ g w.
          let color = g.computer_color in
          after limit (get_all_line_infor-IsSafe color 0)
            (λ si_com. after limit (get_all_line_infor-IsSafe (next color) 0) (λ si_per.
              read limit (λ g. g.max_depth g.computer_color) _ _
                (λ g w.
                  either limit (ltb 0 si_com.threat_num) (same limit _)
                    (either limit (ltb 2 si_per.threat_num) (same limit _) (
                      taken (leb (g.max_depth g.computer_color) depth) _ _
                        (le→leb _ depth (le_trans w.max_within low))
                        (ended depth si_com si_per low _ _ _)))
                    g w)))
            g w)

mutual
  unfolding max_search min_search

  max_fuel :
      (limit n m : ℕ) (alpha beta : ℤ) (depth : ℕ)
      → limit ≤ depth + n
      → limit ≤ depth + m
      → (g : Search) → Within limit g
      → max_search (suc n) alpha beta depth g ≡ max_search (suc m) alpha beta depth g
  max_fuel limit zero m alpha beta depth h k =
      max_level-bottom limit _ _ alpha beta depth (omega arith)
  max_fuel limit (suc n) zero alpha beta depth h k =
      max_level-bottom limit _ _ alpha beta depth (omega arith)
  max_fuel limit (suc n) (suc m) alpha beta depth h k =
      max_level-Agree limit (λ a b. min_fuel limit n m a b (suc depth) (omega arith) (omega arith))
        (λ a b. min_search-IsSafe (suc n) a b (suc depth)) alpha beta depth

  min_fuel :
      (limit n m : ℕ) (alpha beta : ℤ) (depth : ℕ)
      → limit ≤ depth + n
      → limit ≤ depth + m
      → (g : Search) → Within limit g
      → min_search (suc n) alpha beta depth g ≡ min_search (suc m) alpha beta depth g
  min_fuel limit zero m alpha beta depth h k =
      min_level-bottom limit _ _ alpha beta depth (omega arith)
  min_fuel limit (suc n) zero alpha beta depth h k =
      min_level-bottom limit _ _ alpha beta depth (omega arith)
  min_fuel limit (suc n) (suc m) alpha beta depth h k =
      min_level-Agree limit (λ a b. max_fuel limit n m a b (suc depth) (omega arith) (omega arith))
        (λ a b. max_search-IsSafe (suc n) a b (suc depth)) alpha beta depth

-- `MaxSearch` and `MinSearch` on fuel for the levels that are left, and one more, give the same as on any
-- larger fuel: no level deeper than both depth limits of the computer's side is searched.
pub search-fuel :
    (limit n m : ℕ) (alpha beta : ℤ) (depth : ℕ) (g : Search)
    → limit ≤ depth + n
    → n ≤ m
    → Within limit g
    → (max_search (suc n) alpha beta depth g ≡ max_search (suc m) alpha beta depth g)
      × (min_search (suc n) alpha beta depth g ≡ min_search (suc m) alpha beta depth g)
search-fuel limit n m alpha beta depth g h k w = (
  max_fuel limit n m alpha beta depth h (omega arith) g w,
  min_fuel limit n m alpha beta depth h (omega arith) g w,
)
