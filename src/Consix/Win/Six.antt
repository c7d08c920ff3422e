-- ===== src/Consix/Win/Six.antt =====
-- `WinOrLose` decides whether there are six in a row.
use chess_set.Base.{
  ℕ, zero, suc, ◌+◌, ◌≤◌, ◌<◌, ◌≡◌, inl, inr, ◌⊎◌, Bool, true, false, ◌&&◌, Bool-cases, and_split,
  or_split, or_true, and_true, ◌==◌, ==→≡, ≡→==, arith,
}
use chess_set.Base.Int.{ℤ, pos, negsuc, int_laws}
use chess_set.Consix.State.{Angle, angle0, angle45, angle90, angle135, Board, winlose}
use chess_set.Consix.Coord.{Pos, along}
use chess_set.Consix.Coord.Geometry.{OnBoard}
use chess_set.Consix.Win.{any_up, any_down, holds, six, win_or_lose}

any_up_sound :
    (count start : ℕ) (test : ℕ → Bool)
    → any_up count start test ≡ true
    → (i : ℕ) × (start ≤ i) × (i < start + count) × (test i ≡ true)
unfolding any_up
any_up_sound zero start test h = cc
any_up_sound (suc count) start test h = elim (or_split (test start) _ h) [
  | inl e ↦ (start, omega arith, omega arith, e)
  | inr e ↦
      let (i, lo, hi, t) = any_up_sound count (suc start) test e in (i, omega arith, omega arith, t)
]

any_up_complete :
    (count start : ℕ) (test : ℕ → Bool) (i : ℕ)
    → start ≤ i
    → i < start + count
    → test i ≡ true
    → any_up count start test ≡ true
unfolding any_up
any_up_complete zero start test i lo hi t = absurd (omega arith)
any_up_complete (suc count) start test i lo hi t = elim (Bool-cases (start == i)) [
  | inl e ↦ let same = ==→≡ start i e in rw (same, t)
  | inr e ↦
      or_true (test start) _
        (any_up_complete count (suc start) test i (ground arith) (omega arith) t)
]

any_down_sound :
    (count : ℕ) (test : ℕ → Bool)
    → any_down count test ≡ true
    → (i : ℕ) × (i < count) × (test i ≡ true)
unfolding any_down
any_down_sound zero test h = cc
any_down_sound (suc count) test h = elim (or_split (test count) _ h) [
  | inl e ↦ (count, omega arith, e)
  | inr e ↦ let (i, hi, t) = any_down_sound count test e in (i, omega arith, t)
]

any_down_complete :
    (count : ℕ) (test : ℕ → Bool) (i : ℕ) → i < count → test i ≡ true → any_down count test ≡ true
unfolding any_down
any_down_complete zero test i hi t = absurd (omega arith)
any_down_complete (suc count) test i hi t = elim (Bool-cases (count == i)) [
  | inl e ↦ let same = ==→≡ count i e in rw (same, t)
  | inr e ↦ or_true (test count) _ (any_down_complete count test i (ground arith) t)
]

module _ (b : Board) (s : ℕ) where
  -- Six squares of the board in a row, in one of the four directions, hold `s`.
  pub SixInRow : Type 0
  SixInRow =
      (k : Angle) × (p : Pos) × OnBoard p
      × OnBoard (along k 5 p)
      × ((n : ℕ) → n < 6 → b (along k n p).x (along k n p).y ≡ s)

  abbrev corner : ℕ → ℕ → Pos
  corner i j = record { x = pos i; y = pos j }

  abbrev AllSix : Angle → Pos → Type 0
  AllSix k p = (n : ℕ) → n < 6 → b (along k n p).x (along k n p).y ≡ s

  six_sound : (k : Angle) (i j : ℕ) → six b s k i j ≡ true → AllSix k (corner i j)
  unfolding six
  six_sound k i j h = six_parts
    where
      h4 : (holds b s k i j 0 && holds b s k i j 1 && holds b s k i j 2 && holds b s k i j 3) ≡ true
      h4 = (and_split _ (holds b s k i j 4) (and_split _ (holds b s k i j 5) h).0).0

      h2 : (holds b s k i j 0 && holds b s k i j 1) ≡ true
      h2 = (and_split _ (holds b s k i j 2) (and_split _ (holds b s k i j 3) h4).0).0

      six_parts : AllSix k (corner i j)
      six_parts zero l = ==→≡ _ s (and_split (holds b s k i j 0) (holds b s k i j 1) h2).0
      six_parts (suc zero) l = ==→≡ _ s (and_split (holds b s k i j 0) (holds b s k i j 1) h2).1
      six_parts (suc (suc zero)) l =
          ==→≡ _ s (and_split _ (holds b s k i j 2) (and_split _ (holds b s k i j 3) h4).0).1
      six_parts (suc (suc (suc zero))) l = ==→≡ _ s (and_split _ (holds b s k i j 3) h4).1
      six_parts (suc (suc (suc (suc zero)))) l =
          ==→≡ _ s (and_split _ (holds b s k i j 4) (and_split _ (holds b s k i j 5) h).0).1
      six_parts (suc (suc (suc (suc (suc zero))))) l =
          ==→≡ _ s (and_split _ (holds b s k i j 5) h).1
      six_parts (suc (suc (suc (suc (suc (suc n)))))) l = absurd (omega arith)

  six_complete : (k : Angle) (i j : ℕ) → AllSix k (corner i j) → six b s k i j ≡ true
  unfolding six
  six_complete k i j all =
      let at = λ (n : ℕ) (l : n < 6). ≡→== _ s (all n l) in
      and_true _ _
        (and_true _ _
          (and_true _ _
            (and_true _ _ (and_true _ _ (at 0 (omega arith)) (at 1 (omega arith)))
              (at 2 (omega arith)))
            (at 3 (omega arith)))
          (at 4 (omega arith)))
        (at 5 (omega arith))

  -- The four scans, one after the other.
  abbrev scan_of : Angle → Bool
  scan_of angle90 = any_up 19 0 (λ i. any_up 14 0 (λ j. six b s angle90 i j))
  scan_of angle0 = any_up 19 0 (λ i. any_up 14 0 (λ j. six b s angle0 j i))
  scan_of angle45 = any_up 14 0 (λ i. any_up 14 5 (λ j. six b s angle45 i j))
  scan_of angle135 = any_up 14 0 (λ i. any_down 14 (λ j. six b s angle135 i j))

  found :
      (k : Angle) (i j : ℕ)
      → OnBoard (corner i j)
      → OnBoard (along k 5 (corner i j))
      → six b s k i j ≡ true
      → SixInRow
  unfolding SixInRow
  found k i j o o5 t = (k, corner i j, o, o5, six_sound k i j t)

  scan_sound : (k : Angle) → scan_of k ≡ true → SixInRow
  unfolding along
  scan_sound angle90 h =
      let (i, _, hi, e) = any_up_sound 19 0 _ h in
      let (j, _, hj, t) = any_up_sound 14 0 _ e in
      found angle90 i j (omega int_laws) (omega int_laws) t
  scan_sound angle0 h =
      let (i, _, hi, e) = any_up_sound 19 0 _ h in
      let (j, _, hj, t) = any_up_sound 14 0 _ e in
      found angle0 j i (omega int_laws) (omega int_laws) t
  scan_sound angle45 h =
      let (i, _, hi, e) = any_up_sound 14 0 _ h in
      let (j, lj, hj, t) = any_up_sound 14 5 _ e in
      found angle45 i j (omega int_laws) (omega int_laws) t
  scan_sound angle135 h =
      let (i, _, hi, e) = any_up_sound 14 0 _ h in
      let (j, hj, t) = any_down_sound 14 _ e in
      found angle135 i j (omega int_laws) (omega int_laws) t

  scan_complete :
      (k : Angle) (i j : ℕ)
      → OnBoard (corner i j)
      → OnBoard (along k 5 (corner i j))
      → AllSix k (corner i j)
      → scan_of k ≡ true
  unfolding along
  scan_complete angle90 i j o o5 all =
      any_up_complete 19 0 _ i (omega arith) (omega int_laws)
        (any_up_complete 14 0 _ j (omega arith) (omega int_laws) (six_complete angle90 i j all))
  scan_complete angle0 i j o o5 all =
      any_up_complete 19 0 _ j (omega arith) (omega int_laws)
        (any_up_complete 14 0 _ i (omega arith) (omega int_laws) (six_complete angle0 i j all))
  scan_complete angle45 i j o o5 all =
      any_up_complete 14 0 _ i (omega arith) (omega int_laws)
        (any_up_complete 14 5 _ j (omega int_laws) (omega int_laws) (six_complete angle45 i j all))
  scan_complete angle135 i j o o5 all =
      any_up_complete 14 0 _ i (omega arith) (omega int_laws)
        (any_down_complete 14 _ j (omega int_laws) (six_complete angle135 i j all))

  some_scan : SixInRow → (k : Angle) × (scan_of k ≡ true)
  unfolding SixInRow
  some_scan (k, p, o, o5, all) = natural k p.x p.y o o5 all
    where
      natural :
          (k : Angle) (x y : ℤ)
          → OnBoard (record { x = x; y = y })
          → OnBoard (along k 5 (record { x = x; y = y }))
          → AllSix k (record { x = x; y = y })
          → (k : Angle) × (scan_of k ≡ true)
      natural k (pos i) (pos j) o o5 all = (k, scan_complete k i j o o5 all)
      natural k (pos i) (negsuc j) o o5 all = absurd (omega arith)
      natural k (negsuc i) y o o5 all = absurd (omega arith)

  no_six :
      (k : Angle)
      → scan_of k ≡ true
      → (scan_of angle90 ≡ false)
        × (scan_of angle0 ≡ false)
        × (scan_of angle45 ≡ false)
        × (scan_of angle135 ≡ false)
      → ⊥
  no_six angle0 h (a, b', c, d) = cc
  no_six angle45 h (a, b', c, d) = cc
  no_six angle90 h (a, b', c, d) = cc
  no_six angle135 h (a, b', c, d) = cc

  -- `WinOrLose` returns WINLOSE exactly if there are six in a row of the side, and else 0.
  pub win_or_lose_lem :
      (win_or_lose b s ≡ winlose) × SixInRow ⊎ (win_or_lose b s ≡ 0) × (¬ SixInRow)
  unfolding win_or_lose
  win_or_lose_lem = elim (Bool-cases (scan_of angle90)) [
    | inl h ↦ inl (rw h, scan_sound angle90 h)
    | inr a ↦ elim (Bool-cases (scan_of angle0)) [
      | inl h ↦ inl (rw (a, h), scan_sound angle0 h)
      | inr c ↦ elim (Bool-cases (scan_of angle45)) [
        | inl h ↦ inl (rw (a, c, h), scan_sound angle45 h)
        | inr d ↦ elim (Bool-cases (scan_of angle135)) [
          | inl h ↦ inl (rw (a, c, d, h), scan_sound angle135 h)
          | inr e ↦ inr (rw (a, c, d, e), λ t. let (k, h) = some_scan t in no_six k h (a, c, d, e))
        ]
      ]
    ]
  ]
