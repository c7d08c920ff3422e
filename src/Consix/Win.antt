-- ===== src/Consix/Win.antt =====
-- search.cpp, `WinOrLose`: the four scans for six stones of one side in a row.
pub mod Six
use package.chess_set.Base.{ℕ, zero, suc, Bool, true, false, ◌&&◌, ◌||◌, if◌then◌else◌, ◌==◌}
use package.chess_set.Base.Int.{pos}
use package.chess_set.Consix.State.{Angle, angle0, angle45, angle90, angle135, Board, winlose}
use package.chess_set.Consix.Coord.{Pos, along}

-- `for (i = start; i < start + count; i++) if (test) return …`: whether some round returns.
unfoldable pub any_up : ℕ → ℕ → (ℕ → Bool) → Bool
any_up zero start test = false
any_up (suc count) start test = test start || any_up count (suc start) test

-- `for (i = count - 1; i > -1; i--) if (test) return …`.
unfoldable pub any_down : ℕ → (ℕ → Bool) → Bool
any_down zero test = false
any_down (suc count) test = test count || any_down count test

module _ (board : Board) (side : ℕ) where
  -- `Board[…] == Side` at the square `n` steps on from `(i, j)`.
  abbrev pub holds : Angle → ℕ → ℕ → ℕ → Bool
  holds k i j n = let p = along k n (record { x = pos i; y = pos j }) in board p.x p.y == side

  -- The conjunction of six tests in an `if` of `WinOrLose`.
  unfoldable pub six : Angle → ℕ → ℕ → Bool
  six k i j =
      holds k i j 0
      && holds k i j 1
      && holds k i j 2
      && holds k i j 3
      && holds k i j 4
      && holds k i j 5

  unfoldable pub win_or_lose : ℕ
  win_or_lose =
      if any_up 19 0 (λ i. any_up 14 0 (λ j. six angle90 i j))
      then winlose
      else if any_up 19 0 (λ i. any_up 14 0 (λ j. six angle0 j i))
      then winlose
      else if any_up 14 0 (λ i. any_up 14 5 (λ j. six angle45 i j))
      then winlose
      else if any_up 14 0 (λ i. any_down 14 (λ j. six angle135 i j))
      then winlose
      else 0
