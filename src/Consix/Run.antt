-- ===== src/Consix/Run.antt =====
-- search.cpp, calls that work on the fields of `CSearch`: an action takes the state and returns its
-- result and the new state. `trial` is the pattern that the search repeats: keep the lines through a
-- square aside, put a stone there, analyse them again, look, and take all of that back.
pub mod Keeps
pub mod Trial
pub mod Returns
use package.chess_set.Base.{ℕ, Bool, true, false, List, [], ◌∷◌, ◌++◌, if◌then◌else◌}
use package.chess_set.Base.Int.{ℤ, pos, negsuc}
use package.chess_set.Consix.State.{Point, Step, Line, Lines, Search, next, empty, no_line}
use package.chess_set.Consix.Lines.{backup_line, recover_line, update_line_for_cross}
use package.chess_set.Consix.Move.{put_stone, cross, recover}

abbrev pub Run : Type 0 → Type 0
Run A = Search → A × Search

infixl 5 ◌>>=◌ ◌>>◌
unfoldable pub ◌>>=◌ : {A B : Type 0} → Run A → (A → Run B) → Run B
◌>>=◌ m f g = let (a, g') = m g in f a g'

unfoldable pub ◌>>◌ : {A B : Type 0} → Run A → Run B → Run B
◌>>◌ m k g = k (m g).1

module _ {A : Type 0} where
  unfoldable pub pure : A → Run A
  pure a g = (a, g)

  -- What an action reads of the state.
  unfoldable pub gets : (Search → A) → Run A
  gets f g = (f g, g)

-- A loop that appends to a vector what each round finds.
module _ {A B : Type 0} where
  unfoldable pub gather : List A → (A → Run (List B)) → Run (List B)
  gather [] f = pure []
  gather (x ∷ xs) f = do found ← f x; more ← gather xs f; pure (found ++ more)

-- `Board[p.X][p.Y] = s`.
unfoldable pub place : Point → ℕ → Run (Unit {0})
place p s g = (tt, put_stone g p s)

unfoldable pub update_cross : Point → ℕ → ℕ → Run (Unit {0})
update_cross p side which g = (tt, cross g p side which)

unfoldable pub recover_cross : Point → Lines → ℕ → ℕ → Run (Unit {0})
recover_cross p line_temp side which g = (tt, recover g p line_temp side which)

-- `LineTemp` as it is allocated. What it held before is never read: `RecoverLine` reads where
-- `BackupLine` has just written.
abbrev pub new_lines : Lines
new_lines s i = no_line

module _ {A : Type 0} where
  -- A stone is put for what `look` does, and taken away again.
  unfoldable pub with_stone : Point → ℕ → Run A → Run A
  with_stone p s look = do place p s; a ← look; place p empty; pure a

  unfoldable pub with_stones : Point → Point → ℕ → Run A → Run A
  with_stones p q s look = do place p s; place q s; a ← look; place p empty; place q empty; pure a

  -- The lines through `p` are kept aside for `s1` and `s2`, a stone is put, the lines are analysed
  -- again, and after `look` all of it is taken back.
  unfoldable pub trial : Point → ℕ → ℕ → ℕ → ℕ → ℕ → Lines → Run A → Run A
  trial p stone s1 w1 s2 w2 line_temp look = do
    info ← gets (λ g. g.line_info)
    let kept = backup_line p info (backup_line p info line_temp s1 w1) s2 w2
    place p stone
    update_cross p s1 w1
    update_cross p s2 w2
    a ← look
    place p empty
    recover_cross p kept s1 w1
    recover_cross p kept s2 w2
    pure a
