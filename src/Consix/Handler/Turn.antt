-- ===== src/Consix/Handler/Turn.antt =====
-- Whose turn it is between the requests of a connection.
use chess_set.Base.{ℕ, List, Option}
use chess_set.Base.Int.{ℤ}
use chess_set.Consix.State.{Search}
use chess_set.Common.Util.{Bytes}
use chess_set.Consix.Handler.{Answer}
use chess_set.Consix.Handler.Sides.{HumansTurn}

module _ (file : Option (ℕ → ℕ)) (keys : ℕ → ℤ → ℤ → ℕ) (fuel : ℕ) where
  abbrev Waits : Answer → Type 0
  Waits a = HumansTurn a.game

  abbrev Left : List Bytes × Search → Type 0
  Left r = HumansTurn r.1
