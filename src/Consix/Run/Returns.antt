-- ===== src/Consix/Run/Returns.antt =====
-- What an action returns, from whatever state it starts.
use chess_set.Base.{ℕ, Bool, true, false, List, [], ◌∷◌, ◌++◌, All, All-append, if◌then◌else◌}
use chess_set.Consix.State.{Search, Point, Lines}
use chess_set.Consix.Run.{
  Run, ◌>>=◌, ◌>>◌, pure, gets, gather, place, update_cross, recover_cross, trial,
}

-- The result has the property.
pub record Returns {A : Type 0} (Q : A → Type 0) (m : Run A) : Type 0 where
  pub result : (g : Search) → Q (m g).0

module _ {A : Type 0} {Q : A → Type 0} where
  pub pure-Returns : (a : A) → Q a → Returns Q (pure a)
  unfolding pure
  pure-Returns a h = record { result = λ g. h }

  pub if-Returns :
      (c : Bool) {m k : Run A} → Returns Q m → Returns Q k → Returns Q (if c then m else k)
  if-Returns true h k = h
  if-Returns false h k = k

  pub bind-Returns :
      {B : Type 0} (m : Run B) {f : B → Run A} → ((b : B) → Returns Q (f b)) → Returns Q (m >>= f)
  unfolding ◌>>=◌
  bind-Returns {B} m {f} h = record { result = λ g. (h (m g).0).result (m g).1 }

module _ {A B : Type 0} {Q : A → Type 0} {R : B → Type 0} where
  -- With a property of what the first action returns.
  pub then-Returns :
      {m : Run B} {f : B → Run A}
      → Returns R m
      → ((b : B) → R b → Returns Q (f b))
      → Returns Q (m >>= f)
  unfolding ◌>>=◌
  then-Returns {m} {f} k h = record { result = λ g. (h (m g).0 (k.result g)).result (m g).1 }

module _ {A B : Type 0} {Q : A → Type 0} {R : B → Type 0} where
  -- Each round finds only what has the property.
  pub gather-Returns :
      {f : B → Run (List A)} (xs : List B)
      → All R xs
      → ((b : B) → R b → Returns (All Q) (f b))
      → Returns (All Q) (gather xs f)
  unfolding gather
  gather-Returns [] all h = pure-Returns [] tt
  gather-Returns (x ∷ xs) all h = then-Returns {R = All Q} (h x all.0) (λ found p.
      then-Returns {R = All Q} (gather-Returns xs all.1 h)
        (λ more q. pure-Returns (found ++ more) (All-append Q found more p q)))

-- What is looked at on trial is returned.
pub trial-Returns :
    {A : Type 0} {Q : A → Type 0} {look : Run A} (p : Point) (stone s1 w1 s2 w2 : ℕ) (temp : Lines)
    → Returns Q look
    → Returns Q (trial p stone s1 w1 s2 w2 temp look)
unfolding trial ◌>>=◌ ◌>>◌ place pure gets update_cross recover_cross
trial-Returns p stone s1 w1 s2 w2 temp h = record { result = λ g. h.result _ }
