-- ===== src/Consix/Value/Range.antt =====
-- `ConstructComPoint` returns at most five points, all of them near the centre of the board.
use chess_set.Base.{
  ℕ, zero, suc, ◌+◌, ◌≤◌, Bool, true, false, List, [], ◌∷◌, All, All-append, All-take,
  if◌then◌else◌, ltb, length, take, length-take, inl, inr, Bool-cases, arith, ltb→le,
}
use chess_set.Base.Int.{ℤ, pos, ◌+ℤ◌, ◌-ℤ◌, ◌≤ℤ◌, int_laws}
use chess_set.Consix.State.{Point, Search}
use chess_set.Consix.Candidates.{sort, com_point_value}
use chess_set.Consix.Candidates.Order.{sort-All}
use chess_set.Consix.Run.{◌>>=◌, pure, gets, gather}
use chess_set.Consix.Run.Returns.{
  Returns, pure-Returns, if-Returns, bind-Returns, then-Returns, gather-Returns,
}
use chess_set.Consix.Value.{
  search_range, column, columns, centre, near_side, near_point, construct_com_point,
}

-- `9 - r <= x <= 9 + r`, and the same for `y`.
pub record Near (r : ℕ) (p : Point) : Type 0 where
  pub left : pos 9 ≤ℤ p.x +ℤ pos r
  pub right : p.x ≤ℤ pos 9 +ℤ pos r
  pub low : pos 9 ≤ℤ p.y +ℤ pos r
  pub high : p.y ≤ℤ pos 9 +ℤ pos r

column-Near :
    (r : ℕ) (i j : ℤ) (count : ℕ)
    → pos 9 ≤ℤ i +ℤ pos r
    → i ≤ℤ pos 9 +ℤ pos r
    → pos 9 ≤ℤ j +ℤ pos r
    → j +ℤ pos count ≤ℤ pos 10 +ℤ pos r
    → All (Near r) (column i j count)
unfolding column
column-Near r i j zero a b c d = tt
column-Near r i j (suc count) a b c d = (
  record { left = a; right = b; low = c; high = omega int_laws },
  column-Near r i (j +ℤ pos 1) count a b (omega int_laws) (omega int_laws),
)

columns-Near :
    (r : ℕ) (i j : ℤ) (height count : ℕ)
    → pos 9 ≤ℤ i +ℤ pos r
    → i +ℤ pos count ≤ℤ pos 10 +ℤ pos r
    → pos 9 ≤ℤ j +ℤ pos r
    → j +ℤ pos height ≤ℤ pos 10 +ℤ pos r
    → All (Near r) (columns i j height count)
unfolding columns
columns-Near r i j height zero a b c d = tt
columns-Near r i j height (suc count) a b c d =
    All-append (Near r) (column i j height) (columns (i +ℤ pos 1) j height count)
      (column-Near r i j height a (omega int_laws) c d)
      (columns-Near r (i +ℤ pos 1) j height count (omega int_laws) (omega int_laws) c d)

centre-Near : (r : ℕ) → All (Near r) (centre r)
unfolding centre
centre-Near r =
    columns-Near r (pos 9 -ℤ pos r) (pos 9 -ℤ pos r) (r + r + 1) (r + r + 1) (omega int_laws)
      (omega int_laws) (omega int_laws) (omega int_laws)

module _ (r : ℕ) (first : Point) (side1 side2 : ℕ) where
  near_side-Returns :
      (second : Point) (s : ℕ) (value : ℤ)
      → Near r second
      → Returns
          (λ (v : ℤ × List Point). All (Near r) v.1)
          (near_side first second s side1 side2 value)
  unfolding near_side
  near_side-Returns second s value n = bind-Returns _ (λ v. pure-Returns _ (pushed (ltb 0 v.0) v.1))
    where
      pushed :
          (c : Bool) (value : ℤ)
          → All (Near r) (if c then record second { value = value } ∷ [] else [])
      pushed true value =
          (record { left = n.left; right = n.right; low = n.low; high = n.high }, tt)
      pushed false value = tt

  near_point-Returns :
      (second : Point)
      → Near r second
      → Returns (All (Near r)) (near_point first side1 side2 second)
  unfolding near_point
  near_point-Returns second n = bind-Returns _ (λ free.
      if-Returns _
        (then-Returns (near_side-Returns second 0 (pos 0) n) (λ one p.
          then-Returns (near_side-Returns second 1 one.0 n)
            (λ two q. pure-Returns _ (All-append (Near r) one.1 two.1 p q))))
        (pure-Returns [] tt))

-- `ConstructComPoint` returns at most five points, each within `SearchRange` of the centre.
pub construct_com_point_bounds :
    (first : Point) (side1 side2 : ℕ) (g : Search)
    → let points = (construct_com_point first side1 side2 g).0 in
      (length points ≤ 5) × All (Near (search_range g)) points
unfolding construct_com_point ◌>>=◌ gets pure
construct_com_point_bounds first side1 side2 g =
    let r = search_range g in
    let found = (gather (centre r) (near_point first side1 side2) g).0 in
    let near : All (Near r) found =
      (gather-Returns (centre r) (centre-Near r) (near_point-Returns r first side1 side2)).result
        g in
    cut (Near r) (sort com_point_value found) (sort-All com_point_value (Near r) found near)
  where
    cut :
        (Q : Point → Type 0) (ps : List Point)
        → All Q ps
        → (length (if ltb 5 (length ps) then take 5 ps else ps) ≤ 5)
          × All Q (if ltb 5 (length ps) then take 5 ps else ps)
    cut Q ps all = elim (Bool-cases (ltb 5 (length ps))) [
      | inl e ↦ rw e (omega (arith, length-take 5 ps), All-take Q 5 ps all)
      | inr e ↦ rw e (ltb→le 5 (length ps) e, all)
    ]

-- With either colour, the range keeps to the board.
pub search_range-le : (g : Search) → search_range g ≤ 6
unfolding search_range
search_range-le g = ground arith
