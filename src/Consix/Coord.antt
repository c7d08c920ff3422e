-- ===== src/Consix/Coord.antt =====
-- search.cpp, the geometry: `IncreaseDir`, `DecreaseDir`, `GetStartPoint`, the ids of lines, and
-- the eight images of a point under `HashImage`.
pub mod Geometry
pub mod Edge
pub mod Image
use package.chess_set.Base.{ℕ, zero, suc, ◌+◌, Bool, ◌&&◌, ◌||◌, not, if◌then◌else◌, ◌==◌}
use package.chess_set.Base.Int.{ℤ, pos, negsuc, ◌+ℤ◌, ◌-ℤ◌, ◌==ℤ◌, ltb_ℤ}
use package.chess_set.Consix.State.{Angle, angle0, angle45, angle90, angle135}

-- The coordinates that a loop walks with.
pub record Pos : Type 0 where
  pub x : ℤ
  pub y : ℤ

unfoldable pub increase_dir : Angle → Pos → Pos
increase_dir angle0 p = record { x = p.x +ℤ pos 1; y = p.y }
increase_dir angle45 p = record { x = p.x +ℤ pos 1; y = p.y -ℤ pos 1 }
increase_dir angle90 p = record { x = p.x; y = p.y +ℤ pos 1 }
increase_dir angle135 p = record { x = p.x +ℤ pos 1; y = p.y +ℤ pos 1 }

unfoldable pub decrease_dir : Angle → Pos → Pos
decrease_dir angle0 p = record { x = p.x -ℤ pos 1; y = p.y }
decrease_dir angle45 p = record { x = p.x -ℤ pos 1; y = p.y +ℤ pos 1 }
decrease_dir angle90 p = record { x = p.x; y = p.y -ℤ pos 1 }
decrease_dir angle135 p = record { x = p.x -ℤ pos 1; y = p.y -ℤ pos 1 }

-- `x != -1 && x != 19 && y != -1 && y != 19`, the test of the loops that scan a line.
abbrev pub inside : Pos → Bool
inside p =
    not (p.x ==ℤ negsuc 0) && not (p.x ==ℤ pos 19) && not (p.y ==ℤ negsuc 0) && not (p.y ==ℤ pos 19)

-- The square `k` steps on, as `Increasement[angle]` computes it.
unfoldable pub along : Angle → ℕ → Pos → Pos
along angle0 k p = record { x = p.x +ℤ pos k; y = p.y }
along angle45 k p = record { x = p.x +ℤ pos k; y = p.y -ℤ pos k }
along angle90 k p = record { x = p.x; y = p.y +ℤ pos k }
along angle135 k p = record { x = p.x +ℤ pos k; y = p.y +ℤ pos k }

unfoldable pub get_start_point : Pos → Angle → Pos
get_start_point p angle0 = record { x = pos 0; y = p.y }
get_start_point p angle45 =
    if not (ltb_ℤ (pos 18) (p.x +ℤ p.y))
    then record { x = pos 0; y = p.y +ℤ p.x }
    else record { x = p.x +ℤ p.y -ℤ pos 18; y = pos 18 }
get_start_point p angle90 = record { x = p.x; y = pos 0 }
get_start_point p angle135 =
    if not (ltb_ℤ p.y p.x)
    then record { x = pos 0; y = p.y -ℤ p.x }
    else record { x = p.x -ℤ p.y; y = pos 0 }

-- `LineID` of the line through a point.
unfoldable pub line_id : Angle → Pos → ℤ
line_id angle0 p = p.y
line_id angle45 p = pos 38 +ℤ p.x +ℤ p.y -ℤ pos 5
line_id angle90 p = p.x +ℤ pos 19
line_id angle135 p = pos 78 +ℤ p.y -ℤ p.x

-- Diagonals of fewer than six squares have no line.
unfoldable pub has_line : Angle → Pos → Bool
has_line angle0 p = Bool.true
has_line angle45 p = ltb_ℤ (pos 4) (p.x +ℤ p.y) && ltb_ℤ (p.x +ℤ p.y) (pos 32)
has_line angle90 p = Bool.true
has_line angle135 p = ltb_ℤ (negsuc 13) (p.y -ℤ p.x) && ltb_ℤ (p.y -ℤ p.x) (pos 14)

-- The loops of `GetLineValueForCross` that walk back to the edge, on fuel.
unfoldable pub back_to_edge45 : ℕ → Pos → Pos
back_to_edge45 zero p = p
back_to_edge45 (suc fuel) p =
    let rest = back_to_edge45 fuel (decrease_dir angle45 p) in
    if p.x ==ℤ pos 0 || p.y ==ℤ pos 18 then p else rest

unfoldable pub back_to_edge135 : ℕ → Pos → Pos
back_to_edge135 zero p = p
back_to_edge135 (suc fuel) p =
    let rest = back_to_edge135 fuel (decrease_dir angle135 p) in
    if p.x ==ℤ pos 0 || p.y ==ℤ pos 0 then p else rest

-- `HashImage`: the `i`-th image of a point under the symmetries of the board.
unfoldable pub hash_image : ℕ → Pos → Pos
hash_image i p =
    if i == 1
    then record { x = pos 18 -ℤ p.x; y = p.y }
    else if i == 2
    then record { x = p.x; y = pos 18 -ℤ p.y }
    else if i == 3
    then record { x = pos 18 -ℤ p.x; y = pos 18 -ℤ p.y }
    else if i == 4
    then record { x = p.y; y = p.x }
    else if i == 5
    then record { x = p.y; y = pos 18 -ℤ p.x }
    else if i == 6
    then record { x = pos 18 -ℤ p.y; y = p.x }
    else if i == 7
    then record { x = pos 18 -ℤ p.y; y = pos 18 -ℤ p.x }
    else p
