-- ===== src/Consix/Coord/Image.antt =====
-- The eight images of `HashImage` are symmetries of the board.
use chess_set.Base.{ℕ, zero, suc, ◌<◌, ◌≡◌, refl, if◌then◌else◌, ◌==◌, arith}
use chess_set.Base.Int.{pos, ◌-ℤ◌, int_laws}
use chess_set.Consix.Coord.{Pos, hash_image}
use chess_set.Consix.Coord.Geometry.{OnBoard, Pos-eq}

-- The image that undoes the `i`-th: 5 and 6 are quarter turns, the others undo themselves.
abbrev pub undo_image : ℕ → ℕ
undo_image i = if i == 5 then 6 else if i == 6 then 5 else i

image_cases :
    (P : ℕ → Type 0) → P 0 × P 1 × P 2 × P 3 × P 4 × P 5 × P 6 × P 7 → (i : ℕ) → i < 8 → P i
image_cases P c zero h = c.0
image_cases P c (suc zero) h = c.1
image_cases P c (suc (suc zero)) h = c.2
image_cases P c (suc (suc (suc zero))) h = c.3
image_cases P c (suc (suc (suc (suc zero)))) h = c.4
image_cases P c (suc (suc (suc (suc (suc zero))))) h = c.5
image_cases P c (suc (suc (suc (suc (suc (suc zero)))))) h = c.6
image_cases P c (suc (suc (suc (suc (suc (suc (suc zero))))))) h = c.7
image_cases P c (suc (suc (suc (suc (suc (suc (suc (suc i)))))))) h = absurd (omega arith)

back : (p : Pos) → pos 18 -ℤ (pos 18 -ℤ p.x) ≡ p.x
back p = omega int_laws

back_y : (p : Pos) → pos 18 -ℤ (pos 18 -ℤ p.y) ≡ p.y
back_y p = omega int_laws

-- Every image of a square of the board is a square of the board, and another image leads back.
pub hash_image_inverse :
    (i : ℕ) (p : Pos)
    → i < 8
    → OnBoard p
    → OnBoard (hash_image i p) × (hash_image (undo_image i) (hash_image i p) ≡ p)
unfolding hash_image
hash_image_inverse i p h o =
    image_cases (λ n. OnBoard (hash_image n p) × (hash_image (undo_image n) (hash_image n p) ≡ p))
      (
        (o, refl),
        (omega int_laws, Pos-eq (back p) refl),
        (omega int_laws, Pos-eq refl (back_y p)),
        (omega int_laws, Pos-eq (back p) (back_y p)),
        (omega int_laws, refl),
        (omega int_laws, Pos-eq (back p) refl),
        (omega int_laws, Pos-eq refl (back_y p)),
        (omega int_laws, Pos-eq (back p) (back_y p)),
      )
      i h
