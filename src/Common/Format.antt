-- ===== src/Common/Format.antt =====
-- What the sources use of the C library to read and write numbers in texts: `atoi`, `sscanf` and
-- `sprintf` with `%d`, and the assignments of an `int` to narrower types.
pub mod Print
use Prim.Native.String.{String}
use Prim.Native.Char.{code}
use package.chess_set.Base.{
  ℕ, zero, suc, ◌+◌, ◌-◌, ◌*◌, ◌/◌, ◌%◌, Bool, true, false, ◌&&◌, ◌||◌, List, [], ◌∷◌, Option, none,
  some, if◌then◌else◌, ltb, leb, ◌==◌,
}
use package.chess_set.Base.Int.{ℤ, pos, negsuc, ◌-ℤ◌}
use package.chess_set.Common.Util.{Bytes}

-- The bytes of a text literal.
abbrev pub codes : String → Bytes
codes String.[] = []
codes (String.◌∷◌ c s) = code c ∷ codes s

abbrev pub is_digit : ℕ → Bool
is_digit c = leb 48 c && leb c 57

abbrev pub is_space : ℕ → Bool
is_space c = c == 32 || leb 9 c && leb c 13

-- What `%d` and `atoi` read: spaces, a sign, and digits. The numbers fit an `int`.
unfoldable pub scan_digits : ℕ → Bytes → ℕ × Bytes
scan_digits n [] = (n, [])
scan_digits n (c ∷ cs) =
    let more = scan_digits (n * 10 + (c - 48)) cs in if is_digit c then more else (n, c ∷ cs)

unfoldable pub scan_nat : Bytes → Option (ℕ × Bytes)
scan_nat [] = none
scan_nat (c ∷ cs) = if is_digit c then some (scan_digits 0 (c ∷ cs)) else none

abbrev pub signed : Bool → Option (ℕ × Bytes) → Option (ℤ × Bytes)
signed minus none = none
signed minus (some (n, cs)) = some (if minus then pos 0 -ℤ pos n else pos n, cs)

unfoldable pub scan_int : Bytes → Option (ℤ × Bytes)
scan_int [] = none
scan_int (c ∷ cs) =
    let rest = scan_int cs in
    if is_space c
    then rest
    else if c == 45
    then signed true (scan_nat cs)
    else if c == 43
    then signed false (scan_nat cs)
    else signed false (scan_nat (c ∷ cs))

unfoldable pub atoi : Bytes → ℤ
atoi cs = elim (scan_int cs) [ none ↦ pos 0 | some r ↦ r.0 ]

-- The numbers that `sscanf(text, "%d,%d,…", …)` sets, at most `count`.
unfoldable pub sscanf : ℕ → Bytes → List ℤ
sscanf zero cs = []
sscanf (suc count) cs = elim (scan_int cs) [
  | none ↦ []
  | some r ↦ r.0 ∷ elim r.1 [ [] ↦ [] | c ∷ more ↦ if c == 44 then sscanf count more else [] ]
]

-- `%d` of `sprintf`, before `tail`; `fuel` is at least the number.
unfoldable pub print_nat : ℕ → ℕ → Bytes → Bytes
print_nat zero n tail = (n % 10 + 48) ∷ tail
print_nat (suc fuel) n tail =
    let more = print_nat fuel (n / 10) ((n % 10 + 48) ∷ tail) in
    if ltb n 10 then (n % 10 + 48) ∷ tail else more

unfoldable pub print_int : ℤ → Bytes
print_int (pos n) = print_nat n n []
print_int (negsuc n) = 45 ∷ print_nat (suc n) (suc n) []

-- Assignments of an `int` to a `short` and to a byte.
unfoldable pub to_byte : ℤ → ℕ
to_byte (pos n) = n % 256
to_byte (negsuc n) = 255 - n % 256

unfoldable pub to_short : ℤ → ℤ
to_short (pos n) = if ltb (n % 65536) 32768 then pos (n % 65536) else pos (n % 65536) -ℤ pos 65536
to_short (negsuc n) = if ltb (n % 65536) 32768 then negsuc (n % 65536) else pos (65535 - n % 65536)
