-- ===== src/Common/Util.antt =====
-- common/util.c, `get_val_by_key`: the value of a key in a text of fields `key:value;key:value`. A C
-- string is the list of its bytes before the terminator.
pub mod Value
use package.chess_set.Base.{
  ℕ, zero, suc, ◌+◌, Bool, true, false, ◌&&◌, Option, none, some, List, [], ◌∷◌, if◌then◌else◌, ltb,
  ◌==◌, length, drop,
}

abbrev pub Bytes : Type 0
Bytes = List ℕ

-- Whether a text starts with a key.
unfoldable pub starts_with : Bytes → Bytes → Bool
starts_with [] text = true
starts_with (k ∷ ks) [] = false
starts_with (k ∷ ks) (c ∷ cs) = k == c && starts_with ks cs

-- `strstr(data, key)`: where the key first occurs.
unfoldable pub strstr : Bytes → Bytes → Option ℕ
strstr [] key = if starts_with key [] then some 0 else none
strstr (c ∷ cs) key =
    if starts_with key (c ∷ cs)
    then some 0
    else elim (strstr cs key) [ none ↦ none | some i ↦ some (suc i) ]

-- The bytes before the first `;`, or all.
unfoldable pub until_semicolon : Bytes → Bytes
until_semicolon [] = []
until_semicolon (c ∷ cs) = if c == 59 then [] else c ∷ until_semicolon cs

-- What `*val` is afterwards; `overrun` if the code reads behind the terminator of `data`.
pub data Lookup : Type 0 where
  missing : Lookup
  found : Bytes → Lookup
  overrun : Lookup

-- The value that stands one byte behind the key.
unfoldable pub value_at : Bytes → Bytes → ℕ → Lookup
value_at text key i =
    if ltb (length text) (i + length key + 1)
    then overrun
    else found (until_semicolon (drop (i + length key + 1) text))

unfoldable pub value_from : Bytes → Bytes → Option ℕ → Lookup
value_from text key none = missing
value_from text key (some i) = value_at text key i

unfoldable pub get_val_by_key : Bytes → Bytes → Lookup
get_val_by_key [] key = missing
get_val_by_key (c ∷ cs) [] = missing
get_val_by_key (c ∷ cs) (k ∷ ks) = value_from (c ∷ cs) (k ∷ ks) (strstr (c ∷ cs) (k ∷ ks))
