-- ===== src/Service.antt =====
-- websocket/service.c: the table of connections from a browser client to the engine's socket, and
-- the handling of a request. A client is the number of its pointer, and NULL is 0.
pub mod Table
pub mod Remove
pub mod Requests
pub mod Close
mod Tests
use package.chess_set.Base.{
  ℕ, zero, suc, ◌+◌, ◌-◌, Bool, true, false, ◌&&◌, ◌||◌, Option, none, some, List, [], ◌∷◌,
  if◌then◌else◌, ltb, leb, ◌==◌,
}
use package.chess_set.Base.Int.{ℤ, pos, negsuc}
use package.chess_set.Common.Util.{Bytes, Lookup, missing, found, overrun, get_val_by_key}

abbrev pub max_connect : ℕ
max_connect = 10

-- `struct connect_para`.
pub record ConnectPara : Type 0 where
  pub pclient : ℕ
  pub socket : ℕ

-- `g_con_para` and `g_cur_con_num`.
pub record Connections : Type 0 where
  pub para : ℕ → ConnectPara
  pub num : ℕ

-- `g_con_para[i] = c`.
abbrev pub set_para : (ℕ → ConnectPara) → ℕ → ConnectPara → ℕ → ConnectPara
set_para para i c j = if i == j then c else para j

-- `for (int i = start; i < start + count; i++)`, which returns at the first entry of the client.
unfoldable pub get_loop : ℕ → ℕ → (ℕ → ConnectPara) → ℕ → ℕ
get_loop zero i para pclient = 0
get_loop (suc count) i para pclient =
    let rest = get_loop count (suc i) para pclient in
    if (para i).pclient == pclient then (para i).socket else rest

unfoldable pub get_socket : Connections → ℕ → ℕ
get_socket t pclient = get_loop t.num 0 t.para pclient

unfoldable pub add_socket : Connections → ℕ → ℕ → ℤ × Connections
add_socket t pclient socket = if leb max_connect t.num then (negsuc 0, t) else (
  pos 0,
  record {
    para = set_para t.para t.num (record { pclient = pclient; socket = socket });
    num = t.num + 1;
  },
)

-- The first loop of `del_socket`: the index of the socket, and 0 if it is not there.
unfoldable pub index_loop : ℕ → ℕ → (ℕ → ConnectPara) → ℕ → ℕ
index_loop zero i para socket = 0
index_loop (suc count) i para socket =
    let rest = index_loop count (suc i) para socket in if (para i).socket == socket then i else rest

-- The second loop: `g_con_para[i] = g_con_para[i + 1]` in turn.
unfoldable pub shift_loop : ℕ → ℕ → (ℕ → ConnectPara) → ℕ → ConnectPara
shift_loop zero i para = para
shift_loop (suc count) i para = shift_loop count (suc i) (set_para para i (para (suc i)))

-- `none` if there is no connection: the code then writes before the array and the count is -1.
unfoldable pub del_socket : Connections → ℕ → Option Connections
del_socket t socket =
    let index = index_loop t.num 0 t.para socket in
    let shifted = shift_loop (t.num - 1 - index) index t.para in
    if t.num == 0
    then none
    else some (record {
      para = set_para shifted (t.num - 1) (record { pclient = 0; socket = 0 });
      num = t.num - 1;
    })

-- `handle_close`: the socket that is shut down and closed, if any, and the table.
unfoldable pub handle_close : Connections → ℕ → Option (Option ℕ × Connections)
handle_close t pclient =
    let socket = get_socket t pclient in
    let less = del_socket t socket in
    if socket == 0
    then some (none, t)
    else elim less [ none ↦ none | some t' ↦ some (some socket, t') ]

-- `strcmp(a, b) == 0`.
unfoldable pub same_text : Bytes → Bytes → Bool
same_text [] [] = true
same_text [] (y ∷ ys) = false
same_text (x ∷ xs) [] = false
same_text (x ∷ xs) (y ∷ ys) = x == y && same_text xs ys

-- "type", "cmd", "consix" and "start".
abbrev pub type_key : Bytes
type_key = 116 ∷ 121 ∷ 112 ∷ 101 ∷ []

abbrev pub cmd_key : Bytes
cmd_key = 99 ∷ 109 ∷ 100 ∷ []

abbrev pub consix : Bytes
consix = 99 ∷ 111 ∷ 110 ∷ 115 ∷ 105 ∷ 120 ∷ []

abbrev pub start : Bytes
start = 115 ∷ 116 ∷ 97 ∷ 114 ∷ 116 ∷ []

-- "error:1;detail:type incorrect!" and "error:2;detail:exceed max connect!", with their ends.
abbrev pub type_incorrect : Bytes
type_incorrect =
    101 ∷ 114 ∷ 114 ∷ 111 ∷ 114 ∷ 58 ∷ 49 ∷ 59 ∷ 100 ∷ 101 ∷ 116 ∷ 97 ∷ 105 ∷ 108 ∷ 58 ∷ 116 ∷ 121
    ∷ 112 ∷ 101 ∷ 32 ∷ 105 ∷ 110 ∷ 99 ∷ 111 ∷ 114 ∷ 114 ∷ 101 ∷ 99 ∷ 116 ∷ 33 ∷ 0 ∷ []

abbrev pub exceed_max_connect : Bytes
exceed_max_connect =
    101 ∷ 114 ∷ 114 ∷ 111 ∷ 114 ∷ 58 ∷ 50 ∷ 59 ∷ 100 ∷ 101 ∷ 116 ∷ 97 ∷ 105 ∷ 108 ∷ 58 ∷ 101 ∷ 120
    ∷ 99 ∷ 101 ∷ 101 ∷ 100 ∷ 32 ∷ 109 ∷ 97 ∷ 120 ∷ 32 ∷ 99 ∷ 111 ∷ 110 ∷ 110 ∷ 101 ∷ 99 ∷ 116 ∷ 33
    ∷ 0 ∷ []

-- What a request leads to: the response, if one is set, and the table.
pub record Handled : Type 0 where
  pub response : Option Bytes
  pub table : Connections

-- `connected` is what `connect_server` returns, the engine's socket or 0, and `exchange` what
-- `socket_send` and then `socket_recv` on a socket set the response to.
module _ (connected : ℕ) (exchange : ℕ → Bytes → Option Bytes) where
  unfoldable pub forward : Connections → ℕ → Bytes → Handled
  forward t pclient preq =
      let socket = get_socket t pclient in
      record { response = if ltb 0 socket then exchange socket preq else none; table = t }

  -- The command "start".
  unfoldable pub handle_start : Connections → ℕ → Bytes → Handled
  handle_start t pclient preq =
      let (code, t') = add_socket t pclient connected in
      if leb max_connect t.num
      then record { response = some exceed_max_connect; table = t }
      else elim code [
        | negsuc n ↦ record { response = none; table = t' }
        | pos n ↦ forward t' pclient preq
      ]

  unfoldable pub handle_cmd : Connections → ℕ → Bytes → Lookup → Option Handled
  handle_cmd t pclient preq missing = some (record { response = none; table = t })
  handle_cmd t pclient preq overrun = none
  handle_cmd t pclient preq (found pcmd) =
      some (if same_text pcmd start then handle_start t pclient preq else forward t pclient preq)

  unfoldable pub handle_type : Connections → ℕ → Bytes → Lookup → Option Handled
  handle_type t pclient preq missing = some (record { response = none; table = t })
  handle_type t pclient preq overrun = none
  handle_type t pclient preq (found ptype) =
      if same_text ptype consix
      then handle_cmd t pclient preq (get_val_by_key preq cmd_key)
      else some (record { response = some type_incorrect; table = t })

  -- `handle_service`; `none` if a key is the end of the request, whose value is then read behind it.
  unfoldable pub handle_service : Connections → ℕ → Bytes → ℕ → Option Handled
  handle_service t pclient preq req_len =
      if pclient == 0 || req_len == 0
      then some (record { response = none; table = t })
      else handle_type t pclient preq (get_val_by_key preq type_key)
