-- ===== src/Common/Tests.antt =====
-- Runs of the helpers, and each theorem at a concrete input.
use chess_set.Base.{◌≡◌, refl, List, [], ◌∷◌, ◌++◌, All, arith}
use chess_set.Base.Int.{pos}
use chess_set.Common.Util.{
  Bytes, starts_with, strstr, until_semicolon, found, overrun, value_at, value_from, get_val_by_key,
}
use chess_set.Common.Util.Value.{Outcome, get_val_by_key_lem}
use chess_set.Common.Socket.{Reply, upto, returns, socket_send, received, socket_recv}
use chess_set.Common.Socket.Wire.{Open, message, socket_send_lem, socket_recv_lem}

-- "type:consix;cmd:start", "cmd" and "start".
abbrev request : Bytes
request =
    116 ∷ 121 ∷ 112 ∷ 101 ∷ 58 ∷ 99 ∷ 111 ∷ 110 ∷ 115 ∷ 105 ∷ 120 ∷ 59 ∷ 99 ∷ 109 ∷ 100 ∷ 58 ∷ 115
    ∷ 116 ∷ 97 ∷ 114 ∷ 116 ∷ []

abbrev cmd : Bytes
cmd = 99 ∷ 109 ∷ 100 ∷ []

abbrev start : Bytes
start = 115 ∷ 116 ∷ 97 ∷ 114 ∷ 116 ∷ []

the_command : get_val_by_key request cmd ≡ found start
unfolding get_val_by_key value_from value_at strstr starts_with until_semicolon
the_command = refl

-- A key at the very end has no value to read.
no_value : get_val_by_key request start ≡ overrun
unfolding get_val_by_key value_from value_at strstr starts_with until_semicolon
no_value = refl

get_val_by_key_lem_example : Outcome request cmd (get_val_by_key request cmd)
get_val_by_key_lem_example = get_val_by_key_lem request cmd (omega arith)

-- Calls of two bytes each.
abbrev small_calls : List Reply
small_calls = upto 2 ∷ upto 2 ∷ upto 2 ∷ upto 1 ∷ upto 3 ∷ []

small_calls-Open : All Open small_calls
small_calls-Open = (omega arith, (omega arith, (omega arith, (omega arith, (omega arith, tt)))))

socket_send_lem_example : socket_send (upto 4 ∷ small_calls) start ≡ returns (pos 0) (message start)
socket_send_lem_example =
    socket_send_lem 4 small_calls start (omega arith) (omega arith) small_calls-Open (omega arith)

socket_recv_lem_example :
    socket_recv (upto 4 ∷ small_calls) (message start ++ cmd) ≡ received (pos 0) start cmd
socket_recv_lem_example =
    socket_recv_lem 4 start cmd (omega arith) small_calls (omega arith) (omega arith)
      small_calls-Open (omega arith)
