-- ===== src/Service/Tests.antt =====
-- Runs of the service, and each theorem at a concrete input.
use chess_set.Base.{
  ℕ, suc, ◌≤◌, ◌≡◌, ◌≢◌, refl, ◌⊎◌, Option, none, some, [], ◌∷◌, if◌then◌else◌, ◌==◌, drop, arith,
}
use chess_set.Common.Util.{
  Bytes, starts_with, strstr, until_semicolon, value_at, value_from, get_val_by_key,
}
use chess_set.Service.{
  Connections, max_connect, add_socket, get_socket, get_loop, del_socket, handle_close, Handled,
  same_text, forward, handle_start, handle_cmd, handle_type, handle_service,
}
use chess_set.Service.Table.{listed, entries, has_socket, without}
use chess_set.Service.Remove.{del_socket_lem}
use chess_set.Service.Requests.{Change, IsProper, handle_service-Change, handle_service-get_socket}
use chess_set.Service.Close.{handle_close_lem}

-- Client 100 has socket 5, and client 200 socket 6.
abbrev two : Connections
two = record {
  para = λ i.
      if i == 0 then record { pclient = 100; socket = 5 } else record { pclient = 200; socket = 6 };
  num = 2;
}

-- "type:consix;cmd:start".
abbrev request : Bytes
request =
    116 ∷ 121 ∷ 112 ∷ 101 ∷ 58 ∷ 99 ∷ 111 ∷ 110 ∷ 115 ∷ 105 ∷ 120 ∷ 59 ∷ 99 ∷ 109 ∷ 100 ∷ 58 ∷ 115
    ∷ 116 ∷ 97 ∷ 114 ∷ 116 ∷ []

-- The engine echoes.
abbrev echo : ℕ → Bytes → Option Bytes
echo socket preq = some preq

abbrev with_third : Handled
with_third = record { response = some request; table = (add_socket two 300 7).1 }

start_handled : handle_service 7 echo two 300 request 22 ≡ some with_third
unfolding handle_service handle_type handle_cmd handle_start forward same_text get_val_by_key
    value_from value_at strstr starts_with until_semicolon add_socket get_socket get_loop
start_handled = refl

two-IsProper : IsProper (entries two)
unfolding listed
two-IsProper = (omega arith, refl, (omega arith, refl, tt))

del_socket_lem_example :
    (two.num ≡ 0) × (del_socket two 5 ≡ none)
    ⊎ ((t' : Connections) × (del_socket two 5 ≡ some t')
        × (suc t'.num ≡ two.num)
        × (entries t' ≡ (
            if has_socket 5 (entries two) then without 5 (entries two) else drop 1 (entries two))))
del_socket_lem_example = del_socket_lem two 5

handle_service-Change_example : Change two 300 7 request with_third.table
handle_service-Change_example =
    handle_service-Change 7 echo two 300 request 22 with_third start_handled

handle_service-get_socket_example :
    (with_third.table.num ≤ max_connect)
    × ((other : ℕ) → 300 ≢ other → get_socket with_third.table other ≡ get_socket two other)
handle_service-get_socket_example =
    handle_service-get_socket 7 echo two 300 request 22 with_third start_handled (omega arith)

handle_close_lem_example :
    (get_socket two 100 ≡ 0) × (handle_close two 100 ≡ some (none, two))
    ⊎ ((t' : Connections) × (handle_close two 100 ≡ some (some (get_socket two 100), t'))
        × (suc t'.num ≡ two.num)
        × ((other : ℕ) → 100 ≢ other → get_socket t' other ≡ get_socket two other))
handle_close_lem_example = handle_close_lem two 100 two-IsProper
