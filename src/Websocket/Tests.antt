-- ===== src/Websocket/Tests.antt =====
-- Runs of the frames, and each theorem at a concrete input.
use chess_set.Base.{◌≡◌, refl, some, [], ◌∷◌, ◌++◌, length, if◌then◌else◌, ◌==◌, not, true, arith}
use chess_set.Common.Util.{Bytes}
use chess_set.Websocket.Frame.{
  Message, continue, message_new, encode_message, parse_message, parse_body, status, unmask, fault,
}
use chess_set.Websocket.Frame.Parse.{client_frame, parsed, parse_message-client_frame}
use chess_set.Websocket.Frame.Encode.{read_frame, encode_message_lem}
use chess_set.Websocket.Clients.{
  list_multicast_one, to_client, Clients, rfc6455, ws_send, ws_closeframe, list_add, list_multicast,
  list_multicast_all, list_remove_all, list_remove,
}
use chess_set.Websocket.Clients.Chain.{has, Holds, list_add-Holds}
use chess_set.Websocket.Clients.Without.{remove}
use chess_set.Websocket.Clients.Remove.{list_remove-Holds}
use chess_set.Websocket.Clients.Sends.{list_multicast_one_lem, frames, list_multicast_lem}

-- "Hello".
abbrev hello : Bytes
hello = 72 ∷ 101 ∷ 108 ∷ 108 ∷ 111 ∷ []

abbrev mask : Bytes
mask = 55 ∷ 250 ∷ 33 ∷ 61 ∷ []

-- The masked text message of RFC 6455, section 5.7.
rfc_frame :
    client_frame 129 mask hello ≡ 129 ∷ 133 ∷ 55 ∷ 250 ∷ 33 ∷ 61 ∷ 127 ∷ 159 ∷ 77 ∷ 81 ∷ 88 ∷ []
unfolding unmask
rfc_frame = refl

parse_message-client_frame_example :
    parse_message [] (client_frame 129 mask hello ++ (129 ∷ 133 ∷ [])) message_new
    ≡ status continue (parsed message_new mask hello (129 ∷ 133 ∷ [])) []
parse_message-client_frame_example =
    parse_message-client_frame [] 129 55 250 33 61 hello (129 ∷ 133 ∷ []) (omega arith)

abbrev hello_message : Message
hello_message = record message_new { msg = hello; len = 5 }

encode_message_lem_example :
    (read_frame (encode_message hello_message).enc ≡ some hello)
    × (length (encode_message hello_message).enc ≡ (encode_message hello_message).enc_len)
    × ((encode_message hello_message).hybi00 ≡ 0 ∷ (hello ++ (255 ∷ [])))
    × ((encode_message hello_message).msg ≡ hello)
encode_message_lem_example = encode_message_lem hello_message refl (omega arith)

-- The second fragment of a message is written behind the room for it: here, one of five bytes after
-- one of five bytes, with a byte of the next frame behind it.
second_fragment :
    parse_message []
      (client_frame 128 mask hello ++ (129 ∷ 133 ∷ 0 ∷ 0 ∷ 0 ∷ 0 ∷ 0 ∷ []))
      hello_message
    ≡ fault
unfolding parse_message parse_body unmask
second_fragment = refl

-- The clients 10 and 20, and the client 30 that is not in the list.
abbrev clients : Clients
clients = record {
  len = 2;
  first = 10;
  last = 20;
  nodes = λ p. record {
    socket_id = p;
    client_ip = [];
    type = rfc6455;
    next = if p == 10 then 20 else 0;
  };
  sent = [];
}

clients-Holds : Holds clients (10 ∷ 20 ∷ [])
clients-Holds = record {
  linked = (refl, omega arith, (refl, omega arith, refl));
  distinct = (refl, (refl, tt));
  last_eq = refl;
  len_eq = refl;
}

list_add-Holds_example : Holds (list_add clients 30) (10 ∷ 20 ∷ 30 ∷ [])
list_add-Holds_example =
    list_add-Holds clients 30 (10 ∷ 20 ∷ []) (omega arith) refl refl clients-Holds

list_remove-Holds_example : Holds (list_remove 2 clients 20 7) (remove 20 (10 ∷ 20 ∷ []))
list_remove-Holds_example =
    list_remove-Holds 2 clients 20 7 (10 ∷ 20 ∷ []) (omega arith) (omega arith) clients-Holds

list_multicast_lem_example :
    ((list_multicast 2 clients 10 hello_message).sent
      ≡ []
        ++ frames clients.nodes (λ p. not (p == 10)) (λ t. ws_send t hello_message) (10 ∷ 20 ∷ []))
    × ((list_multicast_all 2 clients hello_message).sent
        ≡ [] ++ frames clients.nodes (λ p. true) (λ t. ws_send t hello_message) (10 ∷ 20 ∷ []))
    × ((list_remove_all 2 clients).sent
        ≡ [] ++ frames clients.nodes (λ p. true) ws_closeframe (10 ∷ 20 ∷ []))
list_multicast_lem_example =
    list_multicast_lem 2 clients (10 ∷ 20 ∷ []) 10 hello_message (omega arith) clients-Holds

list_multicast_one_lem_example :
    (list_multicast_one 2 clients 20 hello_message).sent
    ≡ [] ++ (if has 20 (10 ∷ 20 ∷ []) then to_client 20 (ws_send rfc6455 hello_message) else [])
list_multicast_one_lem_example =
    list_multicast_one_lem 2 clients (10 ∷ 20 ∷ []) 20 hello_message (omega arith) (omega arith)
      clients-Holds
