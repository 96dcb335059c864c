-- ===== src/Protocol.antt =====
-- include/client_server_protocol.h and include/server_client_protocol.h: the kinds of message, each
-- with the byte that stands for it.
mod Tests
pub mod ToServer
pub mod ToClient
use awale_online.Prelude.{ℕ, Option, List, [], ◌∷◌, get_elem?}

pub data ClientServerProtocol : Type 0 where
  connect create_room join_room play leave_room send_message set_biography : ClientServerProtocol

pub data ServerClientProtocol : Type 0 where
  connection_successful connection_refused room_creation_successful : ServerClientProtocol
  room_creation_refused join_room_successful join_room_refused played : ServerClientProtocol
  game_start player_joined_room spectator_joined_room game_stopped : ServerClientProtocol
  message invalid_play : ServerClientProtocol

-- The values of an `enum` count from 0 in the order of its names.
abbrev pub client_kinds : List ClientServerProtocol
client_kinds =
    connect ∷ create_room ∷ join_room ∷ play ∷ leave_room ∷ send_message ∷ set_biography ∷ []

abbrev pub server_kinds : List ServerClientProtocol
server_kinds =
    connection_successful ∷ connection_refused ∷ room_creation_successful ∷ room_creation_refused
    ∷ join_room_successful ∷ join_room_refused ∷ played ∷ game_start ∷ player_joined_room
    ∷ spectator_joined_room ∷ game_stopped ∷ message ∷ invalid_play ∷ []

abbrev pub client_kind : ℕ → Option ClientServerProtocol
client_kind = get_elem? client_kinds

abbrev pub server_kind : ℕ → Option ServerClientProtocol
server_kind = get_elem? server_kinds

abbrev pub client_byte : ClientServerProtocol → ℕ
client_byte connect = 0
client_byte create_room = 1
client_byte join_room = 2
client_byte play = 3
client_byte leave_room = 4
client_byte send_message = 5
client_byte set_biography = 6

abbrev pub server_byte : ServerClientProtocol → ℕ
server_byte connection_successful = 0
server_byte connection_refused = 1
server_byte room_creation_successful = 2
server_byte room_creation_refused = 3
server_byte join_room_successful = 4
server_byte join_room_refused = 5
server_byte played = 6
server_byte game_start = 7
server_byte player_joined_room = 8
server_byte spectator_joined_room = 9
server_byte game_stopped = 10
server_byte message = 11
server_byte invalid_play = 12
