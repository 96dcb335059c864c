-- ===== src/Protocol/ToClient.antt =====
-- What the server writes and what the client reads of it: the writers of server/src/protocol.c
-- against `server_client_protocol_read` of client/src/protocol.c.
pub mod Room
pub mod Payloads
pub mod RoundTrip
use awale_online.Prelude.{
  ℕ, zero, suc, ◌+◌, ◌-◌, ◌*◌, ◌/◌, ◌%◌, ◌^◌, ◌≤◌, ◌<◌, ◌≡◌, refl, Option, some, List, [], ◌∷◌,
  ◌++◌, length, take, drop, length-drop, arith, ap, append_assoc, length-append, take_append,
  get_or, ◌==◌, if◌then◌else◌, sym, ◌∙◌,
}
use awale_online.Wire.{
  Bytes, buf_size, store, u16_bytes, u32_bytes, c_string, load32, terminated, IsString,
}
use awale_online.Wire.Laws.{
  write_header_lem, write_bare-Frames, write_text-Frames, c_string-front, drop-front,
  load32-u32_bytes, store_front_lem, store_lem, length-terminated,
}
use awale_online.Game.{Game, opposite}
use awale_online.Server.Writers.{
  write_connection_successful, write_connection_refused, write_room_creation_successful,
  write_room_creation_refused, write_join_room_successful, write_join_room_refused, write_played,
  write_invalid_play, write_game_start, write_player_joined_room, write_spectator_joined_room,
  write_game_stopped, write_send_message_to_room, seen_board,
}
use awale_online.Client.Reader.{Handlers, server_client_protocol_read}
use awale_online.Protocol.ToServer.{IsText}
use Room.{
  encode, AreStrings, read_users-encode, read_spectators-encode, join_room_successful-Frames,
}

-- The messages of protocole.txt from the server to the client.
pub data ServerMessage : Type 0 where
  connection_successful : ServerMessage
  connection_refused : Bytes → ServerMessage
  room_creation_successful : ℕ → ServerMessage
  room_creation_refused : Bytes → ServerMessage
  -- the players, their biographies and the spectators
  join_room_successful : List Bytes → List Bytes → List Bytes → ServerMessage
  join_room_refused : Bytes → ServerMessage
  -- the side that is told, and the game
  played : ℕ → Game → ServerMessage
  game_start : ℕ → ServerMessage
  player_joined_room : Bytes → ServerMessage
  spectator_joined_room : Bytes → ServerMessage
  -- whether it is a draw, and the winner
  game_stopped : ℕ → Bytes → ServerMessage
  message : Bytes → Bytes → ServerMessage
  invalid_play : Bytes → ServerMessage

-- The server's writer for each message. The counts are cut to `uint8_t`.
abbrev pub write : ServerMessage → Bytes → Option (ℕ × Bytes)
write connection_successful buf = write_connection_successful buf
write (connection_refused text) buf = write_connection_refused buf text
write (room_creation_successful room_id) buf = write_room_creation_successful buf room_id
write (room_creation_refused text) buf = write_room_creation_refused buf text
write (join_room_successful users bios spectators) buf =
    write_join_room_successful buf (users ++ spectators) (length users % 256)
      (length spectators % 256) bios
write (join_room_refused text) buf = write_join_room_refused buf text
write (played side game) buf = write_played buf side game
write (game_start side) buf = write_game_start buf side
write (player_joined_room username) buf = write_player_joined_room buf username
write (spectator_joined_room username) buf = write_spectator_joined_room buf username
write (game_stopped draw winner) buf = write_game_stopped buf draw winner
write (message username text) buf = write_send_message_to_room buf username text
write (invalid_play text) buf = write_invalid_play buf text

-- The six houses of a side, then the six of the other.
abbrev pub seen_from : ℕ → Bytes → Bytes
seen_from side board = take 6 (drop (6 * side) board) ++ take 6 (drop (6 * (1 - side)) board)

-- The handler that the message is for, at its arguments; `rest` is the memory behind the payload.
abbrev pub call {ℓ} : {R : Type ℓ} → ServerMessage → Handlers R → Bytes → R
call connection_successful h rest = h.on_connection_successful
call (connection_refused text) h rest = h.on_connection_refused text
call (room_creation_successful room_id) h rest = h.on_room_creation_successful room_id
call (room_creation_refused text) h rest = h.on_room_creation_refused text
call (join_room_successful users bios spectators) h rest =
    h.on_join_room_successful (length users) (length spectators) users bios spectators
call (join_room_refused text) h rest = h.on_join_room_refused text
call (played side game) h rest =
    h.on_played (game.players side).captured (game.players (1 - side)).captured
      (seen_from side game.board ++ rest)
call (game_start side) h rest = h.on_game_start side
call (player_joined_room username) h rest = h.on_player_joined_room username
call (spectator_joined_room username) h rest = h.on_spectator_joined_room username
call (game_stopped draw winner) h rest =
    h.on_game_stopped draw (if draw == 0 then terminated winner ++ rest else rest)
call (message username text) h rest = h.on_message username text
call (invalid_play text) h rest = h.on_invalid_play text

-- What the buffer and the other side's arrays have room for.
abbrev pub IsSendable : ServerMessage → Type 0
IsSendable connection_successful = Unit {0}
IsSendable (connection_refused text) = IsText text
IsSendable (room_creation_successful room_id) = room_id < 2 ^ 32
IsSendable (room_creation_refused text) = IsText text
IsSendable (join_room_successful users bios spectators) =
    AreStrings users
    × AreStrings bios
    × AreStrings spectators
    × (length users ≡ length bios)
    × (length users ≤ 2)
    × (length spectators < 256)
    × (length (encode (users ++ spectators) bios) + 5 ≤ buf_size)
IsSendable (join_room_refused text) = IsText text
IsSendable (played side game) = (side < 2) × (length game.board ≡ 12)
IsSendable (game_start side) = Unit {0}
IsSendable (player_joined_room username) = IsText username
IsSendable (spectator_joined_room username) = IsText username
IsSendable (game_stopped draw winner) = length winner + 5 ≤ buf_size
IsSendable (message username text) =
    IsString username × IsString text × (length username + length text + 5 ≤ buf_size)
IsSendable (invalid_play text) = IsText text
