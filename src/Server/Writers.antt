-- ===== src/Server/Writers.antt =====
-- The messages that the server writes (server/src/protocol.c). A writer takes the buffer, and gives
-- what the function returns and the buffer afterwards; `none` is a write behind the buffer's end.
use awale_online.Prelude.{
  ℕ, zero, suc, ◌+◌, ◌*◌, ◌%◌, ◌^◌, Option, some, List, [], ◌∷◌, ◌==◌, ltb, if◌then◌else◌, length,
  get_elem?, get_or, ◌>>=◌,
}
use awale_online.Wire.{
  Bytes, store, u16_bytes, u32_bytes, terminated, write_header, write_bare, write_text,
}
use awale_online.Protocol.{
  server_byte, connection_successful, connection_refused, room_creation_successful,
  room_creation_refused, join_room_successful, join_room_refused, played, game_start,
  player_joined_room, spectator_joined_room, game_stopped, message, invalid_play,
}
use awale_online.Game.{Game, board_size, opposite}

unfoldable pub write_connection_successful : Bytes → Option (ℕ × Bytes)
write_connection_successful = write_bare (server_byte connection_successful)

unfoldable pub write_connection_refused : Bytes → Bytes → Option (ℕ × Bytes)
write_connection_refused = write_text (server_byte connection_refused)

unfoldable pub write_room_creation_successful : Bytes → ℕ → Option (ℕ × Bytes)
write_room_creation_successful buf room_id = do
  let size : ℕ = 5
  headed ← write_header buf size (server_byte room_creation_successful)
  written ← store headed 3 (u32_bytes room_id)
  some (size + 2, written)

unfoldable pub write_room_creation_refused : Bytes → Bytes → Option (ℕ × Bytes)
write_room_creation_refused = write_text (server_byte room_creation_refused)

-- The loop of `write_join_room_successful` with `k` rounds left: the size so far, and the buffer. The
-- arrays are the lists of the strings that their pointers show.
unfoldable pub write_users : ℕ → ℕ → ℕ → List Bytes → List Bytes → ℕ → Bytes → Option (ℕ × Bytes)
write_users zero i nb_users users bios size buf = some (size, buf)
write_users (suc k) i nb_users users bios size buf = do
  user ← get_elem? users i
  named ← store buf (size + 2) (terminated user)
  let size' = (size + (length user + 1)) % 2 ^ 16
  (size'', written) ←
      if ltb i nb_users
      then (do
        bio ← get_elem? bios i
        described ← store named (size' + 2) (terminated bio)
        some ((size' + (length bio + 1)) % 2 ^ 16, described))
      else some (size', named)
  write_users k (i + 1) nb_users users bios size'' written

-- `nb_users` and `nb_spectators` are `uint8_t`.
unfoldable pub write_join_room_successful :
    Bytes → List Bytes → ℕ → ℕ → List Bytes → Option (ℕ × Bytes)
write_join_room_successful buf users nb_users nb_spectators player_bios = do
  kind_set ← store buf 2 (server_byte join_room_successful ∷ [])
  users_set ← store kind_set 3 (nb_users ∷ [])
  spectators_set ← store users_set 4 (nb_spectators ∷ [])
  (size, named) ←
      write_users (nb_users + nb_spectators) 0 nb_users users player_bios 3 spectators_set
  written ← store named 0 (u16_bytes size)
  some (size + 2, written)

unfoldable pub write_join_room_refused : Bytes → Bytes → Option (ℕ × Bytes)
write_join_room_refused = write_text (server_byte join_room_refused)

-- `game->board[(i + BOARD_SIZE / 2 * side) % BOARD_SIZE]` for `k` houses from `i` on
unfoldable pub seen_board : ℕ → ℕ → ℕ → List ℕ → Bytes
seen_board zero i side board = []
seen_board (suc k) i side board =
    get_or board ((i + 6 * side) % board_size) 0 ∷ seen_board k (i + 1) side board

-- A side other than 0 and 1 would index `players` below its start.
unfoldable pub write_played : Bytes → ℕ → Game → Option (ℕ × Bytes)
write_played buf side game = do
  let size : ℕ = 15
  headed ← write_header buf size (server_byte played)
  other ← opposite side
  mine ← store headed 3 ((game.players side).captured ∷ [])
  theirs ← store mine 4 ((game.players other).captured ∷ [])
  written ← store theirs 5 (seen_board board_size 0 side game.board)
  some (size + 2, written)

unfoldable pub write_invalid_play : Bytes → Bytes → Option (ℕ × Bytes)
write_invalid_play = write_text (server_byte invalid_play)

unfoldable pub write_game_start : Bytes → ℕ → Option (ℕ × Bytes)
write_game_start buf side = do
  let size : ℕ = 2
  headed ← write_header buf size (server_byte game_start)
  written ← store headed 3 (side ∷ [])
  some (size + 2, written)

unfoldable pub write_player_joined_room : Bytes → Bytes → Option (ℕ × Bytes)
write_player_joined_room = write_text (server_byte player_joined_room)

unfoldable pub write_spectator_joined_room : Bytes → Bytes → Option (ℕ × Bytes)
write_spectator_joined_room = write_text (server_byte spectator_joined_room)

-- With `draw` set, `winner` is not read.
unfoldable pub write_game_stopped : Bytes → ℕ → Bytes → Option (ℕ × Bytes)
write_game_stopped buf draw winner = do
  (size, named) ←
      if draw == 0
      then (do
        named ← store buf 4 (terminated winner)
        some ((2 + (1 + length winner)) % 2 ^ 16, named))
      else some (2, buf)
  headed ← write_header named size (server_byte game_stopped)
  written ← store headed 3 (draw ∷ [])
  some (size + 2, written)

unfoldable pub write_send_message_to_room : Bytes → Bytes → Bytes → Option (ℕ × Bytes)
write_send_message_to_room buf username text = do
  let size = (length text + length username + 3) % 2 ^ 16
  headed ← write_header buf size (server_byte message)
  named ← store headed 3 (terminated username)
  written ← store named (3 + length username + 1) (terminated text)
  some (size + 2, written)
