-- ===== src/Server/Handlers.antt =====
-- The handlers of server/src/protocol.c for a client that connects, creates a room or joins one. Each
-- takes the content of its local `buffer`, which is not initialised.
use awale_online.Prelude.{
  ℕ, zero, suc, ◌+◌, ◌%◌, Bool, true, false, ◌&&◌, ◌||◌, not, Option, none, some, List, [], ◌∷◌,
  ◌++◌, ℤ, pos, negsuc, suc_ℤ, pos_part, ltb, leb, ◌==◌, if◌then◌else◌, update, length, ◌>>=◌, ◌>>◌,
  guard,
}
use awale_online.Wire.{codes, Bytes, buf_size}
use awale_online.Game.{Player, Game, max_game_players}
use awale_online.Server.State.{
  max_rooms, Room, Server, Send, Outcome, write_client, room_init, room_add_player, same_string,
  current, set_current, set_room, first, find_room,
}
use awale_online.Server.Writers.{
  write_connection_successful, write_connection_refused, write_room_creation_successful,
  write_join_room_successful, write_join_room_refused, write_played, write_game_start,
}

-- `clients[i].name` of the first `nb_clients` clients
unfoldable pub name_in_use : Server → Bytes → Bool
name_in_use s name = elim (first (λ i. same_string (s.clients i).name name) s.nb_clients 0) [
  | none ↦ false
  | some i ↦ true
]

-- The room and the seat of the player of a name, over the `k` rooms from `i` on.
unfoldable pub find_seat : Server → Bytes → ℕ → ℕ → Option (ℕ × ℕ)
find_seat s name zero i = none
find_seat s name (suc k) i =
    let later = find_seat s name k (i + 1) in
    elim (first (λ j. same_string name ((s.rooms i).game.players j).name)
      (s.rooms i).game.nb_players 0) [ some j ↦ some (i, j) | none ↦ later ]

-- The names in the `k` seats from `j` on.
unfoldable pub seat_names : Game → ℕ → ℕ → List Bytes
seat_names game zero j = []
seat_names game (suc k) j = (game.players j).name ∷ seat_names game k (j + 1)

-- The biographies of the players from seat `j` on, as `client_index` shows them.
unfoldable pub seat_bios : Server → Game → ℕ → ℕ → List Bytes
seat_bios s game zero j = []
seat_bios s game (suc k) j =
    (s.clients (game.players j).client_index).biography ∷ seat_bios s game k (j + 1)

-- The two local arrays that are filled before `write_join_room_successful`: `player_names` has
-- `MAX_GAME_PLAYERS` entries and `player_bios` two. The counts go over as `uint8_t`.
unfoldable pub write_room : Server → Bytes → Game → Option (ℕ × Bytes)
unfolding seat_names seat_bios
write_room s buffer game = do
  guard (leb game.nb_players 2)
  guard (leb (game.nb_players + game.nb_spectators) max_game_players)
  write_join_room_successful buffer
      (seat_names game game.nb_players 0 ++ seat_names game game.nb_spectators 2)
      (game.nb_players % 256) (game.nb_spectators % 256) (seat_bios s game game.nb_players 0)

-- What a client that is back in seat `j` is told: the players of a game that waits, the board if it is
-- its turn, or the start of the game.
unfoldable pub reconnect_message : Server → Bytes → Game → ℕ → Option (ℕ × Bytes)
reconnect_message s buffer game j =
    if not game.is_started
    then write_room s buffer game
    else if game.turn == j
    then write_played buffer j game
    else write_game_start buffer 1

-- The client of a name that a player has takes that player's place. `s` has the name written already.
unfoldable pub reconnect : Server → Bytes → ℕ → ℕ → Outcome
reconnect s buffer i j = do
  let room = s.rooms i
  let player = record (room.game.players j) { id = (current s).sock }
  let game = record (room.game) { players = update room.game.players j player }
  let seated = set_room s i (record room { game = game })
  let entered = set_current seated (record (current seated) { room_id = room.id })
  message ← reconnect_message entered buffer game j
  some (entered, write_client (current s).sock message)

-- The answer to a name that was free, by the seat that a player of that name has.
unfoldable pub welcome : Bytes → Server → Option (ℕ × ℕ) → Outcome
welcome buffer s (some (i, j)) = reconnect s buffer i j
welcome buffer s none = do
  accepted ← write_connection_successful buffer
  some (s, write_client (current s).sock accepted)

unfoldable pub handle_connect : Bytes → Server → Bytes → Outcome
unfolding welcome
handle_connect buffer s name =
    if name_in_use s name
    then (do
      refused ← write_connection_refused buffer (codes "Error: Name already in use.")
      some (s, write_client (current s).sock refused))
    else do
      guard (ltb (length name) buf_size)
      let named = set_current s (record (current s) { name = name })
      welcome buffer named (find_seat named name (pos_part named.nb_rooms) 0)

-- The player that the current client becomes.
unfoldable pub new_player : Server → Player
new_player s = record {
  id = (current s).sock;
  name = (current s).name;
  captured = 0;
  client_index = s.current_client;
}

-- `rooms[nb_rooms]`, where this is a room
unfoldable pub free_slot : ℤ → Option ℕ
free_slot (pos n) = if ltb n max_rooms then some n else none
free_slot (negsuc n) = none

-- `rand` is what `rand()` gives.
unfoldable pub handle_create_room : ℕ → Bytes → Server → Outcome
handle_create_room rand buffer s = do
  n ← free_slot s.nb_rooms
  let room = room_init rand (s.rooms n)
  let entered = set_current s (record (current s) { room_id = room.id })
  joined ← room_add_player room (new_player s) 0
  created ← write_room_creation_successful buffer room.id
  some (
    record (set_room entered n joined) { nb_rooms = suc_ℤ s.nb_rooms },
    write_client (current s).sock created,
  )

-- The loop that starts the game: the `k` players from seat `j` on are told their sides.
unfoldable pub announce_start : Bytes → Game → ℕ → ℕ → Option (Bytes × List Send)
announce_start buffer game zero j = some (buffer, [])
announce_start buffer game (suc k) j = do
  (size, started) ← write_game_start buffer j
  (buffer', sends) ← announce_start started game k (j + 1)
  some (buffer', write_client (game.players j).id (size, started) ++ sends)

-- "Start the game if not already started": with two players in room `i`, they are told.
unfoldable pub start_when_full : Server → Bytes → ℕ → Room → Option (List Send × Server)
start_when_full s buffer i room =
    if leb 2 room.game.nb_players && not room.game.is_started
    then (do
      (buffer', sends) ← announce_start buffer room.game room.game.nb_players 0
      some (sends, set_room s i (record room { game = record (room.game) { is_started = true } })))
    else some ([], s)

-- The branch of `handle_join_room` for a room with a seat.
unfoldable pub enter_room : Server → Bytes → ℕ → ℕ → ℕ → Outcome
enter_room s buffer i room_id spectate = do
  room ← room_add_player (s.rooms i) (new_player s) spectate
  let entered = set_current (set_room s i room) (record (current s) { room_id = room_id })
  (size, listed) ← write_room (set_room s i room) buffer room.game
  (sends, final) ← start_when_full entered listed i room
  some (final, write_client (current s).sock (size, listed) ++ sends)

-- `(!spectate && nb_players >= 2) || nb_players >= MAX_GAME_PLAYERS`
unfoldable pub room_full : Game → ℕ → Bool
room_full game spectate =
    (spectate == 0 && leb 2 game.nb_players) || leb max_game_players game.nb_players

-- `handle_join_room` by the room that was found.
unfoldable pub join_at : Bytes → Server → ℕ → ℕ → Option ℕ → Outcome
join_at buffer s room_id spectate (some i) =
    if room_full (s.rooms i).game spectate
    then (do
      refused ←
          write_join_room_refused buffer (codes "Error: The room is full. Try to spectate instead.")
      some (s, write_client (current s).sock refused))
    else enter_room s buffer i room_id spectate
join_at buffer s room_id spectate none = do
  refused ← write_join_room_refused buffer (codes "Error: Room not found.")
  some (s, write_client (current s).sock refused)

unfoldable pub handle_join_room : Bytes → Server → ℕ → ℕ → Outcome
unfolding join_at
handle_join_room buffer s room_id spectate = join_at buffer s room_id spectate (find_room s room_id)
