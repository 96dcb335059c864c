-- ===== src/Server/Moves.antt =====
-- The handlers of server/src/protocol.c for a client in a room: moves, leaving, messages; and
-- `disconnect_user`.
use awale_online.Prelude.{
  ℕ, zero, suc, ◌+◌, ◌-◌, ◌*◌, ◌/◌, Option, none, some, List, [], ◌++◌, ℤ, pos, negsuc, eq_ℤ,
  pos_part, ltb, ◌==◌, if◌then◌else◌, update, length, ◌>>=◌, ◌>>◌, guard,
}
use awale_online.Wire.{codes, Bytes, buf_size}
use awale_online.Game.{
  Game, Player, GameState, PlayResult, valid_play, out_of_bounds, empty_house, not_ended, p1won,
  p2won, draw, game_is_ended, max_game_players,
}
use awale_online.Server.State.{
  max_rooms, Server, Send, Outcome, write_client, room_play, current, set_current, set_room,
  find_room, find_player, find_spectator, delete_room,
}
use awale_online.Server.Writers.{
  write_played, write_invalid_play, write_game_stopped, write_send_message_to_room,
}

-- The loop that shows a move to the `k` players from seat `j` on, each from its side.
unfoldable pub show_players : Bytes → Game → ℕ → ℕ → Option (Bytes × List Send)
show_players buffer game zero j = some (buffer, [])
show_players buffer game (suc k) j = do
  (size, shown) ← write_played buffer j game
  (buffer', sends) ← show_players shown game k (j + 1)
  some (buffer', write_client (game.players j).id (size, shown) ++ sends)

-- `players[i]`, of `max_game_players` seats
abbrev pub player_at : Game → ℕ → Option Player
player_at game i = if ltb i max_game_players then some (game.players i) else none

-- The loop that shows it to the `k` spectators from `j` on, from side 0.
unfoldable pub show_spectators : Bytes → Game → ℕ → ℕ → Option (Bytes × List Send)
show_spectators buffer game zero j = some (buffer, [])
show_spectators buffer game (suc k) j = do
  (size, shown) ← write_played buffer 0 game
  spectator ← player_at game (2 + j)
  (buffer', sends) ← show_spectators shown game k (j + 1)
  some (buffer', write_client spectator.id (size, shown) ++ sends)

-- What the result of a move lets the server send.
unfoldable pub report : Bytes → Game → ℕ → PlayResult → Option (Bytes × List Send)
report buffer game side valid_play = do
  (shown, to_players) ← show_players buffer game game.nb_players 0
  (shown', to_spectators) ← show_spectators shown game game.nb_spectators 0
  some (shown', to_players ++ to_spectators)
report buffer game side out_of_bounds = do
  (size, refused) ← write_invalid_play buffer (codes "Error: Invalid play.")
  some (refused, write_client (game.players side).id (size, refused))
report buffer game side empty_house = do
  (size, refused) ← write_invalid_play buffer (codes "Error: Empty house.")
  some (refused, write_client (game.players side).id (size, refused))

-- The end of a game: both players are told, and the room is deleted. `winner` is not read for a draw.
unfoldable pub stop_game : Server → Bytes → ℕ → ℕ → Bytes → Outcome
stop_game s buffer i drawn winner = do
  stopped ← write_game_stopped buffer drawn winner
  let players = (s.rooms i).game.players
  some (delete_room s i, write_client (players 0).id stopped ++ write_client (players 1).id stopped)

unfoldable pub finish : Server → Bytes → ℕ → GameState → Outcome
finish s buffer i not_ended = some (s, [])
finish s buffer i p1won = stop_game s buffer i 0 ((s.rooms i).game.players 0).name
finish s buffer i p2won = stop_game s buffer i 0 ((s.rooms i).game.players 1).name
finish s buffer i draw = stop_game s buffer i 1 []

-- The side of a client in a game.
unfoldable pub side_of : Game → ℤ → ℕ
side_of game sock = if eq_ℤ (game.players 0).id sock then 0 else 1

-- `handle_play` once the room is found.
unfoldable pub play_in_room : Server → Bytes → ℕ → ℕ → Outcome
play_in_room s buffer i position = do
  let side = side_of (s.rooms i).game (current s).sock
  (result, room) ← room_play (s.rooms i) (pos (side * 12 / 2 + position)) side
  let played = set_room s i room
  (buffer', sends) ← report buffer room.game side result
  (left, sends') ← finish played buffer' i (game_is_ended room.game)
  some (left, sends ++ sends')

-- `handle_play` by the room that was found: without one nothing happens.
unfoldable pub play_at : Bytes → Server → ℕ → Option ℕ → Outcome
play_at buffer s position none = some (s, [])
play_at buffer s position (some i) = play_in_room s buffer i position

unfoldable pub handle_play : Bytes → Server → ℕ → Outcome
unfolding play_at
handle_play buffer s position = play_at buffer s position (find_room s (current s).room_id)

-- The index that the search for a room ends with: `nb_rooms`, if there is none.
unfoldable pub room_index : Server → ℕ → ℕ
room_index s room_id = elim (find_room s room_id) [ none ↦ pos_part s.nb_rooms | some i ↦ i ]

-- The same message to the `k` seats from `n` on, but to seat `j`.
unfoldable pub tell_others : ℕ × Bytes → Game → ℕ → ℕ → ℕ → List Send
tell_others message game j zero n = []
tell_others message game j (suc k) n =
    (if n == j then [] else write_client (game.players n).id message)
    ++ tell_others message game j k (n + 1)

-- "remove spectator from game"
unfoldable pub remove_spectator : Game → ℕ → Game
remove_spectator game j = record game {
  players = update game.players (j + 2) (game.players (game.nb_spectators - 1));
  nb_spectators = game.nb_spectators - 1;
}

-- "If not player, then spectator": room `i` without the spectator, if it is one.
unfoldable pub leave_as_spectator : Server → ℕ → Option ℕ → Server
leave_as_spectator s i none = s
leave_as_spectator s i (some j) =
    let room = s.rooms i in set_room s i (record room { game = remove_spectator room.game j })

-- `handle_leave_room` in room `i`, by the seat of a player and of a spectator: a player closes it.
unfoldable pub leave_at : Bytes → Server → ℕ → Option ℕ → Option ℕ → Outcome
leave_at buffer s i (some j) spectator = do
  stopped ← write_game_stopped buffer 1 []
  let game = (s.rooms i).game
  some (delete_room s i, tell_others stopped game j (game.nb_players + game.nb_spectators) 0)
leave_at buffer s i none spectator = some (leave_as_spectator s i spectator, [])

unfoldable pub handle_leave_room : Bytes → Server → Outcome
unfolding leave_at leave_as_spectator
handle_leave_room buffer s = do
  let sock = (current s).sock
  let left = set_current s (record (current s) { room_id = 0 })
  let i = room_index s (current s).room_id
  guard (ltb i max_rooms)
  let game = (s.rooms i).game
  leave_at buffer left i (find_player game sock) (find_spectator game sock)

-- The same message to the `k` seats from `n` on whose socket is another.
unfoldable pub tell_room : ℕ × Bytes → Game → ℤ → ℕ → ℕ → List Send
tell_room message game sock zero n = []
tell_room message game sock (suc k) n =
    (if eq_ℤ (game.players n).id sock then [] else write_client (game.players n).id message)
    ++ tell_room message game sock k (n + 1)

unfoldable pub handle_send_message : Bytes → Server → Bytes → Outcome
handle_send_message buffer s text = do
  let i = room_index s (current s).room_id
  let sock = (current s).sock
  message ← write_send_message_to_room buffer (current s).name text
  guard (ltb i max_rooms)
  let game = (s.rooms i).game
  some (
    s,
    tell_room message game sock game.nb_players 0
        ++ tell_room message game sock game.nb_spectators 2,
  )

unfoldable pub handle_set_biography : Server → Bytes → Outcome
handle_set_biography s biography = do
  guard (ltb (length biography) buf_size)
  some (set_current s (record (current s) { biography = biography }), [])

-- The loop over the spectators in `disconnect_user`, with `k` rounds left, at `j`: it compares with
-- the spectators of room `j`, and its bound falls with each one that it removes.
unfoldable pub drop_spectators : Server → ℕ → ℕ → ℕ → Option Server
drop_spectators s i zero j = some s
drop_spectators s i (suc k) j =
    if ltb j (s.rooms i).game.nb_spectators
    then (do
      guard (ltb j max_rooms)
      let room = s.rooms i
      drop_spectators
          (if eq_ℤ ((s.rooms j).game.players (2 + j)).id (current s).sock
            then set_room s i (record room { game = remove_spectator room.game j })
            else s)
          i k (j + 1))
    else some s

-- `disconnect_user` in room `i` of the client, by its seat: a player stays without a socket, else the
-- loop goes on with `next`.
unfoldable pub disconnect_at : Server → ℕ → (Server → Option Server) → Option ℕ → Option Server
disconnect_at s i next (some j) =
    let room = s.rooms i in
    let gone = record (room.game.players j) { id = negsuc 0 } in
    let game = record (room.game) { players = update room.game.players j gone } in
    some (set_room s i (record room { game = game }))
disconnect_at s i next none = drop_spectators s i (s.rooms i).game.nb_spectators 0 >>= next

-- `disconnect_user` over the `k` rooms from `i` on.
unfoldable pub disconnect_from : Server → ℕ → ℕ → Option Server
unfolding disconnect_at
disconnect_from s zero i = some s
disconnect_from s (suc k) i =
    if (current s).room_id == (s.rooms i).id
    then disconnect_at s i (λ s'. disconnect_from s' k (i + 1))
        (find_player (s.rooms i).game (current s).sock)
    else disconnect_from s k (i + 1)

unfoldable pub disconnect_user : Server → Option Server
disconnect_user s = disconnect_from s (pos_part s.nb_rooms) 0
