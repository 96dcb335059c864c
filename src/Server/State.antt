-- ===== src/Server/State.antt =====
-- The server's global state (server/src/server.c, server/include/client.h, server/include/room.h,
-- server/src/room.c), and the loops that look things up in it.
use awale_online.Prelude.{
  ℕ, zero, suc, ◌+◌, ◌-◌, Bool, true, false, ◌&&◌, Option, none, some, List, [], ◌∷◌, ℤ, negsuc,
  eq_ℤ, pos_part, pred_ℤ, ◌==◌, if◌then◌else◌, update, take, ◌>>=◌,
}
use awale_online.Wire.{Bytes}
use awale_online.Game.{Player, Game, PlayResult, game_init, game_add_player, game_play}

abbrev pub max_clients : ℕ
max_clients = 100

abbrev pub max_rooms : ℕ
max_rooms = 200

-- A name and a biography have `char[1024]`.
pub record Client : Type 0 where
  pub sock : ℤ
  pub name : Bytes
  pub room_id : ℕ
  pub biography : Bytes

pub record Room : Type 0 where
  pub id : ℕ
  pub game : Game

-- The arrays have `max_clients` and `max_rooms` entries.
pub record Server : Type 0 where
  pub current_client : ℕ
  pub nb_clients : ℕ
  pub clients : ℕ → Client
  pub nb_rooms : ℤ
  pub rooms : ℕ → Room

-- A message that goes out: the socket and the bytes.
abbrev pub Send : Type 0
Send = ℤ × Bytes

-- What a handler does: the new state, and the messages in the order in which they are sent. `none` is
-- an access outside an object. A `send` that fails ends the process, so it is followed by no state.
abbrev pub Outcome : Type 0
Outcome = Option (Server × List Send)

-- `write_client(sock, buffer, size)`; -1 is a player whose connection is gone.
unfoldable pub write_client : ℤ → ℕ × Bytes → List Send
write_client sock (size, buffer) =
    if eq_ℤ sock (negsuc 0) then [] else (sock, take size buffer) ∷ []

-- `room_init`, with what `rand()` gives
unfoldable pub room_init : ℕ → Room → Room
room_init rand room = record room { id = rand; game = game_init room.game }

unfoldable pub room_add_player : Room → Player → ℕ → Option Room
room_add_player room player spectate = do
  game ← game_add_player room.game player spectate
  some (record room { game = game })

unfoldable pub room_play : Room → ℤ → ℕ → Option (PlayResult × Room)
room_play room position side = do
  (result, game) ← game_play room.game position side
  some (result, record room { game = game })

-- `strcmp(a, b) == 0`
unfoldable pub same_string : Bytes → Bytes → Bool
same_string [] [] = true
same_string [] (y ∷ ys) = false
same_string (x ∷ xs) [] = false
same_string (x ∷ xs) (y ∷ ys) = x == y && same_string xs ys

-- `clients[current_client]`
abbrev pub current : Server → Client
current s = s.clients s.current_client

abbrev pub set_current : Server → Client → Server
set_current s client = record s { clients = update s.clients s.current_client client }

-- `rooms[i] = room`
abbrev pub set_room : Server → ℕ → Room → Server
set_room s i room = record s { rooms = update s.rooms i room }

-- The first of the `k` indices from `i` on at which the test holds.
unfoldable pub first : (ℕ → Bool) → ℕ → ℕ → Option ℕ
first test zero i = none
first test (suc k) i = if test i then some i else first test k (i + 1)

-- `for (i = 0; i < nb_rooms; ++i) if (rooms[i].id == room_id) break;`
unfoldable pub find_room : Server → ℕ → Option ℕ
find_room s room_id = first (λ i. (s.rooms i).id == room_id) (pos_part s.nb_rooms) 0

-- `for (j = 0; j < nb_players; ++j) if (players[j].id == sock)`
unfoldable pub find_player : Game → ℤ → Option ℕ
find_player game sock = first (λ j. eq_ℤ (game.players j).id sock) game.nb_players 0

-- The same over the spectators; the seat is `j + 2`.
unfoldable pub find_spectator : Game → ℤ → Option ℕ
find_spectator game sock = first (λ j. eq_ℤ (game.players (j + 2)).id sock) game.nb_spectators 0

-- `for (int k = i; k < nb_rooms; ++k) rooms[k] = rooms[k + 1];` with `rounds` left, at `k`.
unfoldable pub move_up {ℓ} : {A : Type ℓ} → (ℕ → A) → ℕ → ℕ → ℕ → A
move_up a zero k = a
move_up a (suc rounds) k = move_up (update a k (a (k + 1))) rounds (k + 1)

-- "Delete room from rooms list": the rooms behind it move up, and the last slot keeps its content.
unfoldable pub delete_room : Server → ℕ → Server
unfolding move_up
delete_room s i =
    let nb_rooms = pred_ℤ s.nb_rooms in
    record s { nb_rooms = nb_rooms; rooms = move_up s.rooms (pos_part nb_rooms - i) i }
