-- ===== src/Client/Reader.antt =====
-- `server_client_protocol_read` (client/src/protocol.c): a payload, to the handler that it calls.
use awale_online.Prelude.{
  ℕ, zero, suc, ◌+◌, Option, none, some, List, [], ◌∷◌, length, get_elem?, drop, ltb, ◌>>=◌, ◌>>◌,
  guard,
}
use awale_online.Wire.{Bytes, load32, c_string}
use awale_online.Protocol.{
  ServerClientProtocol, server_kind, connection_successful, connection_refused,
  room_creation_successful, room_creation_refused, join_room_successful, join_room_refused, played,
  game_start, player_joined_room, spectator_joined_room, game_stopped, message, invalid_play,
}

-- The table of function pointers; `R` is what a handler does to the client's state. The board of
-- `on_played` and the winner of `on_game_stopped` are the memory from their first byte on; any other
-- string is read when the handler is called.
pub record Handlers {ℓ} (R : Type ℓ) : Type ℓ where
  pub on_connection_successful : R
  pub on_connection_refused : Bytes → R
  pub on_room_creation_successful : ℕ → R
  pub on_room_creation_refused : Bytes → R
  pub on_join_room_successful : ℕ → ℕ → List Bytes → List Bytes → List Bytes → R
  pub on_join_room_refused : Bytes → R
  pub on_played : ℕ → ℕ → Bytes → R
  pub on_game_start : ℕ → R
  pub on_player_joined_room : Bytes → R
  pub on_spectator_joined_room : Bytes → R
  pub on_game_stopped : ℕ → Bytes → R
  pub on_message : Bytes → Bytes → R
  pub on_invalid_play : Bytes → R

-- The loop over the users with `k` rounds left: their names, their biographies, and the pointer
-- behind them. The arrays have room for two.
unfoldable pub read_users : ℕ → ℕ → Bytes → Option (List Bytes × List Bytes × Bytes)
read_users zero i str = some ([], [], str)
read_users (suc k) i str = do
  guard (ltb i 2)
  user ← c_string str
  let behind = drop (suc (length user)) str
  bio ← c_string behind
  (users, bios, rest) ← read_users k (i + 1) (drop (suc (length bio)) behind)
  some (user ∷ users, bio ∷ bios, rest)

-- The loop over the spectators; their array has room for 1024, more than a byte counts.
unfoldable pub read_spectators : ℕ → Bytes → Option (List Bytes)
read_spectators zero str = some []
read_spectators (suc k) str = do
  spectator ← c_string str
  spectators ← read_spectators k (drop (suc (length spectator)) str)
  some (spectator ∷ spectators)

module _ {ℓ} {R : Type ℓ} where
  -- The cases of the switch, at the bytes behind the kind.
  unfoldable pub read_kind : ServerClientProtocol → Bytes → Handlers R → Option R
  read_kind connection_successful buf handlers = some handlers.on_connection_successful
  read_kind connection_refused buf handlers = do
    text ← c_string buf
    some (handlers.on_connection_refused text)
  read_kind room_creation_successful buf handlers = do
    room_id ← load32 buf
    some (handlers.on_room_creation_successful room_id)
  read_kind room_creation_refused buf handlers = do
    text ← c_string buf
    some (handlers.on_room_creation_refused text)
  read_kind join_room_successful buf handlers = do
    nb_users ← get_elem? buf 0
    nb_spectators ← get_elem? buf 1
    (users, bios, rest) ← read_users nb_users 0 (drop 2 buf)
    spectators ← read_spectators nb_spectators rest
    some (handlers.on_join_room_successful nb_users nb_spectators users bios spectators)
  read_kind join_room_refused buf handlers = do
    text ← c_string buf
    some (handlers.on_join_room_refused text)
  read_kind played buf handlers = do
    s_score ← get_elem? buf 0
    o_score ← get_elem? buf 1
    some (handlers.on_played s_score o_score (drop 2 buf))
  read_kind game_start buf handlers = do
    position ← get_elem? buf 0
    some (handlers.on_game_start position)
  read_kind player_joined_room buf handlers = do
    username ← c_string buf
    some (handlers.on_player_joined_room username)
  read_kind spectator_joined_room buf handlers = do
    username ← c_string buf
    some (handlers.on_spectator_joined_room username)
  read_kind game_stopped buf handlers = do
    draw ← get_elem? buf 0
    some (handlers.on_game_stopped draw (drop 1 buf))
  read_kind message buf handlers = do
    username ← c_string buf
    text ← c_string (drop (suc (length username)) buf)
    some (handlers.on_message username text)
  read_kind invalid_play buf handlers = do text ← c_string buf; some (handlers.on_invalid_play text)

  -- A byte that is no kind calls no handler: `skip` is what happens then.
  unfoldable pub server_client_protocol_read : Bytes → Handlers R → R → Option R
  unfolding read_kind
  server_client_protocol_read [] handlers skip = none
  server_client_protocol_read (type ∷ buf) handlers skip = elim (server_kind type) [
    | none ↦ some skip
    | some kind ↦ read_kind kind buf handlers
  ]
