-- ===== src/Server/Loop.antt =====
-- The loop of `app` in server/src/server.c, one round a step: what `accept` and `recv` give is the
-- environment's, and so are the socket that is ready and the number that `rand()` gives.
use awale_online.Prelude.{
  ℕ, ◌+◌, ◌-◌, Option, none, some, List, [], ◌∷◌, ◌++◌, ℤ, pos, ◌≡◌, ltb, leb, ◌==◌, ◌&&◌,
  if◌then◌else◌, update, length, take, replicate, ◌>>=◌, ◌>>◌, guard,
}
use awale_online.Wire.{codes, Bytes, buf_size, store, load16}
use awale_online.Server.State.{max_clients, Client, Server, Send, Outcome}
use awale_online.Server.Reader.{Handlers, client_server_protocol_read}
use awale_online.Server.Handlers.{handle_connect, handle_create_room, handle_join_room}
use awale_online.Server.Moves.{
  handle_play, handle_leave_room, handle_send_message, handle_set_biography, disconnect_user,
}

-- `handlers_init`: the table, over the content of a handler's local buffer and the next `rand()`.
unfoldable pub handlers_init : Bytes → ℕ → Handlers (Server → Outcome)
handlers_init scratch rand = record {
  on_connect = λ name s. handle_connect scratch s name;
  on_create_room = handle_create_room rand scratch;
  on_join_room = λ room_id spectate s. handle_join_room scratch s room_id spectate;
  on_play = λ position s. handle_play scratch s position;
  on_leave_room = handle_leave_room scratch;
  on_send_message = λ text s. handle_send_message scratch s text;
  on_set_biography = λ biography s. handle_set_biography s biography;
}

-- What a call of `recv` meets: an error, or the bytes that have come in.
abbrev pub Recv : Type 0
Recv = Option Bytes

-- `recv` puts `size` bytes at most at the start of the buffer: their number, 0 for an error, and the
-- buffer.
unfoldable pub recv : Bytes → ℕ → Recv → Option (ℕ × Bytes)
recv buffer size none = some (0, buffer)
recv buffer size (some bytes) = do
  filled ← store buffer 0 (take size bytes)
  some (length (take size bytes), filled)

-- `read_client`: the size, then as much as it says, then a NUL.
unfoldable pub read_client : Bytes → Recv → Recv → Option (ℕ × Bytes)
read_client buffer header body = do
  (h, sized) ← recv buffer 2 header
  size ← load16 sized
  (n, filled) ← recv sized size body
  ended ← store filled n (0 ∷ [])
  some (n, ended)

-- The clients behind the removed one move up.
unfoldable pub remove_client : Server → ℕ → Server
remove_client s i = record s {
  clients = λ k. if leb i k && ltb (k + 1) s.nb_clients then s.clients (k + 1) else s.clients k;
  nb_clients = s.nb_clients - 1;
}

-- A new connection; `clients` has room for `max_clients`.
unfoldable pub accept_client : Server → ℤ → Option Server
accept_client s csock = do
  guard (ltb s.nb_clients max_clients)
  let client : Client = record { sock = csock; name = []; room_id = 0; biography = [] }
  some (record s {
    current_client = s.nb_clients;
    clients = update s.clients s.nb_clients client;
    nb_clients = s.nb_clients + 1;
  })

pub data Event : Type 0 where
  -- `accept` gives a socket
  connects : ℤ → Event
  -- the client of this index is ready, with what the two calls of `recv` meet, the content of the
  -- handler's local buffer and the next `rand()`
  talks : ℕ → Recv → Recv → Bytes → ℕ → Event

-- A client that is ready, once its bytes are read.
unfoldable pub serve : Server → ℕ → ℕ → Bytes → Bytes → ℕ → Outcome
serve s i n buffer scratch rand =
    if n == 0 then (do left ← disconnect_user s; some (remove_client left i, [])) else do
      handler ← client_server_protocol_read buffer (handlers_init scratch rand) (λ t. some (t, []))
      handler s

-- What `strncpy` and `strncat` leave in the loop's buffer for a client that is gone.
unfoldable pub farewell : Bytes → Bytes
farewell name =
    let text = name ++ take (buf_size - length name - 1) (codes " disconnected !") in
    text ++ replicate (buf_size - length text) 0

-- One round: the state, the loop's buffer and the messages that go out. The index is one of a client.
unfoldable pub step : Server → Bytes → Event → Option (Server × Bytes × List Send)
step s buffer (connects csock) = do s' ← accept_client s csock; some (s', buffer, [])
step s buffer (talks i header body scratch rand) =
    if ltb i s.nb_clients
    then (do
      (n, filled) ← read_client buffer header body
      (s', sends) ← serve (record s { current_client = i }) i n filled scratch rand
      some (s', if n == 0 then farewell (s.clients i).name else filled, sends))
    else some (s, buffer, [])

-- The states and the loop's buffer that the loop gets to from the start, where there is no client and
-- no room.
pub data Reachable : Server → Bytes → Type 0 where
  start : (s : Server) (buffer : Bytes) → s.nb_clients ≡ 0 → s.nb_rooms ≡ pos 0 → Reachable s buffer
  round :
      (s s' : Server) (buffer buffer' : Bytes) (event : Event) (sends : List Send)
      → Reachable s buffer
      → step s buffer event ≡ some (s', buffer', sends)
      → Reachable s' buffer'
