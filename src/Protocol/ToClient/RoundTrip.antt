-- ===== src/Protocol/ToClient/RoundTrip.antt =====
-- Every message that the server writes is read by the client as that message
-- (server/src/protocol.c, client/src/protocol.c).
use mathlib.Core.Path.{ap₂}
use awale_online.Prelude.{
  ◌%◌, ℕ, zero, suc, ◌+◌, ◌-◌, ◌≤◌, ◌<◌, ◌≡◌, refl, some, [], ◌∷◌, ◌++◌, length, take, drop, arith,
  ap, append_assoc, length-append, get_or, ◌==◌, if◌then◌else◌, ◌∙◌, Bool, true, false,
}
use awale_online.Wire.{Bytes, buf_size, u32_bytes, terminated}
use awale_online.Wire.Laws.{
  Frames, write_bare-Frames, write_text-Frames, c_string-front, drop-front, load32-u32_bytes,
  length-terminated,
}
use awale_online.Game.{Game, board_size}
use awale_online.Server.Writers.{
  write_connection_successful, write_connection_refused, write_room_creation_refused,
  write_join_room_refused, write_invalid_play, write_player_joined_room,
  write_spectator_joined_room, seen_board,
}
use awale_online.Client.Reader.{Handlers, server_client_protocol_read}
use awale_online.Protocol.ToClient.{
  ServerMessage, connection_successful, connection_refused, room_creation_successful,
  room_creation_refused, join_room_successful, join_room_refused, played, game_start,
  player_joined_room, spectator_joined_room, game_stopped, message, invalid_play, write, call,
  seen_from, IsSendable,
}
use awale_online.Protocol.ToClient.Room.{
  encode, read_users-encode, read_spectators-encode, join_room_successful-Frames,
}
use awale_online.Protocol.ToClient.Payloads.{
  room_creation_successful-Frames, game_start-Frames, message-Frames, played-Frames,
  game_stopped-Frames,
}

-- The `k` houses from `i` on.
abbrev listing : Bytes → ℕ → ℕ → Bytes
listing board zero i = []
listing board (suc k) i = get_or board i 0 ∷ listing board k (suc i)

listing-cons : (x : ℕ) (board : Bytes) (k i : ℕ) → listing (x ∷ board) k (suc i) ≡ listing board k i
listing-cons x board zero i = refl
listing-cons x board (suc k) i = ap (λ t. get_or board i 0 ∷ t) (listing-cons x board k (suc i))

listing_lem :
    (board : Bytes) (k i : ℕ) → i + k ≤ length board → listing board k i ≡ take k (drop i board)
listing_lem board zero i h = refl
listing_lem [] (suc k) i h = absurd (omega arith)
listing_lem (x ∷ board) (suc k) zero h =
    ap (λ t. x ∷ t) (listing-cons x board k 0 ∙ listing_lem board k 0 (omega arith))
listing_lem (x ∷ board) (suc k) (suc i) h =
    listing-cons x board (suc k) i ∙ listing_lem board (suc k) i (omega arith)

-- A side sees its own six houses first.
pub seen_board-seen_from :
    (side : ℕ) (board : Bytes)
    → side < 2
    → length board ≡ 12
    → seen_board board_size 0 side board ≡ seen_from side board
unfolding seen_board
seen_board-seen_from zero board hs len =
    ap₂ ◌++◌ (listing_lem board 6 0 (omega arith)) (listing_lem board 6 6 (omega arith))
seen_board-seen_from (suc zero) board hs len =
    ap₂ ◌++◌ (listing_lem board 6 6 (omega arith)) (listing_lem board 6 0 (omega arith))
seen_board-seen_from (suc (suc n)) board hs len = absurd (omega arith)

winner_part :
    (won : Bool) (winner rest : Bytes)
    → (if won then terminated winner else []) ++ rest
      ≡ (if won then terminated winner ++ rest else rest)
winner_part true winner rest = refl
winner_part false winner rest = refl

-- A payload that a buffer has room for, with its size in front.
abbrev pub Fits : Bytes → Type 0
Fits payload = (0 < length payload) × (length payload + 2 ≤ buf_size)

text-Fits : (kind : ℕ) (text : Bytes) → length text + 4 ≤ buf_size → Fits (kind ∷ terminated text)
text-Fits kind text h = (omega arith, omega (arith, length-terminated text))

winner_part-Fits :
    (draw : ℕ) (winner : Bytes) (won : Bool)
    → length winner + 5 ≤ buf_size
    → Fits (10 ∷ draw ∷ (if won then terminated winner else []))
winner_part-Fits draw winner true h = (omega arith, omega (arith, length-terminated winner))
winner_part-Fits draw winner false h = (omega arith, omega arith)

played-Fits :
    (side : ℕ) (game : Game)
    → Fits (
        6
        ∷ (game.players side).captured
        ∷ (game.players (1 - side)).captured
        ∷ seen_board board_size 0 side game.board)
unfolding seen_board
played-Fits side game = (omega arith, omega arith)

-- What a payload is read as.
abbrev Reads : Bytes → ServerMessage → Type 1
Reads payload m =
    (R : Type 0) (handlers : Handlers R) (skip : R) (rest : Bytes)
    → server_client_protocol_read (payload ++ rest) handlers skip ≡ some (call m handlers rest)

-- What the server writes for a message, the client reads as that message: the writer stays inside
-- its buffer of `BUF_SIZE` bytes and frames a payload by its size, the payload is not empty and
-- fits such a buffer with its size, and the reader, given that payload with anything behind it,
-- calls the message's handler with the same arguments. A move is shown from the side that is told:
-- its score and its six houses first. The message is one of `IsSendable`: texts are strings that
-- fit the buffer, a room has two users at most and fewer than 256 spectators, and a board has
-- twelve houses.
pub client_read-server_write :
    (m : ServerMessage) (buf : Bytes)
    → length buf ≡ buf_size
    → IsSendable m
    → (payload : Bytes) × Frames (write m buf) payload × Fits payload × Reads payload m
unfolding server_client_protocol_read write_connection_successful write_connection_refused
    write_room_creation_refused write_join_room_refused write_invalid_play write_player_joined_room
    write_spectator_joined_room
client_read-server_write connection_successful buf room ok = (
  0 ∷ [],
  write_bare-Frames 0 buf (omega arith),
  (omega arith, omega arith),
  λ R handlers skip rest. refl,
)
client_read-server_write (connection_refused text) buf room ok = (
  1 ∷ terminated text,
  write_text-Frames 1 buf text (omega arith) (omega arith),
  text-Fits 1 text (omega arith),
  λ R handlers skip rest. rw (c_string-front text rest ok.0),
)
client_read-server_write (room_creation_successful room_id) buf room ok = (
  2 ∷ u32_bytes room_id,
  room_creation_successful-Frames buf room room_id,
  (omega arith, omega arith),
  λ R handlers skip rest. rw (load32-u32_bytes room_id rest ok),
)
client_read-server_write (room_creation_refused text) buf room ok = (
  3 ∷ terminated text,
  write_text-Frames 3 buf text (omega arith) (omega arith),
  text-Fits 3 text (omega arith),
  λ R handlers skip rest. rw (c_string-front text rest ok.0),
)
client_read-server_write (join_room_successful users bios spectators) buf room ok =
    let users_count : length users % 256 ≡ length users = omega (arith, ok.4) in
    let spectators_count : length spectators % 256 ≡ length spectators = omega (arith, ok.5) in
    (
      4 ∷ length users ∷ length spectators ∷ encode (users ++ spectators) bios,
      rw (users_count, spectators_count)
          (join_room_successful-Frames buf users bios spectators room ok.3 ok.6),
      (omega arith, omega (arith, ok.6)),
      λ R handlers skip rest. rw (
        read_users-encode users bios spectators 0 rest ok.3 (omega arith) ok.0 ok.1,
        read_spectators-encode spectators rest ok.2,
      ),
    )
client_read-server_write (join_room_refused text) buf room ok = (
  5 ∷ terminated text,
  write_text-Frames 5 buf text (omega arith) (omega arith),
  text-Fits 5 text (omega arith),
  λ R handlers skip rest. rw (c_string-front text rest ok.0),
)
client_read-server_write (played side game) buf room ok = (
  6
      ∷ (game.players side).captured
      ∷ (game.players (1 - side)).captured
      ∷ seen_board board_size 0 side game.board,
  played-Frames buf side game room ok.0,
  played-Fits side game,
  λ R handlers skip rest. rw (seen_board-seen_from side game.board ok.0 ok.1),
)
client_read-server_write (game_start side) buf room ok = (
  7 ∷ side ∷ [],
  game_start-Frames buf room side,
  (omega arith, omega arith),
  λ R handlers skip rest. refl,
)
client_read-server_write (player_joined_room text) buf room ok = (
  8 ∷ terminated text,
  write_text-Frames 8 buf text (omega arith) (omega arith),
  text-Fits 8 text (omega arith),
  λ R handlers skip rest. rw (c_string-front text rest ok.0),
)
client_read-server_write (spectator_joined_room text) buf room ok = (
  9 ∷ terminated text,
  write_text-Frames 9 buf text (omega arith) (omega arith),
  text-Fits 9 text (omega arith),
  λ R handlers skip rest. rw (c_string-front text rest ok.0),
)
client_read-server_write (game_stopped draw winner) buf room ok = (
  10 ∷ draw ∷ (if draw == 0 then terminated winner else []),
  game_stopped-Frames buf draw winner room ok,
  winner_part-Fits draw winner (draw == 0) ok,
  λ R handlers skip rest.
      ap (λ t. some (handlers.on_game_stopped draw t)) (winner_part (draw == 0) winner rest),
)
client_read-server_write (message username text) buf room ok = (
  11 ∷ terminated username ++ terminated text,
  message-Frames buf room username text ok.2,
  (
    omega arith,
    omega (
      arith,
      length-append (terminated username) (terminated text),
      length-terminated username,
      length-terminated text,
      ok.2,
    ),
  ),
  λ R handlers skip rest. rw (
    append_assoc (terminated username) (terminated text) rest,
    c_string-front username (terminated text ++ rest) ok.0,
    drop-front username (terminated text ++ rest),
    c_string-front text rest ok.1,
  ),
)
client_read-server_write (invalid_play text) buf room ok = (
  12 ∷ terminated text,
  write_text-Frames 12 buf text (omega arith) (omega arith),
  text-Fits 12 text (omega arith),
  λ R handlers skip rest. rw (c_string-front text rest ok.0),
)
