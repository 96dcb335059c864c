-- ===== src/Protocol/ToServer.antt =====
-- What the client writes and what the server reads of it: client/src/protocol.c against
-- `client_server_protocol_read` of server/src/protocol.c.
use awale_online.Prelude.{
  ℕ, ◌+◌, ◌^◌, ◌≤◌, ◌<◌, ◌≡◌, refl, Option, some, [], ◌∷◌, ◌++◌, length, drop, length-drop, arith,
}
use awale_online.Wire.{Bytes, buf_size, store, u16_bytes, u32_bytes, terminated, IsString}
use awale_online.Wire.Laws.{
  Frames, write_header_lem, write_bare-Frames, write_text-Frames, c_string-front, length-terminated,
  load32-u32_bytes, store_front_lem,
}
use awale_online.Client.Writers.{
  write_connect, write_create_room, write_join_room, write_leave_room, write_play,
  write_send_message, write_set_biography,
}
use awale_online.Server.Reader.{Handlers, client_server_protocol_read}

-- The messages of protocole.txt from the client to the server.
pub data ClientMessage : Type 0 where
  connect : Bytes → ClientMessage
  create_room : ClientMessage
  join_room : ℕ → ℕ → ClientMessage
  play : ℕ → ClientMessage
  leave_room : ClientMessage
  send_message : Bytes → ClientMessage
  set_biography : Bytes → ClientMessage

-- The client's writer for each message.
abbrev pub write : ClientMessage → Bytes → Option (ℕ × Bytes)
write (connect name) buf = write_connect buf name
write create_room buf = write_create_room buf
write (join_room room_id spectate) buf = write_join_room buf room_id spectate
write (play position) buf = write_play buf position
write leave_room buf = write_leave_room buf
write (send_message text) buf = write_send_message buf text
write (set_biography text) buf = write_set_biography buf text

-- The handler that the message is for, at its arguments.
abbrev pub call {ℓ} : {R : Type ℓ} → ClientMessage → Handlers R → R
call (connect name) h = h.on_connect name
call create_room h = h.on_create_room
call (join_room room_id spectate) h = h.on_join_room room_id spectate
call (play position) h = h.on_play position
call leave_room h = h.on_leave_room
call (send_message text) h = h.on_send_message text
call (set_biography text) h = h.on_set_biography text

-- A C string that fits the buffer behind the header.
abbrev pub IsText : Bytes → Type 0
IsText text = IsString text × (length text + 4 ≤ buf_size)

abbrev pub IsSendable : ClientMessage → Type 0
IsSendable (connect name) = IsText name
IsSendable (join_room room_id spectate) = room_id < 2 ^ 32
IsSendable (send_message text) = IsText text
IsSendable (set_biography text) = IsText text
IsSendable create_room = Unit {0}
IsSendable (play position) = Unit {0}
IsSendable leave_room = Unit {0}

pub write_play-Frames :
    (buf : Bytes) (position : ℕ)
    → length buf ≡ buf_size
    → Frames (write_play buf position) (3 ∷ position ∷ [])
unfolding write_play store
write_play-Frames buf position room = (
  u16_bytes 2 ++ 3 ∷ position ∷ drop 1 (drop 3 buf),
  rw (
    write_header_lem buf 2 3 (omega arith),
    store_front_lem (drop 3 buf) (position ∷ []) (omega (arith, length-drop 3 buf)),
  ),
  refl,
)

pub write_join_room-Frames :
    (buf : Bytes) (room_id spectate : ℕ)
    → length buf ≡ buf_size
    → Frames (write_join_room buf room_id spectate) (2 ∷ u32_bytes room_id ++ spectate ∷ [])
unfolding write_join_room store
write_join_room-Frames buf room_id spectate room = (
  u16_bytes 6 ++ 2 ∷ u32_bytes room_id ++ spectate ∷ drop 1 (drop 4 (drop 3 buf)),
  rw (
    write_header_lem buf 6 2 (omega arith),
    store_front_lem (drop 3 buf) (u32_bytes room_id) (omega (arith, length-drop 3 buf)),
    store_front_lem (drop 4 (drop 3 buf)) (spectate ∷ [])
        (omega (arith, length-drop 3 buf, length-drop 4 (drop 3 buf))),
  ),
  refl,
)

-- What the client writes for a message, the server reads as that message: the writer stays inside its
-- buffer of `BUF_SIZE` bytes and frames a payload by its size, the payload is not empty and fits such
-- a buffer with its size, and the reader, given that payload with
-- anything behind it, calls the message's handler with the same arguments.
pub server_read-client_write :
    (m : ClientMessage) (buf : Bytes)
    → length buf ≡ buf_size
    → IsSendable m
    → (payload : Bytes) × Frames (write m buf) payload
      × (0 < length payload)
      × (length payload + 2 ≤ buf_size)
      × ((R : Type 0) (handlers : Handlers R) (skip : R) (rest : Bytes)
          → client_server_protocol_read (payload ++ rest) handlers skip ≡ some (call m handlers))
unfolding client_server_protocol_read write_connect write_create_room write_leave_room
    write_send_message write_set_biography
server_read-client_write (connect name) buf room ok = (
  0 ∷ terminated name,
  write_text-Frames 0 buf name (omega arith) (omega arith),
  omega arith,
  omega (arith, length-terminated name),
  λ R handlers skip rest. rw (c_string-front name rest ok.0),
)
server_read-client_write create_room buf room ok = (
  1 ∷ [],
  write_bare-Frames 1 buf (omega arith),
  omega arith,
  omega arith,
  λ R handlers skip rest. refl,
)
server_read-client_write (join_room room_id spectate) buf room ok = (
  2 ∷ u32_bytes room_id ++ spectate ∷ [],
  write_join_room-Frames buf room_id spectate room,
  omega arith,
  omega arith,
  λ R handlers skip rest. rw (load32-u32_bytes room_id (spectate ∷ rest) ok),
)
server_read-client_write (play position) buf room ok = (
  3 ∷ position ∷ [],
  write_play-Frames buf position room,
  omega arith,
  omega arith,
  λ R handlers skip rest. refl,
)
server_read-client_write leave_room buf room ok = (
  4 ∷ [],
  write_bare-Frames 4 buf (omega arith),
  omega arith,
  omega arith,
  λ R handlers skip rest. refl,
)
server_read-client_write (send_message text) buf room ok = (
  5 ∷ terminated text,
  write_text-Frames 5 buf text (omega arith) (omega arith),
  omega arith,
  omega (arith, length-terminated text),
  λ R handlers skip rest. rw (c_string-front text rest ok.0),
)
server_read-client_write (set_biography text) buf room ok = (
  6 ∷ terminated text,
  write_text-Frames 6 buf text (omega arith) (omega arith),
  omega arith,
  omega (arith, length-terminated text),
  λ R handlers skip rest. rw (c_string-front text rest ok.0),
)
