-- ===== src/Client/Writers.antt =====
-- The messages that the client writes (client/src/protocol.c), as the server's writers.
use awale_online.Prelude.{ℕ, ◌+◌, Option, some, [], ◌∷◌, ◌>>=◌}
use awale_online.Wire.{Bytes, store, u32_bytes, write_header, write_bare, write_text}
use awale_online.Protocol.{
  client_byte, connect, create_room, join_room, play, leave_room, send_message, set_biography,
}

unfoldable pub write_connect : Bytes → Bytes → Option (ℕ × Bytes)
write_connect = write_text (client_byte connect)

unfoldable pub write_create_room : Bytes → Option (ℕ × Bytes)
write_create_room = write_bare (client_byte create_room)

unfoldable pub write_join_room : Bytes → ℕ → ℕ → Option (ℕ × Bytes)
write_join_room buf room_id spectate = do
  let size : ℕ = 6
  headed ← write_header buf size (client_byte join_room)
  numbered ← store headed 3 (u32_bytes room_id)
  written ← store numbered 7 (spectate ∷ [])
  some (size + 2, written)

unfoldable pub write_leave_room : Bytes → Option (ℕ × Bytes)
write_leave_room = write_bare (client_byte leave_room)

unfoldable pub write_play : Bytes → ℕ → Option (ℕ × Bytes)
write_play buf position = do
  let size : ℕ = 2
  headed ← write_header buf size (client_byte play)
  written ← store headed 3 (position ∷ [])
  some (size + 2, written)

unfoldable pub write_send_message : Bytes → Bytes → Option (ℕ × Bytes)
write_send_message = write_text (client_byte send_message)

unfoldable pub write_set_biography : Bytes → Bytes → Option (ℕ × Bytes)
write_set_biography = write_text (client_byte set_biography)
