-- ===== src/Server/Overflow.antt =====
-- The buffer of `handle_send_message` of server/src/protocol.c against a name and a text.
use awale_online.Prelude.{
  ◌%◌, ◌^◌, Option, Ensures, Ensures-then, ◌+◌, ◌<◌, ◌≡◌, refl, none, some, length, arith,
}
use awale_online.Protocol.{server_byte, message}
use awale_online.Wire.Lengths.{stored, store-short, write_header-length}
use awale_online.Wire.{write_header, Bytes, buf_size, terminated}
use awale_online.Wire.Laws.{length-terminated}
use awale_online.Server.State.{Server, current}
use awale_online.Server.Writers.{write_send_message_to_room}
use awale_online.Server.Moves.{handle_send_message}

Ensures-none : {A : Type 0} (m : Option A) → Ensures (λ a. ⊥) m → m ≡ none
Ensures-none none h = refl
Ensures-none (some a) h = absurd h

message-short :
    (buf name text : Bytes)
    → length buf ≡ buf_size
    → buf_size < length name + length text + 5
    → write_send_message_to_room buf name text ≡ none
unfolding write_send_message_to_room
message-short buf name text room long =
    let size = (length text + length name + 3) % 2 ^ 16 in
    Ensures-none (write_send_message_to_room buf name text) (
      Ensures-then (λ r. ⊥) (λ b. length b ≡ buf_size) (write_header buf size (server_byte message))
        _ (write_header-length buf_size buf size (server_byte message) room)
        λ headed e.
          stored (λ r. ⊥) buf_size headed 3 (terminated name) _ e
            λ named e1.
              rw
                (store-short named (3 + length name + 1) (terminated text)
                  (omega (arith, e1, long, length-terminated text)))
                tt)

-- A message that does not fit with its sender's name is written behind the end of the server's buffer.
pub chat_overflows :
    (s : Server) (scratch text : Bytes)
    → length scratch ≡ buf_size
    → buf_size < length (current s).name + length text + 5
    → handle_send_message scratch s text ≡ none
unfolding handle_send_message
chat_overflows s scratch text room long =
    rw (message-short scratch (current s).name text room long) refl
