-- ===== src/Client/Typed.antt =====
-- What the user types, as the server gets it (client/src/state.c against the server's loop).
use awale_online.Prelude.{
  ℕ, suc, ◌+◌, ◌-◌, ◌%◌, ◌^◌, ◌<◌, ◌≡◌, refl, Option, some, [], ◌∷◌, ◌++◌, length, arith, ◌>>=◌,
}
use awale_online.Wire.{Bytes, buf_size, u16_bytes, u32_bytes}
use awale_online.Wire.Laws.{Frames}
use awale_online.Text.{worth, decimal, hex}
use awale_online.Text.RoundTrip.{strtol-decimal, strtol-hex, decimal-cons, hex-cons}
use awale_online.Protocol.ToServer.{write_play-Frames, write_join_room-Frames}
use awale_online.Server.State.{same_string}
use awale_online.Client.Writers.{write_play, write_join_room}
use awale_online.Client.State.{
  State, waiting_play_input, waiting_play_ack, waiting_join_room_input, waiting_join_room_response,
  sent, write_server, set_current_state, enter,
}
use awale_online.Client.Input.{goes, handle_user_input, input_in, play_input, send_then}

-- A line that starts with a digit is neither the end of the input nor a command.
typed_digit :
    (inner buf input : Bytes) (state : State) (c : ℕ) (s : Bytes)
    → input ≡ c ∷ s
    → worth c < 16
    → handle_user_input inner buf state input
      ≡ (input_in state inner buf input >>= λ (state', outputs). some (goes state' outputs))
unfolding handle_user_input same_string
typed_digit inner buf input state c s e h = rw e (ground arith)

-- What is sent of a frame that is written.
pub write_server-Frames :
    (out : Option (ℕ × Bytes)) (payload : Bytes)
    → Frames out payload
    → (written : ℕ × Bytes) × (out ≡ some written)
      × (write_server written ≡ sent (u16_bytes (length payload) ++ payload))
unfolding write_server
write_server-Frames out payload (buf, told, framed) =
    let two : length payload + 2 ≡ suc (suc (length payload)) = omega arith in
    ((length payload + 2, buf), told, rw (two, framed) refl)

-- The number of a house that the user types where a move is awaited goes out as that house, counted
-- from 0, in one message, and the client waits for the answer. The number is positive and fits a
-- `long`; what a byte does not hold is cut off.
pub typed_play :
    (inner buf : Bytes) (n : ℕ)
    → length buf ≡ buf_size
    → n < 2 ^ 63 - 1
    → handle_user_input inner buf waiting_play_input (decimal (suc n))
      ≡ some (goes waiting_play_ack (sent (u16_bytes 2 ++ 3 ∷ n % 256 ∷ []) ∷ []))
unfolding input_in play_input send_then enter set_current_state
typed_play inner buf n room h =
    let (c, s, e, hc) = decimal-cons (suc n) in
    let (written, told, out) =
      write_server-Frames (write_play buf (n % 256)) (3 ∷ n % 256 ∷ [])
        (write_play-Frames buf (n % 256) room) in
    rw
      (
        typed_digit inner buf (decimal (suc n)) waiting_play_input c s e (omega arith),
        strtol-decimal (suc n) (omega arith),
        told,
        out,
      )
      refl

-- The id of a room in the form in which its creator is shown it, typed to join a room, goes out as
-- that id.
pub typed_room :
    (inner buf : Bytes) (room_id : ℕ)
    → length buf ≡ buf_size
    → room_id < 2 ^ 32
    → handle_user_input inner buf waiting_join_room_input (hex room_id)
      ≡ some (
          goes waiting_join_room_response
            (sent (u16_bytes 6 ++ 2 ∷ u32_bytes room_id ++ 0 ∷ []) ∷ []))
unfolding input_in send_then enter set_current_state
typed_room inner buf room_id room h =
    let (c, s, e, hc) = hex-cons room_id in
    let (written, told, out) =
      write_server-Frames (write_join_room buf room_id 0) (2 ∷ u32_bytes room_id ++ 0 ∷ [])
        (write_join_room-Frames buf room_id 0 room) in
    let whole : room_id % 2 ^ 32 ≡ room_id = omega arith in
    rw
      (
        typed_digit inner buf (hex room_id) waiting_join_room_input c s e hc,
        strtol-hex room_id (omega arith),
        whole,
        told,
        out,
      )
      refl
