-- ===== src/System/Requests.antt =====
-- A line that the user of a client types, to the handler on the server that it is for
-- (client/src/state.c, server/src/server.c, server/src/protocol.c).
use awale_online.Prelude.{
  ℕ, suc, ◌%◌, ◌^◌, ◌<◌, ◌≡◌, refl, ap, ◌∙◌, some, [], ◌∷◌, ◌++◌, length, take, drop, arith, ◌>>=◌,
}
use awale_online.Wire.{Bytes, buf_size, u16_bytes, u32_bytes}
use awale_online.Wire.Laws.{load32-u32_bytes}
use awale_online.Text.{decimal, hex}
use awale_online.Server.State.{Server}
use awale_online.Server.Reader.{client_server_protocol_read}
use awale_online.Server.Handlers.{handle_join_room}
use awale_online.Server.Moves.{handle_play}
use awale_online.Server.Loop.{handlers_init, talks, step}
use awale_online.Server.Delivery.{rest, step-payload}
use awale_online.Client.State.{
  waiting_play_input, waiting_play_ack, waiting_join_room_input, waiting_join_room_response, sent,
}
use awale_online.Client.Input.{goes, handle_user_input}
use awale_online.Client.Typed.{typed_play, typed_room}

-- A move goes from the keyboard to the game: the user types the number of a house, from 1 on, where a
-- move is awaited. The client sends one message and waits for the answer; the server's loop, when it
-- gets the size and the payload of this message, runs `handle_play` at that house, from 0 on, for the
-- client that sent it.
pub typed_move :
    (inner buf : Bytes) (house : ℕ) (s : Server) (i : ℕ) (buffer scratch : Bytes) (rand : ℕ)
    → length buf ≡ buf_size
    → house < 256
    → i < s.nb_clients
    → length buffer ≡ buf_size
    → (frame : Bytes) × (handle_user_input inner buf waiting_play_input (decimal (suc house))
        ≡ some (goes waiting_play_ack (sent frame ∷ [])))
      × (step s buffer (talks i (some (take 2 frame)) (some (drop 2 frame)) scratch rand) ≡ (
          handle_play scratch (record s { current_client = i }) house >>= λ (s', sends).
          some (s', 3 ∷ house ∷ 0 ∷ rest buffer (3 ∷ house ∷ []), sends)))
unfolding client_server_protocol_read handlers_init
typed_move inner buf house s i buffer scratch rand room byte inside room' =
    let whole : house % 256 ≡ house = omega arith in
    (
      u16_bytes 2 ++ 3 ∷ house ∷ [],
      typed_play inner buf house room (omega arith)
          ∙ ap (λ p. some (goes waiting_play_ack (sent (u16_bytes 2 ++ 3 ∷ p ∷ []) ∷ []))) whole,
      step-payload s i buffer (3 ∷ house ∷ []) scratch rand (λ t. handle_play scratch t house)
          inside room' (omega arith) (omega arith) (λ end. refl),
    )

-- The id of a room goes from the terminal of one user to the search on the server: typed in the form in
-- which the client of its creator prints it, it is the id at which the server's loop runs
-- `handle_join_room` for the client that sent it, as a player.
pub typed_join :
    (inner buf : Bytes) (room_id : ℕ) (s : Server) (i : ℕ) (buffer scratch : Bytes) (rand : ℕ)
    → length buf ≡ buf_size
    → room_id < 2 ^ 32
    → i < s.nb_clients
    → length buffer ≡ buf_size
    → (frame : Bytes) × (handle_user_input inner buf waiting_join_room_input (hex room_id)
        ≡ some (goes waiting_join_room_response (sent frame ∷ [])))
      × (step s buffer (talks i (some (take 2 frame)) (some (drop 2 frame)) scratch rand) ≡ (
          handle_join_room scratch (record s { current_client = i }) room_id 0 >>= λ (s', sends).
          some (
            s',
            2 ∷ u32_bytes room_id ++ 0 ∷ 0 ∷ rest buffer (2 ∷ u32_bytes room_id ++ 0 ∷ []),
            sends,
          )))
unfolding client_server_protocol_read handlers_init
typed_join inner buf room_id s i buffer scratch rand room fits inside room' = (
  u16_bytes 6 ++ 2 ∷ u32_bytes room_id ++ 0 ∷ [],
  typed_room inner buf room_id room fits,
  step-payload s i buffer (2 ∷ u32_bytes room_id ++ 0 ∷ []) scratch rand
      (λ t. handle_join_room scratch t room_id 0) inside room' (omega arith) (omega arith)
      (λ end. rw (load32-u32_bytes room_id (0 ∷ end) fits) refl),
)
