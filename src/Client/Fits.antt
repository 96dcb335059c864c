-- ===== src/Client/Fits.antt =====
-- The 1024 bytes of `buf` in `handle_user_input` of client/src/state.c against the length of a line.
use awale_online.Prelude.{
  ℕ, ◌+◌, ◌≤◌, ◌≡◌, refl, Option, some, List, [], ◌∷◌, ◌++◌, ◌==◌, length, arith, ℤ, pred_ℤ,
  Succeeds, Succeeds-bind, Succeeds-if,
}
use awale_online.Wire.{Bytes, buf_size, codes, write_text}
use awale_online.Wire.Laws.{write_bare-Frames, write_text-Frames}
use awale_online.Text.{strtol, low_bits}
use awale_online.Protocol.ToServer.{write_play-Frames, write_join_room-Frames}
use awale_online.Server.State.{same_string}
use awale_online.Client.Writers.{
  write_connect, write_create_room, write_join_room, write_play, write_leave_room,
  write_send_message, write_set_biography,
}
use awale_online.Client.State.{
  State, connecting, waiting_connection, connected, waiting_create_room_response,
  waiting_join_room_input, waiting_spectate_room_input, waiting_join_room_response,
  waiting_spectate_room_response, in_room, in_game, waiting_play_input, waiting_play_ack,
  spectating, waiting_bio_input, Output, Reaction, write_server, print_line, action_create_room,
  set_current_state, enter,
}
use awale_online.Client.Input.{
  send_then, choose, talk, play_input, input_in, starts_with_eof, handle_user_input,
}
use awale_online.Client.Loop.{types, Next, app_step}
use awale_online.Client.Lines.{IsLine, app_step-typed}

module _ (inner : Bytes) (space : length inner ≡ buf_size) where
  set_current_state-Succeeds : (new_state : State) → Succeeds (set_current_state inner new_state)
  unfolding set_current_state action_create_room write_create_room
  set_current_state-Succeeds waiting_create_room_response =
      let (written, told, framed) = write_bare-Frames 1 inner (omega (arith, space)) in
      rw told (_, refl)
  set_current_state-Succeeds connecting = (_, refl)
  set_current_state-Succeeds waiting_connection = (_, refl)
  set_current_state-Succeeds connected = (_, refl)
  set_current_state-Succeeds waiting_join_room_input = (_, refl)
  set_current_state-Succeeds waiting_spectate_room_input = (_, refl)
  set_current_state-Succeeds waiting_join_room_response = (_, refl)
  set_current_state-Succeeds waiting_spectate_room_response = (_, refl)
  set_current_state-Succeeds in_room = (_, refl)
  set_current_state-Succeeds in_game = (_, refl)
  set_current_state-Succeeds waiting_play_input = (_, refl)
  set_current_state-Succeeds waiting_play_ack = (_, refl)
  set_current_state-Succeeds spectating = (_, refl)
  set_current_state-Succeeds waiting_bio_input = (_, refl)

  enter-Succeeds :
      (outputs : List Output) (new_state : State) → Succeeds (enter inner outputs new_state)
  unfolding enter
  enter-Succeeds outputs new_state =
      Succeeds-bind (set_current_state inner new_state) _ (set_current_state-Succeeds new_state)
        (λ r. (_, refl))

  send_then-Succeeds :
      (message : Option (ℕ × Bytes)) (outputs : List Output) (new_state : State)
      → Succeeds message
      → Succeeds (send_then inner message outputs new_state)
  unfolding send_then
  send_then-Succeeds message outputs new_state h =
      Succeeds-bind message _ h
        (λ written. enter-Succeeds (write_server written ∷ outputs) new_state)

  choose-Succeeds : (choice : ℕ) → Succeeds (choose inner choice)
  unfolding choose
  choose-Succeeds choice =
      Succeeds-if (choice == 1) _ _ (set_current_state-Succeeds waiting_create_room_response) (
        Succeeds-if (choice == 2) _ _ (set_current_state-Succeeds waiting_join_room_input) (
          Succeeds-if (choice == 3) _ _ (set_current_state-Succeeds waiting_spectate_room_input) (
            Succeeds-if (choice == 4) _ _ (set_current_state-Succeeds waiting_bio_input)
              (enter-Succeeds (print_line "Invalid input, must be between 1 and 4\n") connected))))

write_text-Succeeds :
    (kind : ℕ) (buf text : Bytes)
    → length buf ≡ buf_size
    → length text + 4 ≤ buf_size
    → Succeeds (write_text kind buf text)
write_text-Succeeds kind buf text room fits =
    let (written, told, framed) = write_text-Frames kind buf text (omega arith) (omega arith) in
    (_, told)

module _ (inner buf : Bytes) (space : length inner ≡ buf_size) (room : length buf ≡ buf_size) where
  talk-Succeeds :
      (input : Bytes) (stay : List Output → Reaction)
      → length input + 4 ≤ buf_size
      → ((outputs : List Output) → Succeeds (stay outputs))
      → Succeeds (talk inner buf input stay)
  unfolding talk write_leave_room write_send_message
  talk-Succeeds input stay fits h =
      let (written, told, framed) = write_bare-Frames 4 buf (omega arith) in
      Succeeds-if (same_string input (codes "/leave"))
        (send_then inner (write_leave_room buf) (print_line "Room left !\n") connected) _
        (send_then-Succeeds inner space (write_leave_room buf) (print_line "Room left !\n")
          connected (_, told))
        (Succeeds-bind (write_send_message buf input) _ (write_text-Succeeds 5 buf input room fits)
          (λ message. h (write_server message ∷ print_line "Message Sent\n")))

  join-Succeeds : (room_id spectate : ℕ) → Succeeds (write_join_room buf room_id spectate)
  join-Succeeds room_id spectate =
      let (written, told, framed) = write_join_room-Frames buf room_id spectate room in (_, told)

  play_input-Succeeds :
      (input : Bytes) (number : ℤ) (end : Bytes)
      → length input + 4 ≤ buf_size
      → Succeeds (play_input inner buf input number end)
  unfolding play_input
  play_input-Succeeds input number [] fits =
      let (written, told, framed) = write_play-Frames buf (low_bits 8 (pred_ℤ number)) room in
      send_then-Succeeds inner space (write_play buf (low_bits 8 (pred_ℤ number))) []
        waiting_play_ack (_, told)
  play_input-Succeeds input number (c ∷ end) fits =
      talk-Succeeds input (λ outputs. enter inner outputs waiting_play_input) fits
        (λ outputs. enter-Succeeds inner space outputs waiting_play_input)

  input_in-Succeeds :
      (state : State) (input : Bytes)
      → length input + 4 ≤ buf_size
      → Succeeds (input_in state inner buf input)
  unfolding input_in write_connect write_set_biography
  input_in-Succeeds connecting input fits =
      send_then-Succeeds inner space (write_connect buf input) [] waiting_connection
        (write_text-Succeeds 0 buf input room fits)
  input_in-Succeeds connected input fits =
      choose-Succeeds inner space (low_bits 8 (strtol input 10).0)
  input_in-Succeeds waiting_join_room_input input fits =
      send_then-Succeeds inner space _ [] waiting_join_room_response
        (join-Succeeds (low_bits 32 (strtol input 16).0) 0)
  input_in-Succeeds waiting_spectate_room_input input fits =
      send_then-Succeeds inner space _ [] waiting_spectate_room_response
        (join-Succeeds (low_bits 32 (strtol input 16).0) 1)
  input_in-Succeeds waiting_bio_input input fits =
      send_then-Succeeds inner space (write_set_biography buf input) [] connected
        (write_text-Succeeds 6 buf input room fits)
  input_in-Succeeds waiting_play_input input fits =
      play_input-Succeeds input (strtol input 10).0 (strtol input 10).1 fits
  input_in-Succeeds in_room input fits =
      talk-Succeeds input (λ outputs. some (in_room, outputs)) fits (λ outputs. (_, refl))
  input_in-Succeeds spectating input fits =
      talk-Succeeds input (λ outputs. some (spectating, outputs)) fits (λ outputs. (_, refl))
  input_in-Succeeds in_game input fits =
      talk-Succeeds input (λ outputs. some (in_game, outputs)) fits (λ outputs. (_, refl))
  input_in-Succeeds waiting_connection input fits = (_, refl)
  input_in-Succeeds waiting_create_room_response input fits = (_, refl)
  input_in-Succeeds waiting_join_room_response input fits = (_, refl)
  input_in-Succeeds waiting_spectate_room_response input fits = (_, refl)
  input_in-Succeeds waiting_play_ack input fits = (_, refl)

  handle_user_input-Succeeds :
      (state : State) (input : Bytes)
      → length input + 4 ≤ buf_size
      → Succeeds (handle_user_input inner buf state input)
  unfolding handle_user_input
  handle_user_input-Succeeds state input fits =
      Succeeds-if (starts_with_eof input) _ _ (_, refl)
        (Succeeds-if (same_string (codes "/close") input) _ _ (_, refl)
          (Succeeds-bind (input_in state inner buf input) _ (input_in-Succeeds state input fits)
            (λ r. (_, refl))))

-- A line of 1020 bytes at most never makes the client write outside a buffer: in every state, the
-- round that reads it, sends what it means and goes on or ends.
pub line_fits :
    (inner buf : Bytes) (state : State) (buffer line more : Bytes)
    → length inner ≡ buf_size
    → length buf ≡ buf_size
    → length buffer ≡ buf_size
    → IsLine line
    → length line + 4 ≤ buf_size
    → (next : Next) × (app_step inner buf state buffer (types (some (line ++ b'\n' ∷ more)))
        ≡ some next)
line_fits inner buf state buffer line more space room room' h fits =
    rw (app_step-typed inner buf state buffer line more room' h (omega arith)) (
      Succeeds-bind (handle_user_input inner buf state line) _
        (handle_user_input-Succeeds inner buf space room state line fits) (λ result. (_, refl)))
