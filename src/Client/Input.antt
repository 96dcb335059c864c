-- ===== src/Client/Input.antt =====
-- What a line that the user types does (`handle_user_input` of client/src/state.c).
use awale_online.Prelude.{
  ℕ, Bool, false, Option, some, List, [], ◌∷◌, ℤ, pred_ℤ, ◌==◌, if◌then◌else◌, ◌>>=◌,
}
use awale_online.Wire.{codes, Bytes}
use awale_online.Text.{strtol, low_bits}
use awale_online.Server.State.{same_string}
use awale_online.Client.State.{
  State, connecting, waiting_connection, connected, waiting_create_room_response,
  waiting_join_room_input, waiting_spectate_room_input, waiting_join_room_response,
  waiting_spectate_room_response, in_room, in_game, waiting_play_input, waiting_play_ack,
  spectating, waiting_bio_input, Output, Reaction, write_server, print_line, set_current_state,
  enter,
}
use awale_online.Client.Writers.{
  write_connect, write_join_room, write_play, write_leave_room, write_send_message,
  write_set_biography,
}

-- The process goes on, or ends.
pub data Result : Type 0 where
  goes : State → List Output → Result
  exits : List Output → Result

-- `write_server` of a message, then some output and a new state. `inner` is the buffer of
-- `action_create_room`.
unfoldable pub send_then : Bytes → Option (ℕ × Bytes) → List Output → State → Reaction
unfolding enter write_server
send_then inner message outputs new_state = do
  written ← message
  enter inner (write_server written ∷ outputs) new_state

-- The menu: the choice is a byte.
unfoldable pub choose : Bytes → ℕ → Reaction
unfolding set_current_state enter
choose inner choice =
    if choice == 1
    then set_current_state inner waiting_create_room_response
    else if choice == 2
    then set_current_state inner waiting_join_room_input
    else if choice == 3
    then set_current_state inner waiting_spectate_room_input
    else if choice == 4
    then set_current_state inner waiting_bio_input
    else enter inner (print_line "Invalid input, must be between 1 and 4\n") connected

-- A line that is no number, typed in a room. After a message the state is set again only where a move
-- is awaited: `stay` is this.
unfoldable pub talk : Bytes → Bytes → Bytes → (List Output → Reaction) → Reaction
unfolding send_then write_server
talk inner buf input stay =
    if same_string input (codes "/leave")
    then send_then inner (write_leave_room buf) (print_line "Room left !\n") connected
    else do
      written ← write_send_message buf input
      stay (write_server written ∷ print_line "Message Sent\n")

-- The line is a house if it ends with the number that `strtol` reads: `end` is what `endptr` shows.
unfoldable pub play_input : Bytes → Bytes → Bytes → ℤ → Bytes → Reaction
unfolding send_then talk enter
play_input inner buf input number [] =
    send_then inner (write_play buf (low_bits 8 (pred_ℤ number))) [] waiting_play_ack
play_input inner buf input number (c ∷ end) =
    talk inner buf input (λ outputs. enter inner outputs waiting_play_input)

-- The cases of the switch.
unfoldable pub input_in : State → Bytes → Bytes → Bytes → Reaction
unfolding send_then choose talk play_input
input_in connecting inner buf input =
    send_then inner (write_connect buf input) [] waiting_connection
input_in connected inner buf input = choose inner (low_bits 8 (strtol input 10).0)
input_in waiting_join_room_input inner buf input =
    send_then inner (write_join_room buf (low_bits 32 (strtol input 16).0) 0) []
      waiting_join_room_response
input_in waiting_spectate_room_input inner buf input =
    send_then inner (write_join_room buf (low_bits 32 (strtol input 16).0) 1) []
      waiting_spectate_room_response
input_in waiting_bio_input inner buf input =
    send_then inner (write_set_biography buf input) [] connected
input_in waiting_play_input inner buf input =
    play_input inner buf input (strtol input 10).0 (strtol input 10).1
input_in in_room inner buf input = talk inner buf input (λ outputs. some (in_room, outputs))
input_in spectating inner buf input = talk inner buf input (λ outputs. some (spectating, outputs))
input_in in_game inner buf input = talk inner buf input (λ outputs. some (in_game, outputs))
input_in state inner buf input = some (state, print_line "Input ignored\n")

-- `in[0] == EOF`: the byte 255 is -1 as a `char`.
abbrev pub starts_with_eof : Bytes → Bool
starts_with_eof [] = false
starts_with_eof (c ∷ s) = c == 255

unfoldable pub handle_user_input : Bytes → Bytes → State → Bytes → Option Result
unfolding input_in
handle_user_input inner buf state input =
    if starts_with_eof input
    then some (goes state [])
    else if same_string (codes "/close") input
    then some (exits (print_line "Goodbye !\n"))
    else do (state', outputs) ← input_in state inner buf input; some (goes state' outputs)
