-- ===== src/Client/Moves.antt =====
-- A move is sent only when the server has asked for one: a line of the user (`handle_user_input` of
-- client/src/state.c), and the rounds of the loop of client/src/app.c.
use awale_online.Prelude.{
  ℕ, ◌+◌, ◌≤◌, ◌≡◌, refl, ap, Option, none, some, List, [], ◌∷◌, ◌==◌, ◌||◌, arith, Ensures,
  Ensures-bind, Ensures-then, Ensures-map, Ensures-if, pred_ℤ,
}
use awale_online.Wire.{Bytes, codes, c_string, load16}
use awale_online.Text.{strtol, low_bits}
use awale_online.Server.State.{same_string}
use awale_online.Client.Writers.{
  write_connect, write_play, write_leave_room, write_send_message, write_set_biography,
}
use awale_online.Client.State.{
  State, connecting, waiting_connection, connected, waiting_create_room_response,
  waiting_join_room_input, waiting_spectate_room_input, waiting_join_room_response,
  waiting_spectate_room_response, in_room, in_game, waiting_play_input, waiting_play_ack,
  spectating, waiting_bio_input, Output, Reaction, write_server, print_line, set_current_state,
  enter,
}
use awale_online.Client.Input.{
  Result, goes, exits, send_then, choose, talk, play_input, input_in, starts_with_eof,
  handle_user_input,
}
use awale_online.Client.Handlers.{client_handlers, ignore}
use awale_online.Client.Reader.{server_client_protocol_read}
use awale_online.Client.Loop.{
  fgets, end_line, read_server, types, receives, Next, runs, stops, on_line, on_message, app_step,
}
use awale_online.Client.Asked.{
  is_play, plays, armed, NoPlay, Fair, Sets, set_current_state-Sets, enter-Fair, write_bare-NoPlay,
  write_text-NoPlay, write_join_room-NoPlay,
}
use awale_online.Client.Answers.{asks_payload, message-Fair_lem}

module _ (inner : Bytes) (state : State) where
  send_then-Fair :
      (message : Option (ℕ × Bytes)) (outputs : List Output) (new_state : State)
      → Ensures NoPlay message
      → plays outputs + armed new_state ≤ armed state
      → Ensures (Fair state 0) (send_then inner message outputs new_state)
  unfolding send_then
  send_then-Fair message outputs new_state quiet h =
      Ensures-then (Fair state 0) NoPlay message _ quiet λ written e.
        enter-Fair inner (write_server written ∷ outputs) new_state state 0 (omega (arith, e, h))

  set-Fair :
      (new_state : State)
      → armed new_state ≡ 0
      → Ensures (Fair state 0) (set_current_state inner new_state)
  set-Fair new_state e =
      Ensures-map (Sets new_state) (Fair state 0) (set_current_state inner new_state)
        (set_current_state-Sets inner new_state)
        λ r (same, quiet). omega (arith, ap armed same, quiet, e)

  choose-Fair : (choice : ℕ) → Ensures (Fair state 0) (choose inner choice)
  unfolding choose
  choose-Fair choice =
      Ensures-if (Fair state 0) (choice == 1) _ _ (λ _. set-Fair waiting_create_room_response refl)
        λ _.
          Ensures-if (Fair state 0) (choice == 2) _ _ (λ _. set-Fair waiting_join_room_input refl)
            λ _.
              Ensures-if (Fair state 0) (choice == 3) _ _
                (λ _. set-Fair waiting_spectate_room_input refl)
                λ _.
                  Ensures-if (Fair state 0) (choice == 4) _ _ (λ _. set-Fair waiting_bio_input refl)
                    λ _.
                      enter-Fair inner (print_line "Invalid input, must be between 1 and 4\n")
                        connected state 0 (omega arith)

  talk-Fair :
      (buf input : Bytes) (stay : List Output → Reaction)
      → ((outputs : List Output) → plays outputs ≡ 0 → Ensures (Fair state 0) (stay outputs))
      → Ensures (Fair state 0) (talk inner buf input stay)
  unfolding talk write_leave_room write_send_message
  talk-Fair buf input stay h =
      Ensures-if (Fair state 0) (same_string input (codes "/leave"))
        (send_then inner (write_leave_room buf) (print_line "Room left !\n") connected) _
        (λ _.
          send_then-Fair (write_leave_room buf) (print_line "Room left !\n") connected
            (write_bare-NoPlay 4 buf (λ e. omega (arith, e))) (omega arith))
        (λ _.
          Ensures-then (Fair state 0) NoPlay (write_send_message buf input) _
            (write_text-NoPlay 5 buf input (λ e. omega (arith, e)))
            (λ written e.
              h (write_server written ∷ print_line "Message Sent\n") (omega (arith, e))))

  stay-Fair :
      (outputs : List Output) → plays outputs ≡ 0 → Ensures (Fair state 0) (some (state, outputs))
  stay-Fair outputs e = omega (arith, e)

is_play_le : (output : Output) → is_play output ≤ 1
is_play_le output = ground arith

input_in-Fair :
    (state : State) (inner buf input : Bytes)
    → Ensures (Fair state 0) (input_in state inner buf input)
unfolding input_in play_input send_then write_connect write_set_biography
input_in-Fair connecting inner buf input =
    send_then-Fair inner connecting (write_connect buf input) [] waiting_connection
      (write_text-NoPlay 0 buf input (λ e. omega (arith, e))) (omega arith)
input_in-Fair connected inner buf input =
    choose-Fair inner connected (low_bits 8 (strtol input 10).0)
input_in-Fair waiting_join_room_input inner buf input =
    send_then-Fair inner waiting_join_room_input _ [] waiting_join_room_response
      (write_join_room-NoPlay buf (low_bits 32 (strtol input 16).0) 0) (omega arith)
input_in-Fair waiting_spectate_room_input inner buf input =
    send_then-Fair inner waiting_spectate_room_input _ [] waiting_spectate_room_response
      (write_join_room-NoPlay buf (low_bits 32 (strtol input 16).0) 1) (omega arith)
input_in-Fair waiting_bio_input inner buf input =
    send_then-Fair inner waiting_bio_input (write_set_biography buf input) [] connected
      (write_text-NoPlay 6 buf input (λ e. omega (arith, e))) (omega arith)
input_in-Fair waiting_play_input inner buf input = by_end (strtol input 10).1
  where
    by_end :
        (end : Bytes)
        → Ensures (Fair waiting_play_input 0) (play_input inner buf input (strtol input 10).0 end)
    by_end [] =
        Ensures-bind (Fair waiting_play_input 0)
          (write_play buf (low_bits 8 (pred_ℤ (strtol input 10).0))) _
          λ written.
            enter-Fair inner (write_server written ∷ []) waiting_play_ack waiting_play_input 0
              (omega (arith, is_play_le (write_server written)))
    by_end (c ∷ end) =
        talk-Fair inner waiting_play_input buf input
          (λ outputs. enter inner outputs waiting_play_input)
          (λ outputs e.
            enter-Fair inner outputs waiting_play_input waiting_play_input 0 (omega (arith, e)))
input_in-Fair in_room inner buf input =
    talk-Fair inner in_room buf input (λ outputs. some (in_room, outputs)) (stay-Fair inner in_room)
input_in-Fair spectating inner buf input =
    talk-Fair inner spectating buf input (λ outputs. some (spectating, outputs))
      (stay-Fair inner spectating)
input_in-Fair in_game inner buf input =
    talk-Fair inner in_game buf input (λ outputs. some (in_game, outputs)) (stay-Fair inner in_game)
input_in-Fair waiting_connection inner buf input = omega arith
input_in-Fair waiting_create_room_response inner buf input = omega arith
input_in-Fair waiting_join_room_response inner buf input = omega arith
input_in-Fair waiting_spectate_room_response inner buf input = omega arith
input_in-Fair waiting_play_ack inner buf input = omega arith

-- What a line owes, and what a payload owes.
abbrev pub FairLine : State → Next → Type 0
FairLine state (runs state' buffer outputs) = Fair state 0 (state', outputs)
FairLine state (stops outputs) = plays outputs ≡ 0

abbrev FairResult : State → Result → Type 0
FairResult state (goes state' outputs) = Fair state 0 (state', outputs)
FairResult state (exits outputs) = plays outputs ≡ 0

handle_user_input-Fair :
    (inner buf : Bytes) (state : State) (input : Bytes)
    → Ensures (FairResult state) (handle_user_input inner buf state input)
unfolding handle_user_input
handle_user_input-Fair inner buf state input =
    Ensures-if (FairResult state) (starts_with_eof input) _ _ (λ _. omega arith)
      λ _.
        Ensures-if (FairResult state) (same_string (codes "/close") input) _ _ (λ _. refl)
          λ _.
            Ensures-then (FairResult state) (Fair state 0) (input_in state inner buf input) _
              (input_in-Fair state inner buf input) (λ r h. h)

pub line-Fair :
    (inner buf : Bytes) (state : State) (buffer : Bytes) (stream : Option Bytes)
    → Ensures (FairLine state) (app_step inner buf state buffer (types stream))
unfolding app_step on_line
line-Fair inner buf state buffer stream =
    Ensures-bind (FairLine state) (fgets buffer stream) _ λ got.
      Ensures-bind (FairLine state) (end_line got) _ λ ended.
        Ensures-bind (FairLine state) (c_string ended) _ λ input.
          Ensures-then (FairLine state) (FairResult state) (handle_user_input inner buf state input)
            _ (handle_user_input-Fair inner buf state input)
            (elim [ goes state' outputs ↦ λ h. h | exits outputs ↦ λ h. h ])

abbrev pub FairMessage : State → Next → Type 0
FairMessage state (runs state' buffer outputs) = Fair state (asks_payload buffer) (state', outputs)
FairMessage state (stops outputs) = plays outputs ≡ 0

on_message-Fair :
    (inner : Bytes) (state : State) (buffer header body : Bytes)
    → Ensures (FairMessage state) (on_message inner state buffer header body)
unfolding on_message
on_message-Fair inner state buffer header body =
    Ensures-bind (FairMessage state) (read_server buffer 2 header) _ λ (n, sized).
      Ensures-bind (FairMessage state) (load16 sized) _ λ to_read.
        Ensures-bind (FairMessage state) (read_server sized to_read body) _ λ (m, filled).
          Ensures-if (FairMessage state) (n == 0 || m == 0) _ _ (λ _. refl)
            λ _.
              Ensures-then (FairMessage state)
                (λ handler. Ensures (Fair state (asks_payload filled)) (handler state))
                (server_client_protocol_read filled (client_handlers inner) ignore) _
                (message-Fair_lem inner state filled)
                (λ handler h.
                  Ensures-then (FairMessage state) (Fair state (asks_payload filled))
                    (handler state) _ h (λ r fair. fair))

pub message-Fair :
    (inner buf : Bytes) (state : State) (buffer : Bytes) (header body : Option Bytes)
    → Ensures (FairMessage state) (app_step inner buf state buffer (receives header body))
unfolding app_step
message-Fair inner buf state buffer none body = refl
message-Fair inner buf state buffer (some header) none =
    Ensures-bind (FairMessage state) (read_server buffer 2 header) _ (λ _. refl)
message-Fair inner buf state buffer (some header) (some body) =
    on_message-Fair inner state buffer header body
