-- ===== src/Client/Tests.antt =====
-- Runs of the client: a user who connects, creates a room and plays a house, and lines of all lengths.
mod Lines
use awale_online.Prelude.{
  ℕ, ◌+◌, ◌-◌, ◌≤◌, ◌≡◌, ◌≢◌, refl, false, true, none, some, List, [], ◌∷◌, ◌++◌, length, replicate,
  length-replicate, arith, drop, take, ◌>>=◌,
}
use awale_online.Wire.{
  Bytes, buf_size, codes, u16_bytes, store, store_front, load16, load32, write_header, write_text,
  write_bare, c_string,
}
use awale_online.Wire.Laws.{Frames}
use awale_online.Wire.Samples.{scratch, scratch-length, bob}
use awale_online.Text.{strtol, low_bits, decimal, hex}
use awale_online.Client.State.{
  State, connecting, waiting_connection, connected, waiting_create_room_response, in_room,
  waiting_play_input, waiting_play_ack, Output, printed, sent, write_server, set_current_state,
  enter, action_connect, action_choose, action_play, action_create_room, print_line,
}
use awale_online.Server.State.{same_string}
use awale_online.Client.Input.{handle_user_input, input_in, play_input, send_then, choose}
use awale_online.Client.Writers.{write_connect, write_create_room, write_play}
use awale_online.Client.Reader.{server_client_protocol_read}
use awale_online.Client.Handlers.{
  print_about, game_starting, client_handlers, handle_connection_successful,
  handle_room_creation_successful, handle_game_start, start_at,
}
use awale_online.Client.Loop.{
  types, receives, Next, runs, app_step, after_line, on_line, on_message, fgets, line_of, end_line,
  newline_at, end_at, read_server,
}
use awale_online.Client.Asked.{plays}
use awale_online.Client.Process.{connects, ready, Calls, app_turn, app_loop, app, main, welcome}
use awale_online.Client.Process.Asked.{asked_moves, main-asked}

-- What is behind the start of a short buffer.
abbrev behind : Bytes
behind = replicate 7 170

-- A round in which the terminal, or the socket, is ready.
abbrev types_in : Bytes → Calls
types_in line = record {
  select = ready true false;
  line = some line;
  header = none;
  body = none;
  inner = scratch;
  buf = scratch;
}

abbrev hears : Bytes → Bytes → Calls
hears header body = record (types_in []) {
  select = ready false true;
  header = some header;
  body = some body;
}

-- The user gives a name, creates a room, and is asked for a move once another player is there.
abbrev session : List Calls
session =
    types_in (codes "bob\n")
    ∷ hears (1 ∷ 0 ∷ []) (0 ∷ [])
    ∷ types_in (codes "1\n")
    ∷ hears (5 ∷ 0 ∷ []) (2 ∷ 7 ∷ 0 ∷ 0 ∷ 0 ∷ [])
    ∷ hears (2 ∷ 0 ∷ []) (7 ∷ 0 ∷ [])
    ∷ types_in (codes "3\n")
    ∷ []

abbrev said : List Output
said =
    welcome
    ++ (action_connect
        ++ (sent (5 ∷ 0 ∷ 0 ∷ b'b' ∷ b'o' ∷ b'b' ∷ 0 ∷ [])
            ∷ (print_line "You are successfully connected !\n"
                ++ (action_choose
                    ++ (sent (1 ∷ 0 ∷ 1 ∷ [])
                        ∷ (print_about (codes "Room successfully created with id ") (codes "7")
                              (codes "\n")
                            ++ (game_starting
                                ++ (print_about (codes "You start at position ") (codes "0")
                                      (codes "\n")
                                    ++ (action_play ++ sent (2 ∷ 0 ∷ 3 ∷ 2 ∷ []) ∷ [])))))))))

session-said : main 2 (codes "client") (connects 3) scratch (replicate 12 170) session ≡ some said
unfolding main app app_loop app_turn app_step on_line fgets line_of end_line newline_at end_at store
    store_front c_string handle_user_input input_in same_string enter set_current_state write_server
    send_then write_connect write_text write_header on_message read_server load16
    server_client_protocol_read client_handlers handle_connection_successful choose strtol
    action_create_room write_create_room write_bare handle_room_creation_successful load32 hex
    handle_game_start start_at decimal play_input write_play
session-said = refl

main-asked_example : plays said ≤ asked_moves session connecting (replicate 12 170)
main-asked_example =
    main-asked 2 (codes "client") (connects 3) scratch (replicate 12 170) session said session-said
