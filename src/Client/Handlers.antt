-- ===== src/Client/Handlers.antt =====
-- What a message of the server does (the handlers of client/src/state.c).
use awale_online.Prelude.{
  ℕ, zero, suc, ◌+◌, ◌||◌, Option, some, List, [], ◌∷◌, ◌++◌, get_elem?, ◌==◌, if◌then◌else◌, ◌>>=◌,
}
use awale_online.Wire.{codes, Bytes, c_string}
use awale_online.Text.{decimal, hex}
use awale_online.Client.State.{
  State, ◌is◌, connecting, waiting_connection, connected, waiting_create_room_response,
  waiting_join_room_response, waiting_spectate_room_response, in_room, in_game, waiting_play_input,
  waiting_play_ack, spectating, Output, printed, Reaction, print_line, enter,
}
use awale_online.Client.Board.{action_show_board}
use awale_online.Client.Reader.{Handlers}

abbrev pub ignore : State → Reaction
ignore state = some (state, [])

-- `printf` of a text with `%s` or another conversion in it.
abbrev pub print_about : Bytes → Bytes → Bytes → List Output
print_about before argument after = printed (before ++ (argument ++ after)) ∷ []

unfoldable pub handle_connection_successful : Bytes → State → Reaction
unfolding enter
handle_connection_successful inner state =
    if state is waiting_connection
    then enter inner (print_line "You are successfully connected !\n") connected
    else ignore state

unfoldable pub handle_connection_refused : Bytes → Bytes → State → Reaction
unfolding enter
handle_connection_refused inner error_message state =
    if state is waiting_connection
    then enter inner (print_about (codes "Connection refused : ") error_message (codes "\n"))
        connecting
    else ignore state

unfoldable pub handle_room_creation_successful : Bytes → ℕ → State → Reaction
unfolding enter
handle_room_creation_successful inner room_id state =
    if state is waiting_create_room_response
    then enter inner
        (print_about (codes "Room successfully created with id ") (hex room_id) (codes "\n"))
        in_room
    else ignore state

unfoldable pub handle_room_creation_refused : Bytes → Bytes → State → Reaction
unfolding enter
handle_room_creation_refused inner error_message state =
    if state is waiting_create_room_response
    then enter inner (print_about (codes "Couldn't create room : ") error_message (codes "\n"))
        connected
    else ignore state

-- The loop over the users from `i` on, with `k` rounds left.
unfoldable pub list_users : List Bytes → List Bytes → ℕ → ℕ → Option (List Output)
list_users users bios zero i = some []
list_users users bios (suc k) i = do
  user ← get_elem? users i
  bio ← get_elem? bios i
  others ← list_users users bios k (i + 1)
  some (printed (codes " - " ++ (user ++ (codes " : " ++ (bio ++ codes "\n")))) ∷ others)

unfoldable pub list_spectators : List Bytes → ℕ → ℕ → Option (List Output)
list_spectators spectators zero i = some []
list_spectators spectators (suc k) i = do
  spectator ← get_elem? spectators i
  others ← list_spectators spectators k (i + 1)
  some (printed (codes " - " ++ (spectator ++ codes "\n")) ∷ others)

-- What is printed of a room.
unfoldable pub list_room : ℕ → ℕ → List Bytes → List Bytes → List Bytes → Option (List Output)
unfolding list_users list_spectators
list_room nb_users nb_spectators users bios spectators = do
  players ← list_users users bios nb_users 0
  watchers ← list_spectators spectators nb_spectators 0
  some (
      print_line "Room joined\nUsers in room : \n"
      ++ (players ++ (print_line "Spectators in room :\n" ++ (watchers ++ print_line "\n"))))

abbrev pub joined_back : List Output
joined_back = print_line "Joined back room, to leave room, type '/leave'\n"

-- The branch of `handle_join_room_successful` for a client that waits for this message.
unfoldable pub room_joined : Bytes → ℕ → ℕ → List Bytes → List Bytes → List Bytes → State → Reaction
unfolding list_room enter
room_joined inner nb_users nb_spectators users bios spectators state = do
  listed ← list_room nb_users nb_spectators users bios spectators
  enter inner ((if state is waiting_connection then joined_back else []) ++ listed) (
      if state is waiting_join_room_response || state is waiting_connection
      then in_room
      else spectating)

unfoldable pub handle_join_room_successful :
    Bytes → ℕ → ℕ → List Bytes → List Bytes → List Bytes → State → Reaction
unfolding room_joined
handle_join_room_successful inner nb_users nb_spectators users bios spectators state =
    if state is waiting_join_room_response
      || (state is waiting_spectate_room_response || state is waiting_connection)
    then room_joined inner nb_users nb_spectators users bios spectators state
    else ignore state

unfoldable pub handle_join_room_refused : Bytes → Bytes → State → Reaction
unfolding enter
handle_join_room_refused inner error_message state =
    if state is waiting_join_room_response
    then enter inner (print_about (codes "Could not join room : ") error_message (codes "\n"))
        connected
    else ignore state

-- The board, then a new state.
unfoldable pub show_then : Bytes → List Output → ℕ → ℕ → Bytes → State → Reaction
unfolding enter
show_then inner outputs s_score o_score board new_state = do
  shown ← action_show_board s_score o_score board
  enter inner (outputs ++ printed shown ∷ []) new_state

unfoldable pub handle_played : Bytes → ℕ → ℕ → Bytes → State → Reaction
unfolding show_then
handle_played inner s_score o_score board state =
    if state is in_game
    then show_then inner [] s_score o_score board waiting_play_input
    else if state is spectating
    then (do shown ← action_show_board s_score o_score board; some (state, printed shown ∷ []))
    else if state is waiting_play_ack
    then show_then inner [] s_score o_score board in_game
    else if state is waiting_connection
    then show_then inner joined_back s_score o_score board waiting_play_input
    else ignore state

abbrev pub game_starting : List Output
game_starting = print_line "Game starting !\n"

-- `handle_game_start` for a client in a room.
unfoldable pub start_at : Bytes → ℕ → State → Reaction
unfolding enter
start_at inner position state =
    let outputs =
      game_starting
      ++ print_about (codes "You start at position ") (decimal position) (codes "\n") in
    if position == 0
    then enter inner outputs waiting_play_input
    else if position == 1
    then enter inner outputs in_game
    else some (state, outputs)

unfoldable pub handle_game_start : Bytes → ℕ → State → Reaction
unfolding start_at enter
handle_game_start inner position state =
    if state is in_room
    then start_at inner position state
    else if state is waiting_connection
    then enter inner
        (game_starting
          ++ print_line
              "Joined back room, to leave room, type '/leave'\nWaiting for other player's input\n")
        in_game
    else some (state, game_starting)

unfoldable pub handle_player_joined_room : Bytes → State → Reaction
handle_player_joined_room username state =
    if state is in_room || state is spectating
    then some (state, print_about (codes "Second player joined : ") username (codes "\n"))
    else ignore state

unfoldable pub handle_spectator_joined_room : Bytes → State → Reaction
handle_spectator_joined_room username state =
    if state is in_room || state is in_game
    then some (state, print_about (codes "User ") username (codes " is now spectating !\n"))
    else ignore state

-- `winner` is the memory at the pointer: it is read unless `draw` is set.
unfoldable pub handle_game_stopped : Bytes → ℕ → Bytes → State → Reaction
unfolding enter
handle_game_stopped inner draw winner state =
    if state is in_game
      || (state is spectating || (state is in_room || state is waiting_play_input))
    then (if draw == 0
        then (do
          name ← c_string winner
          enter inner (print_about (codes "Game ended ! ") name (codes " won !\n")) connected)
        else enter inner (print_line "Game ended ! It's a draw !\n") connected)
    else ignore state

unfoldable pub handle_message : Bytes → Bytes → State → Reaction
handle_message username text state =
    if state is in_room
      || (state is spectating
          || (state is in_game || (state is waiting_play_input || state is waiting_play_ack)))
    then some
        (state, printed (codes "(" ++ (username ++ (codes ") " ++ (text ++ codes "\n")))) ∷ [])
    else ignore state

unfoldable pub handle_invalid_play : Bytes → Bytes → State → Reaction
unfolding enter
handle_invalid_play inner text state =
    if state is waiting_play_ack
    then enter inner (print_about (codes "Invalid move : ") text (codes "\n")) waiting_play_input
    else ignore state

-- The table that `app` fills. `inner` is the buffer of `action_create_room`.
unfoldable pub client_handlers : Bytes → Handlers (State → Reaction)
client_handlers inner = record {
  on_connection_successful = handle_connection_successful inner;
  on_connection_refused = handle_connection_refused inner;
  on_room_creation_successful = handle_room_creation_successful inner;
  on_room_creation_refused = handle_room_creation_refused inner;
  on_join_room_successful = handle_join_room_successful inner;
  on_join_room_refused = handle_join_room_refused inner;
  on_played = handle_played inner;
  on_game_start = handle_game_start inner;
  on_player_joined_room = handle_player_joined_room;
  on_spectator_joined_room = handle_spectator_joined_room;
  on_game_stopped = handle_game_stopped inner;
  on_message = handle_message;
  on_invalid_play = handle_invalid_play inner;
}
