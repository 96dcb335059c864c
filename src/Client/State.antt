-- ===== src/Client/State.antt =====
-- The client's state, what it prints and sends, and `set_current_state` with the actions that only
-- prompt (client/include/state.h, client/src/state.c, client/src/actions.c).
use Prim.Native.String.{String}
use awale_online.Prelude.{ℕ, Bool, ◌==◌, Option, some, List, [], ◌∷◌, ◌++◌, take, ◌>>=◌}
use awale_online.Wire.{codes, Bytes}
use awale_online.Client.Writers.{write_create_room}

pub data State : Type 0 where
  connecting waiting_connection connected waiting_create_room_response waiting_join_room_input :
      State
  waiting_spectate_room_input waiting_join_room_response waiting_spectate_room_response : State
  in_room in_game waiting_play_input waiting_play_ack spectating waiting_bio_input : State

-- The values of the `enum`.
abbrev pub index : State → ℕ
index connecting = 0
index waiting_connection = 1
index connected = 2
index waiting_create_room_response = 3
index waiting_join_room_input = 4
index waiting_spectate_room_input = 5
index waiting_join_room_response = 6
index waiting_spectate_room_response = 7
index in_room = 8
index in_game = 9
index waiting_play_input = 10
index waiting_play_ack = 11
index spectating = 12
index waiting_bio_input = 13

-- `*state == other`
infix 50 ◌is◌
abbrev pub ◌is◌ : State → State → Bool
state is other = index state == index other

-- What the client does to the outside: text on the terminal, and bytes to the server.
pub data Output : Type 0 where
  printed : Bytes → Output
  sent : Bytes → Output

-- The new state, and the outputs in their order. `none` is an access outside an object.
abbrev pub Reaction : Type 0
Reaction = Option (State × List Output)

-- `write_server(buf, size)`
unfoldable pub write_server : ℕ × Bytes → Output
write_server (size, buf) = sent (take size buf)

abbrev pub print_line : String → List Output
print_line text = printed (codes text) ∷ []

abbrev pub action_connect : List Output
action_connect = print_line "What is your name?\n"

abbrev pub action_play : List Output
action_play = print_line "Please enter your next move?\n"

abbrev pub action_choose : List Output
action_choose =
    print_line
      "What do you want to do ?\n 1 - Create a room\n 2 - Join a room\n 3 - Spectate a room\n 4 - Update your bio\n"

-- The local buffer is not initialised: it is an argument.
unfoldable pub action_create_room : Bytes → Option (List Output)
action_create_room buf = do message ← write_create_room buf; some (write_server message ∷ [])

abbrev pub action_join_room : List Output
action_join_room = print_line "What room do you want to join ?\n"

abbrev pub action_spectate_room : List Output
action_spectate_room = print_line "What room do you want to spectate ?\n"

abbrev pub action_bio : List Output
action_bio = print_line "What is your new bio ?\n"

-- The state is written before the action, and no action reads it. `buf` is the buffer of
-- `action_create_room`.
unfoldable pub set_current_state : Bytes → State → Reaction
unfolding action_create_room write_server
set_current_state buf connecting = some (connecting, action_connect)
set_current_state buf connected = some (connected, action_choose)
set_current_state buf waiting_play_input = some (waiting_play_input, action_play)
set_current_state buf waiting_create_room_response = do
  outputs ← action_create_room buf
  some (waiting_create_room_response, outputs)
set_current_state buf waiting_join_room_input = some (waiting_join_room_input, action_join_room)
set_current_state buf waiting_spectate_room_input =
    some (waiting_spectate_room_input, action_spectate_room)
set_current_state buf waiting_bio_input = some (waiting_bio_input, action_bio)
set_current_state buf state = some (state, [])

-- A state that is set after some outputs.
unfoldable pub enter : Bytes → List Output → State → Reaction
unfolding set_current_state
enter buf outputs new_state = do
  (state, outputs') ← set_current_state buf new_state
  some (state, outputs ++ outputs')
