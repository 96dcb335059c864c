-- ===== src/System/Answered.antt =====
-- A client that waits for an answer, and the answers of the server (the handlers of
-- client/src/state.c).
use awale_online.Prelude.{
  ℕ, Bool, true, false, ◌-◌, ◌<◌, ◌≡◌, refl, ◌∙◌, Option, none, some, List, ◌∷◌, ◌++◌, length,
  ◌>>=◌, Ensures, Ensures-some, Succeeds,
}
use awale_online.Wire.{Bytes, buf_size, u16_bytes}
use awale_online.Wire.Laws.{Frames}
use awale_online.Game.{Game}
use awale_online.Game.Play.{IsValid}
use awale_online.Protocol.ToClient.{
  ServerMessage, connection_successful, connection_refused, room_creation_successful,
  room_creation_refused, join_room_successful, join_room_refused, played, game_start, invalid_play,
  write, call, seen_from, IsSendable,
}
use awale_online.Client.State.{
  State, ◌is◌, connecting, waiting_connection, connected, waiting_create_room_response,
  waiting_join_room_response, waiting_spectate_room_response, in_room, in_game, waiting_play_input,
  waiting_play_ack, spectating, Output, Reaction, set_current_state, enter,
}
use awale_online.Client.Board.{action_show_board}
use awale_online.Client.Handlers.{
  handle_connection_successful, handle_connection_refused, handle_room_creation_successful,
  handle_room_creation_refused, list_room, room_joined, handle_join_room_successful,
  handle_join_room_refused, show_then, handle_played, handle_game_start, handle_invalid_play,
  client_handlers,
}
use awale_online.Client.Loop.{receives, runs, app_step}
use awale_online.Client.Delivery.{left, app_step-server_write}
use awale_online.System.Shown.{board_shown}
use awale_online.System.Joined.{list_room-Succeeds}

-- The state that an answer leads to.
abbrev pub answers : State → ServerMessage → Option State
answers waiting_connection connection_successful = some connected
answers waiting_connection (connection_refused text) = some connecting
answers waiting_connection (join_room_successful users bios spectators) = some in_room
answers waiting_connection (played side game) = some waiting_play_input
answers waiting_connection (game_start side) = some in_game
answers waiting_create_room_response (room_creation_successful room_id) = some in_room
answers waiting_create_room_response (room_creation_refused text) = some connected
answers waiting_join_room_response (join_room_successful users bios spectators) = some in_room
answers waiting_join_room_response (join_room_refused text) = some connected
answers waiting_spectate_room_response (join_room_successful users bios spectators) =
    some spectating
answers waiting_spectate_room_response (join_room_refused text) =
    some waiting_spectate_room_response
answers waiting_play_ack (played side game) = some in_game
answers waiting_play_ack (invalid_play text) = some waiting_play_input
answers state m = none

-- The one answer that its client does not hear: a refusal to a user who wants to watch.
abbrev pub goes_unheard : State → ServerMessage → Bool
goes_unheard waiting_spectate_room_response (join_room_refused text) = true
goes_unheard state m = false

-- Only this answer leaves the client where it was.
answers-goes_unheard :
    (state : State) (m : ServerMessage)
    → Ensures (λ state'. (state' is state) ≡ goes_unheard state m) (answers state m)
answers-goes_unheard waiting_connection connection_successful = refl
answers-goes_unheard waiting_connection (connection_refused text) = refl
answers-goes_unheard waiting_connection (join_room_successful users bios spectators) = refl
answers-goes_unheard waiting_connection (played side game) = refl
answers-goes_unheard waiting_connection (game_start side) = refl
answers-goes_unheard waiting_create_room_response (room_creation_successful room_id) = refl
answers-goes_unheard waiting_create_room_response (room_creation_refused text) = refl
answers-goes_unheard waiting_join_room_response (join_room_successful users bios spectators) = refl
answers-goes_unheard waiting_join_room_response (join_room_refused text) = refl
answers-goes_unheard waiting_spectate_room_response (join_room_successful users bios spectators) =
    refl
answers-goes_unheard waiting_spectate_room_response (join_room_refused text) = refl
answers-goes_unheard waiting_play_ack (played side game) = refl
answers-goes_unheard waiting_play_ack (invalid_play text) = refl
answers-goes_unheard _ _ = tt

-- A message of a server whose games are valid.
abbrev pub IsSound : ServerMessage → Type 0
IsSound (played side game) = IsValid game × (side < 2)
IsSound (join_room_successful users bios spectators) = length users ≡ length bios
IsSound m = Unit {0}

-- A state that is set behind a step that succeeds.
through :
    {A : Type 0} (m : Option A) (f : A → Reaction) (state' : State)
    → Succeeds m
    → ((a : A) → (outputs : List Output) × (f a ≡ some (state', outputs)))
    → (outputs : List Output) × ((m >>= f) ≡ some (state', outputs))
through none f state' (a, e) h = cc
through (some b) f state' (a, e) h = h b

module _ (inner end : Bytes) where
  abbrev Leads : State → ServerMessage → State → Type 0
  Leads state m state' =
      (outputs : List Output) × (call m (client_handlers inner) end state ≡ some (state', outputs))

  board_shown-Succeeds :
      (side : ℕ) (game : Game)
      → IsValid game
      → side < 2
      → Succeeds (
          action_show_board
            (game.players side).captured
            (game.players (1 - side)).captured
            (seen_from side game.board ++ end))
  board_shown-Succeeds side game v hs =
      let (text, shown, _, _) = board_shown game v side hs end in (text, shown)

  leads :
      (state : State) (m : ServerMessage) → IsSound m → Ensures (Leads state m) (answers state m)
  unfolding client_handlers handle_connection_successful handle_connection_refused
      handle_room_creation_successful handle_room_creation_refused handle_join_room_successful
      room_joined handle_join_room_refused handle_played show_then handle_game_start
      handle_invalid_play enter set_current_state
  leads waiting_connection connection_successful ok = (_, refl)
  leads waiting_connection (connection_refused text) ok = (_, refl)
  leads waiting_connection (join_room_successful users bios spectators) ok =
      through (list_room (length users) (length spectators) users bios spectators) _ in_room
        (list_room-Succeeds users bios spectators ok) (λ listed. (_, refl))
  leads waiting_connection (played side game) ok =
      through
        (action_show_board (game.players side).captured (game.players (1 - side)).captured
          (seen_from side game.board ++ end))
        _ waiting_play_input (board_shown-Succeeds side game ok.0 ok.1) (λ text. (_, refl))
  leads waiting_connection (game_start side) ok = (_, refl)
  leads waiting_create_room_response (room_creation_successful room_id) ok = (_, refl)
  leads waiting_create_room_response (room_creation_refused text) ok = (_, refl)
  leads waiting_join_room_response (join_room_successful users bios spectators) ok =
      through (list_room (length users) (length spectators) users bios spectators) _ in_room
        (list_room-Succeeds users bios spectators ok) (λ listed. (_, refl))
  leads waiting_join_room_response (join_room_refused text) ok = (_, refl)
  leads waiting_spectate_room_response (join_room_successful users bios spectators) ok =
      through (list_room (length users) (length spectators) users bios spectators) _ spectating
        (list_room-Succeeds users bios spectators ok) (λ listed. (_, refl))
  leads waiting_spectate_room_response (join_room_refused text) ok = (_, refl)
  leads waiting_play_ack (played side game) ok =
      through
        (action_show_board (game.players side).captured (game.players (1 - side)).captured
          (seen_from side game.board ++ end))
        _ in_game (board_shown-Succeeds side game ok.0 ok.1) (λ text. (_, refl))
  leads waiting_play_ack (invalid_play text) ok = (_, refl)
  leads _ _ ok = tt

-- What becomes of a client that waits when it is answered: each answer of `answers`, to a name, a new
-- room, a room to join or to watch, or a move, takes the client into the state that stands there, and
-- this is another state than the one in which it waits for all of them but one. The refusal of a room to
-- watch leaves the client waiting. The message is one that the server can write, and shows a valid game.
pub answered :
    (state state' : State) (m : ServerMessage) (server_buf inner buf buffer : Bytes)
    → answers state m ≡ some state'
    → IsSendable m
    → IsSound m
    → length server_buf ≡ buf_size
    → length buffer ≡ buf_size
    → (payload : Bytes) × (outputs : List Output) × (buffer' : Bytes) × ((state' is state)
        ≡ goes_unheard state m)
      × Frames (write m server_buf) payload
      × (app_step inner buf state buffer
            (receives (some (u16_bytes (length payload))) (some payload))
          ≡ some (runs state' buffer' outputs))
answered state state' m server_buf inner buf buffer answer sendable sound space room =
    let (payload, frames, round) =
      app_step-server_write m server_buf inner buf buffer space sendable room in
    let (outputs, e) =
      Ensures-some (Leads inner (0 ∷ left buffer payload) state m) (answers state m)
        (leads inner (0 ∷ left buffer payload) state m sound) answer in
    (
      payload,
      outputs,
      payload ++ 0 ∷ left buffer payload,
      Ensures-some (λ (next : State). (next is state) ≡ goes_unheard state m) (answers state m)
          (answers-goes_unheard state m) answer,
      frames,
      round state ∙ rw e refl,
    )
