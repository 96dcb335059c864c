-- ===== src/Client/Reactions.antt =====
-- What each handler of client/src/state.c makes of the moves that are owed.
use awale_online.Prelude.{
  ℕ, zero, suc, ◌+◌, ◌≡◌, refl, Bool, true, false, List, [], ◌++◌, ◌||◌, if◌then◌else◌, arith,
  get_elem?, Ensures, Ensures-bind, Ensures-then, Ensures-if,
}
use awale_online.Wire.{Bytes}
use awale_online.Client.State.{
  State, ◌is◌, waiting_connection, waiting_join_room_response, waiting_spectate_room_response,
  in_room, spectating, Output, print_line, enter,
}
use awale_online.Client.Handlers.{
  handle_connection_successful, handle_connection_refused, handle_room_creation_successful,
  handle_room_creation_refused, list_users, list_spectators, list_room, room_joined, joined_back,
  handle_join_room_successful, handle_join_room_refused, handle_played, start_at, handle_game_start,
  handle_player_joined_room, handle_spectator_joined_room, handle_game_stopped, handle_message,
  handle_invalid_play, ignore,
}
use awale_online.Client.Asked.{plays, plays_append, Fair, enter-Fair}

module _ (inner : Bytes) (state : State) where
  pub connection_successful-Fair : Ensures (Fair state 0) (handle_connection_successful inner state)
  unfolding handle_connection_successful
  connection_successful-Fair = ground arith

  pub connection_refused-Fair :
      (text : Bytes) → Ensures (Fair state 0) (handle_connection_refused inner text state)
  unfolding handle_connection_refused
  connection_refused-Fair text = ground arith

  pub room_creation_successful-Fair :
      (room_id : ℕ) → Ensures (Fair state 0) (handle_room_creation_successful inner room_id state)
  unfolding handle_room_creation_successful
  room_creation_successful-Fair room_id = ground arith

  pub room_creation_refused-Fair :
      (text : Bytes) → Ensures (Fair state 0) (handle_room_creation_refused inner text state)
  unfolding handle_room_creation_refused
  room_creation_refused-Fair text = ground arith

  pub join_room_refused-Fair :
      (text : Bytes) → Ensures (Fair state 0) (handle_join_room_refused inner text state)
  unfolding handle_join_room_refused
  join_room_refused-Fair text = ground arith

  pub played-Fair :
      (s_score o_score : ℕ) (board : Bytes)
      → Ensures (Fair state 1) (handle_played inner s_score o_score board state)
  unfolding handle_played
  played-Fair s_score o_score board = ground arith

  pub game_start-Fair :
      (position : ℕ) → Ensures (Fair state 1) (handle_game_start inner position state)
  unfolding handle_game_start start_at
  game_start-Fair position = ground arith

  pub player_joined_room-Fair :
      (name : Bytes) → Ensures (Fair state 0) (handle_player_joined_room name state)
  unfolding handle_player_joined_room
  player_joined_room-Fair name = ground arith

  pub spectator_joined_room-Fair :
      (name : Bytes) → Ensures (Fair state 0) (handle_spectator_joined_room name state)
  unfolding handle_spectator_joined_room
  spectator_joined_room-Fair name = ground arith

  pub game_stopped-Fair :
      (draw : ℕ) (winner : Bytes)
      → Ensures (Fair state 0) (handle_game_stopped inner draw winner state)
  unfolding handle_game_stopped
  game_stopped-Fair draw winner = ground arith

  pub message-Fair : (name text : Bytes) → Ensures (Fair state 0) (handle_message name text state)
  unfolding handle_message
  message-Fair name text = ground arith

  pub invalid_play-Fair :
      (text : Bytes) → Ensures (Fair state 1) (handle_invalid_play inner text state)
  unfolding handle_invalid_play
  invalid_play-Fair text = ground arith

-- What is printed of a room is no move.
list_users-plays :
    (users bios : List Bytes) (k i : ℕ)
    → Ensures (λ outputs. plays outputs ≡ 0) (list_users users bios k i)
unfolding list_users
list_users-plays users bios zero i = refl
list_users-plays users bios (suc k) i =
    Ensures-bind (λ outputs. plays outputs ≡ 0) (get_elem? users i) _
      λ user.
        Ensures-bind (λ outputs. plays outputs ≡ 0) (get_elem? bios i) _
          λ bio.
            Ensures-then (λ outputs. plays outputs ≡ 0) (λ outputs. plays outputs ≡ 0)
              (list_users users bios k (i + 1)) _ (list_users-plays users bios k (i + 1))
              (λ others e. omega (arith, e))

list_spectators-plays :
    (spectators : List Bytes) (k i : ℕ)
    → Ensures (λ outputs. plays outputs ≡ 0) (list_spectators spectators k i)
unfolding list_spectators
list_spectators-plays spectators zero i = refl
list_spectators-plays spectators (suc k) i =
    Ensures-bind (λ outputs. plays outputs ≡ 0) (get_elem? spectators i) _
      λ spectator.
        Ensures-then (λ outputs. plays outputs ≡ 0) (λ outputs. plays outputs ≡ 0)
          (list_spectators spectators k (i + 1)) _ (list_spectators-plays spectators k (i + 1))
          (λ others e. omega (arith, e))

list_room-plays :
    (m n : ℕ) (users bios spectators : List Bytes)
    → Ensures (λ outputs. plays outputs ≡ 0) (list_room m n users bios spectators)
unfolding list_room
list_room-plays m n users bios spectators =
    Ensures-then (λ outputs. plays outputs ≡ 0) (λ outputs. plays outputs ≡ 0)
      (list_users users bios m 0) _ (list_users-plays users bios m 0)
      λ players e.
        Ensures-then (λ outputs. plays outputs ≡ 0) (λ outputs. plays outputs ≡ 0)
          (list_spectators spectators n 0) _ (list_spectators-plays spectators n 0)
          λ watchers e'. omega (
            arith,
            e,
            e',
            plays_append players
                (print_line "Spectators in room :\n" ++ (watchers ++ print_line "\n")),
            plays_append watchers (print_line "\n"),
          )

joined-Fair :
    (inner : Bytes) (state : State) (back room : Bool) (listed : List Output)
    → plays listed ≡ 0
    → Ensures (Fair state 0) (
        enter inner
          ((if back then joined_back else []) ++ listed)
          (if room then in_room else spectating))
joined-Fair inner state true true listed h =
    enter-Fair inner (joined_back ++ listed) in_room state 0 (omega (arith, h))
joined-Fair inner state true false listed h =
    enter-Fair inner (joined_back ++ listed) spectating state 0 (omega (arith, h))
joined-Fair inner state false true listed h =
    enter-Fair inner listed in_room state 0 (omega (arith, h))
joined-Fair inner state false false listed h =
    enter-Fair inner listed spectating state 0 (omega (arith, h))

pub join_room_successful-Fair :
    (inner : Bytes) (state : State) (m n : ℕ) (users bios spectators : List Bytes)
    → Ensures (Fair state 0) (handle_join_room_successful inner m n users bios spectators state)
unfolding handle_join_room_successful room_joined
join_room_successful-Fair inner state m n users bios spectators =
    Ensures-if (Fair state 0)
      (state is waiting_join_room_response
        || (state is waiting_spectate_room_response || state is waiting_connection))
      (room_joined inner m n users bios spectators state) (ignore state)
      (λ _.
        Ensures-then (Fair state 0) (λ outputs. plays outputs ≡ 0)
          (list_room m n users bios spectators) _ (list_room-plays m n users bios spectators)
          (joined-Fair inner state (state is waiting_connection)
            (state is waiting_join_room_response || state is waiting_connection)))
      (λ _. omega arith)
