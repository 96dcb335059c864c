-- ===== src/System/Joined.antt =====
-- How a client takes the list of a room, and the start of its game (client/src/state.c).
use awale_online.Prelude.{
  ℕ, zero, suc, ◌+◌, ◌≤◌, ◌<◌, ◌≡◌, refl, ◌∙◌, some, List, [], ◌∷◌, ◌++◌, length, drop, arith,
  get_elem?, length-append, length-drop, Succeeds, Succeeds-bind,
}
use awale_online.Wire.{Bytes, buf_size, codes, u16_bytes}
use awale_online.Text.{decimal}
use awale_online.Protocol.ToClient.Room.{
  encode, AreStrings, read_users-encode, read_spectators-encode,
}
use awale_online.Client.State.{
  Output, waiting_play_input, in_game, in_room, waiting_join_room_response, action_play,
  set_current_state, enter,
}
use awale_online.Client.Reader.{server_client_protocol_read}
use awale_online.Client.Handlers.{
  print_about, list_users, list_spectators, list_room, room_joined, handle_join_room_successful,
  game_starting, start_at, handle_game_start, client_handlers,
}
use awale_online.Client.Loop.{runs, app_step}
use awale_online.Client.Delivery.{left, app_step-payload}
use awale_online.System.Sent.{frame, gets}

-- The buffer that a payload leaves is as long as before.
pub length-left :
    (buffer payload : Bytes)
    → length buffer ≡ buf_size
    → length payload + 2 ≤ buf_size
    → length (payload ++ 0 ∷ left buffer payload) ≡ buf_size
length-left buffer payload room fits = omega (
  arith,
  length-append payload (0 ∷ left buffer payload),
  length-drop 2 buffer,
  length-drop 1 (drop 2 buffer),
  length-drop (length payload) (u16_bytes (length payload) ++ 0 ∷ drop 1 (drop 2 buffer)),
  length-drop 1 (drop (length payload) (u16_bytes (length payload) ++ 0 ∷ drop 1 (drop 2 buffer))),
)

abbrev pub started_at : ℕ → List Output
started_at side =
    game_starting ++ print_about (codes "You start at position ") (decimal side) (codes "\n")

-- The start of a game, for a client in a room.
module _ (inner buf buffer : Bytes) (room : length buffer ≡ buf_size) where
  pub starts_first :
      app_step inner buf in_room buffer (gets (frame (7 ∷ 0 ∷ [])))
      ≡ some (
          runs waiting_play_input
            (7 ∷ 0 ∷ 0 ∷ left buffer (7 ∷ 0 ∷ []))
            (started_at 0 ++ action_play))
  unfolding server_client_protocol_read client_handlers handle_game_start start_at enter
      set_current_state
  starts_first =
      app_step-payload inner buf in_room buffer (7 ∷ 0 ∷ []) (handle_game_start inner 0) room
        (omega arith) (omega arith) refl

  pub starts_second :
      app_step inner buf in_room buffer (gets (frame (7 ∷ 1 ∷ [])))
      ≡ some (runs in_game (7 ∷ 1 ∷ 0 ∷ left buffer (7 ∷ 1 ∷ [])) (started_at 1))
  unfolding server_client_protocol_read client_handlers handle_game_start start_at enter
      set_current_state
  starts_second =
      app_step-payload inner buf in_room buffer (7 ∷ 1 ∷ []) (handle_game_start inner 1) room
        (omega arith) (omega arith) refl

get_elem?-Succeeds : (xs : List Bytes) (i : ℕ) → i < length xs → Succeeds (get_elem? xs i)
get_elem?-Succeeds [] i h = absurd (omega arith)
get_elem?-Succeeds (x ∷ xs) zero h = (x, refl)
get_elem?-Succeeds (x ∷ xs) (suc i) h = get_elem?-Succeeds xs i (omega arith)

list_users-Succeeds :
    (users bios : List Bytes) (k i : ℕ)
    → i + k ≤ length users
    → i + k ≤ length bios
    → Succeeds (list_users users bios k i)
unfolding list_users
list_users-Succeeds users bios zero i h h' = (_, refl)
list_users-Succeeds users bios (suc k) i h h' =
    Succeeds-bind (get_elem? users i) _ (get_elem?-Succeeds users i (omega arith)) λ user.
      Succeeds-bind (get_elem? bios i) _ (get_elem?-Succeeds bios i (omega arith)) λ bio.
        Succeeds-bind (list_users users bios k (i + 1)) _
          (list_users-Succeeds users bios k (i + 1) (omega arith) (omega arith))
          (λ others. (_, refl))

list_spectators-Succeeds :
    (spectators : List Bytes) (k i : ℕ)
    → i + k ≤ length spectators
    → Succeeds (list_spectators spectators k i)
unfolding list_spectators
list_spectators-Succeeds spectators zero i h = (_, refl)
list_spectators-Succeeds spectators (suc k) i h =
    Succeeds-bind (get_elem? spectators i) _ (get_elem?-Succeeds spectators i (omega arith))
      λ spectator.
        Succeeds-bind (list_spectators spectators k (i + 1)) _
          (list_spectators-Succeeds spectators k (i + 1) (omega arith)) (λ others. (_, refl))

pub list_room-Succeeds :
    (users bios spectators : List Bytes)
    → length users ≡ length bios
    → Succeeds (list_room (length users) (length spectators) users bios spectators)
unfolding list_room
list_room-Succeeds users bios spectators same =
    Succeeds-bind (list_users users bios (length users) 0) _
      (list_users-Succeeds users bios (length users) 0 (omega arith) (omega (arith, same)))
      λ players.
        Succeeds-bind (list_spectators spectators (length spectators) 0) _
          (list_spectators-Succeeds spectators (length spectators) 0 (omega arith))
          (λ watchers. (_, refl))

-- The list of a room with `m` players and `n` others.
abbrev pub list_payload : ℕ → ℕ → List Bytes → List Bytes → List Bytes → Bytes
list_payload m n users bios spectators = 4 ∷ m ∷ n ∷ encode (users ++ spectators) bios

-- The list of a room that a client has asked to join.
abbrev pub Joins : Bytes → Bytes → Bytes → Bytes → Type 0
Joins inner buf buffer payload =
    (listed : List Output) × (app_step inner buf waiting_join_room_response buffer
        (gets (frame payload))
      ≡ some (runs in_room (payload ++ 0 ∷ left buffer payload) listed))

pub joins :
    (inner buf buffer : Bytes) (users bios spectators : List Bytes)
    → length buffer ≡ buf_size
    → AreStrings users
    → AreStrings bios
    → AreStrings spectators
    → length users ≡ length bios
    → length users ≤ 2
    → length (encode (users ++ spectators) bios) + 5 ≤ buf_size
    → Joins inner buf buffer (list_payload (length users) (length spectators) users bios spectators)
unfolding server_client_protocol_read client_handlers handle_join_room_successful room_joined enter
    set_current_state
joins inner buf buffer users bios spectators room hu hb hs same two fits =
    let payload = list_payload (length users) (length spectators) users bios spectators in
    let (listed, e) = list_room-Succeeds users bios spectators same in
    (
      listed ++ [],
      app_step-payload inner buf waiting_join_room_response buffer payload
            (handle_join_room_successful inner (length users) (length spectators) users bios
              spectators)
            room (omega arith) (omega (arith, fits))
            (rw
              (
                read_users-encode users bios spectators 0 (0 ∷ left buffer payload) same
                    (omega arith) hu hb,
                read_spectators-encode spectators (0 ∷ left buffer payload) hs,
              )
              refl)
          ∙ rw e refl,
    )
