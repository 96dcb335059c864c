-- ===== src/Client/Asked.antt =====
-- Which outputs of the client are moves, and what the parts of client/src/state.c add to them.
use awale_online.Prelude.{
  ℕ, zero, suc, ◌+◌, ◌/◌, ◌%◌, ◌^◌, ◌≤◌, ◌≡◌, ◌≢◌, refl, ap, Option, none, some, List, [], ◌∷◌,
  ◌++◌, ◌==◌, if◌then◌else◌, length, take, arith, ◌>>=◌, Ensures, Ensures-then, Ensures-map,
}
use awale_online.Wire.{
  Bytes, store, store_front, prepend, u32_bytes, write_header, write_bare, write_text, terminated,
}
use awale_online.Client.Writers.{write_create_room, write_join_room}
use awale_online.Client.State.{
  State, connecting, waiting_connection, connected, waiting_create_room_response,
  waiting_join_room_input, waiting_spectate_room_input, waiting_join_room_response,
  waiting_spectate_room_response, in_room, in_game, waiting_play_input, waiting_play_ack,
  spectating, waiting_bio_input, Output, printed, sent, write_server, action_create_room,
  set_current_state, enter,
}

-- The kind byte of a PLAY message.
abbrev pub is_play : Output → ℕ
is_play (printed text) = 0
is_play (sent []) = 0
is_play (sent (a ∷ [])) = 0
is_play (sent (a ∷ b ∷ [])) = 0
is_play (sent (a ∷ b ∷ kind ∷ rest)) = if kind == 3 then 1 else 0

abbrev pub plays : List Output → ℕ
plays [] = 0
plays (output ∷ outputs) = is_play output + plays outputs

pub plays_append : (a b : List Output) → plays (a ++ b) ≡ plays a + plays b
plays_append [] b = omega arith
plays_append (output ∷ a) b = omega (arith, plays_append a b)

-- Whether a move is awaited from the user.
abbrev pub armed : State → ℕ
armed waiting_play_input = 1
armed state = 0

is_play-take :
    (n x y kind : ℕ) (l : Bytes) → kind ≢ 3 → is_play (sent (take n (x ∷ y ∷ kind ∷ l))) ≡ 0
is_play-take zero x y kind l h = refl
is_play-take (suc zero) x y kind l h = refl
is_play-take (suc (suc zero)) x y kind l h = refl
is_play-take (suc (suc (suc n))) x y kind l h = ground arith

abbrev pub NoPlay : ℕ × Bytes → Type 0
NoPlay written = is_play (write_server written) ≡ 0

pub write_bare-NoPlay : (kind : ℕ) (buf : Bytes) → kind ≢ 3 → Ensures NoPlay (write_bare kind buf)
unfolding write_bare write_header store store_front write_server
write_bare-NoPlay kind [] h = tt
write_bare-NoPlay kind (a ∷ []) h = tt
write_bare-NoPlay kind (a ∷ b ∷ []) h = tt
write_bare-NoPlay kind (a ∷ b ∷ c ∷ buf) h = is_play-take 3 1 0 kind buf h

pub write_text-NoPlay :
    (kind : ℕ) (buf text : Bytes) → kind ≢ 3 → Ensures NoPlay (write_text kind buf text)
unfolding write_text write_header store store_front write_server
write_text-NoPlay kind [] text h = tt
write_text-NoPlay kind (a ∷ []) text h = tt
write_text-NoPlay kind (a ∷ b ∷ []) text h = tt
write_text-NoPlay kind (a ∷ b ∷ c ∷ buf) text h = behind (store_front buf (terminated text))
  where
    size : ℕ
    size = (length text + 2) % 2 ^ 16

    behind :
        (m : Option Bytes)
        → Ensures NoPlay (
            prepend (size % 256) (prepend (size / 256 % 256) (prepend kind m)) >>= λ written.
            some (size + 2, written))
    behind none = tt
    behind (some l) = is_play-take (size + 2) (size % 256) (size / 256 % 256) kind l h

pub write_join_room-NoPlay :
    (buf : Bytes) (room_id spectate : ℕ) → Ensures NoPlay (write_join_room buf room_id spectate)
unfolding write_join_room write_header store store_front write_server
write_join_room-NoPlay [] room_id spectate = tt
write_join_room-NoPlay (a ∷ []) room_id spectate = tt
write_join_room-NoPlay (a ∷ b ∷ []) room_id spectate = tt
write_join_room-NoPlay (a ∷ b ∷ c ∷ buf) room_id spectate =
    behind (store_front buf (u32_bytes room_id))
  where
    then_behind :
        (m : Option Bytes)
        → Ensures NoPlay (prepend 6 (prepend 0 (prepend 2 m)) >>= λ written. some (8, written))
    then_behind none = tt
    then_behind (some l) = is_play-take 8 6 0 2 l (λ e. omega (arith, e))

    behind :
        (m : Option Bytes)
        → Ensures NoPlay (
            prepend 6 (prepend 0 (prepend 2 m)) >>= λ numbered.
            store numbered 7 (spectate ∷ []) >>= λ written. some (8, written))
    behind none = tt
    behind (some l) = then_behind (store l 4 (spectate ∷ []))

-- The state that is set, with no move sent.
abbrev pub Sets : State → State × List Output → Type 0
Sets new_state r = (r.0 ≡ new_state) × (plays r.1 ≡ 0)

pub set_current_state-Sets :
    (inner : Bytes) (new_state : State)
    → Ensures (Sets new_state) (set_current_state inner new_state)
unfolding set_current_state action_create_room write_create_room
set_current_state-Sets inner waiting_create_room_response =
    Ensures-then (Sets waiting_create_room_response) (λ outputs. plays outputs ≡ 0)
      (action_create_room inner) _
      (Ensures-then (λ outputs. plays outputs ≡ 0) NoPlay (write_bare 1 inner) _
        (write_bare-NoPlay 1 inner (λ e. omega (arith, e))) (λ written e. omega (arith, e)))
      (λ outputs e. (refl, e))
set_current_state-Sets inner connecting = (refl, refl)
set_current_state-Sets inner waiting_connection = (refl, refl)
set_current_state-Sets inner connected = (refl, refl)
set_current_state-Sets inner waiting_join_room_input = (refl, refl)
set_current_state-Sets inner waiting_spectate_room_input = (refl, refl)
set_current_state-Sets inner waiting_join_room_response = (refl, refl)
set_current_state-Sets inner waiting_spectate_room_response = (refl, refl)
set_current_state-Sets inner in_room = (refl, refl)
set_current_state-Sets inner in_game = (refl, refl)
set_current_state-Sets inner waiting_play_input = (refl, refl)
set_current_state-Sets inner waiting_play_ack = (refl, refl)
set_current_state-Sets inner spectating = (refl, refl)
set_current_state-Sets inner waiting_bio_input = (refl, refl)

-- A state that is set after outputs with `k` moves.
pub enter-plays :
    (inner : Bytes) (outputs : List Output) (new_state : State)
    → Ensures (λ r. (r.0 ≡ new_state) × (plays r.1 ≡ plays outputs)) (enter inner outputs new_state)
unfolding enter
enter-plays inner outputs new_state =
    Ensures-then (λ r. (r.0 ≡ new_state) × (plays r.1 ≡ plays outputs)) (Sets new_state)
      (set_current_state inner new_state) _ (set_current_state-Sets inner new_state)
      (λ r (same, none_sent). (same, omega (arith, plays_append outputs r.1, none_sent)))

-- What a reaction owes: a move that is sent, or awaited, was awaited before or is asked for now.
abbrev pub Fair : State → ℕ → State × List Output → Type 0
Fair state asked r = plays r.1 + armed r.0 ≤ armed state + asked

pub enter-Fair :
    (inner : Bytes) (outputs : List Output) (new_state state : State) (asked : ℕ)
    → plays outputs + armed new_state ≤ armed state + asked
    → Ensures (Fair state asked) (enter inner outputs new_state)
enter-Fair inner outputs new_state state asked h =
    Ensures-map (λ r. (r.0 ≡ new_state) × (plays r.1 ≡ plays outputs)) (Fair state asked)
      (enter inner outputs new_state) (enter-plays inner outputs new_state)
      (λ r (same, count). omega (arith, ap armed same, count, h))
