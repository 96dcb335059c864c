-- ===== src/Server/Twice.antt =====
-- Both players of a room leave it (`handle_leave_room` of server/src/protocol.c).
use awale_online.Prelude.{
  ℕ, zero, suc, ◌+◌, ◌-◌, ◌<◌, ◌≡◌, ◌≢◌, refl, ap, ◌∙◌, none, some, List, [], ◌∷◌, length, arith,
  pos, pred_ℤ, pos_part, lt→ltb, update_ne, ◌==◌, if◌then◌else◌,
}
use awale_online.Wire.{Bytes, buf_size}
use awale_online.Wire.Laws.{Frames}
use awale_online.Protocol.ToClient.Payloads.{game_stopped-Frames}
use awale_online.Server.State.{
  Server, Send, max_rooms, current, set_current, delete_room, move_up, find_room, find_player,
}
use awale_online.Server.Lookup.{first-misses, room_index-found}
use awale_online.Server.Writers.{write_game_stopped}
use awale_online.Server.Handlers.{free_slot}
use awale_online.Server.Moves.{tell_others, room_index, leave_at, handle_leave_room}

-- The state that a player leaves behind in room `i`.
abbrev pub without : Server → ℕ → Server
without s i = delete_room (set_current s (record (current s) { room_id = 0 })) i

stopped :
    (buffer : Bytes)
    → length buffer ≡ buf_size
    → Frames (write_game_stopped buffer 1 []) (10 ∷ 1 ∷ [])
stopped buffer room = game_stopped-Frames buffer 1 [] room (omega arith)

-- The room at which the search ends goes, if the client sits in it.
leaves :
    (s : Server) (buffer : Bytes) (i j : ℕ)
    → length buffer ≡ buf_size
    → room_index s (current s).room_id ≡ i
    → i < max_rooms
    → find_player (s.rooms i).game (current s).sock ≡ some j
    → (sends : List Send) × (handle_leave_room buffer s ≡ some (without s i, sends))
unfolding handle_leave_room leave_at delete_room
leaves s buffer i j room here small seat =
    let (written, told, _) = stopped buffer room in
    let game = (s.rooms i).game in
    (
      tell_others (4, written) game j (game.nb_players + game.nb_spectators) 0,
      rw (here, lt→ltb i max_rooms small, seat, told) refl,
    )

-- The search for a room that is gone ends behind the rooms.
nowhere :
    (s : Server) (n room_id : ℕ)
    → s.nb_rooms ≡ pos n
    → ((i : ℕ) → i < n → (s.rooms i).id ≢ room_id)
    → room_index s room_id ≡ n
unfolding find_room room_index
nowhere s n room_id count ids =
    let at_end : pos_part s.nb_rooms ≡ n = ap pos_part count in
    let miss : find_room s room_id ≡ none =
      first-misses (λ i. (s.rooms i).id == room_id) (pos_part s.nb_rooms) 0
        (λ i lo hi. ground (arith, ids i (omega (arith, at_end, hi)))) in
    rw (room_index, miss) at_end

pred_left : (s : Server) (i : ℕ) → (without s i).nb_rooms ≡ pred_ℤ s.nb_rooms
unfolding delete_room
pred_left s i = refl

module _ (s : Server) (n : ℕ) (count : s.nb_rooms ≡ pos (suc n)) where
  rooms_kept : (without s n).rooms ≡ s.rooms
  unfolding delete_room move_up
  rooms_kept = let none_behind : n - n ≡ 0 = omega arith in rw (count, none_behind) refl

  one_less : (without s n).nb_rooms ≡ pos n
  unfolding delete_room
  one_less = rw count refl

  client_kept : (b : ℕ) → s.current_client ≢ b → (without s n).clients b ≡ s.clients b
  unfolding delete_room
  client_kept b other =
      update_ne s.clients s.current_client b (record (current s) { room_id = 0 }) other

slot_after :
    (n : ℕ) → n < max_rooms → free_slot (pred_ℤ (pos n)) ≡ (if n == 0 then none else some (n - 1))
unfolding free_slot
slot_after zero h = refl
slot_after (suc n) h = ground arith

-- When both players of the last room leave it, each before it hears of the other, they take another
-- room with them: of `n + 1` rooms `n` are left after the first, when their room goes, and `n - 1` after
-- the second, whose search for the room ends at the slot behind the rooms, which still holds it. The
-- next room that is created then gets the slot `n - 1`, and none where `n` is 0 and the number of the
-- rooms -1. The first of them is the client that is current, the other one is client `b`, and no other
-- room has the id of theirs.
pub both_leave :
    (s : Server) (buffer : Bytes) (n b j k : ℕ)
    → length buffer ≡ buf_size
    → s.nb_rooms ≡ pos (suc n)
    → n < max_rooms
    → find_room s (current s).room_id ≡ some n
    → s.current_client ≢ b
    → (s.clients b).room_id ≡ (s.rooms n).id
    → find_player (s.rooms n).game (current s).sock ≡ some j
    → find_player (s.rooms n).game (s.clients b).sock ≡ some k
    → ((i : ℕ) → i < n → (s.rooms i).id ≢ (s.rooms n).id)
    → (s1 s2 : Server) × (sends1 sends2 : List Send) × (handle_leave_room buffer s
        ≡ some (s1, sends1))
      × (handle_leave_room buffer (record s1 { current_client = b }) ≡ some (s2, sends2))
      × (s1.nb_rooms ≡ pos n)
      × (s2.nb_rooms ≡ pred_ℤ (pos n))
      × (free_slot s2.nb_rooms ≡ (if n == 0 then none else some (n - 1)))
both_leave s buffer n b j k room count small found other inside seat seat' ids =
    let (sends1, first_time) =
      leaves s buffer n j room (room_index-found s (current s).room_id n found) small seat in
    let (sends2, second_time) =
      leaves left buffer n k room nowhere_now small
        (rw (rooms_kept s n count, client_kept s n count b other) seat') in
    (
      without s n,
      without left n,
      sends1,
      sends2,
      first_time,
      second_time,
      one_less s n count,
      gone,
      slot,
    )
  where
    left : Server
    left = record (without s n) { current_client = b }

    nowhere_now : room_index left (current left).room_id ≡ n
    nowhere_now =
        rw (client_kept s n count b other, inside)
          (nowhere left n (s.rooms n).id (one_less s n count)
            (λ i h. rw (rooms_kept s n count) (ids i h)))

    gone : (without left n).nb_rooms ≡ pred_ℤ (pos n)
    gone = pred_left left n ∙ ap pred_ℤ (one_less s n count)

    slot : free_slot (without left n).nb_rooms ≡ (if n == 0 then none else some (n - 1))
    slot = rw gone (slot_after n small)
