-- ===== src/Server/Names/Keep.antt =====
-- The handlers of server/src/protocol.c that leave the clients' names: all but `handle_connect`.
use awale_online.Prelude.{
  ℕ, zero, suc, ◌+◌, refl, Bool, true, false, Option, none, some, List, [], ◌==◌, if◌then◌else◌,
  Ensures, Ensures-bind, Ensures-then, Ensures-if, ◌*◌, ◌/◌, pos, eq_ℤ, ltb, leb, ◌&&◌, not, guard,
  length, pos_part,
}
use awale_online.Wire.{Bytes, buf_size}
use awale_online.Game.{GameState, not_ended, p1won, p2won, draw, game_is_ended}
use awale_online.Server.Writers.{
  write_room_creation_successful, write_join_room_refused, write_game_stopped,
  write_send_message_to_room,
}
use awale_online.Server.State.{
  find_room, find_player, find_spectator, room_play, max_rooms, Room, room_add_player, room_init,
  Server, Send, current, set_current, set_room, delete_room,
}
use awale_online.Server.Handlers.{
  join_at, room_full, announce_start, new_player, handle_create_room, handle_join_room, enter_room,
  start_when_full, free_slot, write_room,
}
use awale_online.Server.Moves.{
  play_at, leave_at, room_index, report, side_of, remove_spectator, handle_play, handle_leave_room,
  handle_send_message, handle_set_biography, disconnect_user, disconnect_at, play_in_room, finish,
  stop_game, disconnect_from, drop_spectators,
}
use awale_online.Server.Names.{
  SameClients, SameClients-refl, SameClients-set_current, Keeps, keep, moved,
}

module _ (s : Server) where
  pub create_room-SameClients :
      (rand : ℕ) (buffer : Bytes) → Ensures (Keeps s) (handle_create_room rand buffer s)
  unfolding handle_create_room
  create_room-SameClients rand buffer = Ensures-bind (Keeps s) (free_slot s.nb_rooms) _ λ n.
      let room = room_init rand (s.rooms n) in
      Ensures-bind (Keeps s) (room_add_player room (new_player s) 0) _ λ joined.
        Ensures-bind (Keeps s) (write_room_creation_successful buffer room.id) _ λ created.
          keep s (set_current s (record (current s) { room_id = room.id })) _
            (SameClients-set_current s _ refl refl) refl refl refl

  abbrev KeepsLast : List Send × Server → Type 0
  KeepsLast r = SameClients s r.1

  start-SameClients :
      (s' : Server) (buffer : Bytes) (i : ℕ) (room : Room)
      → SameClients s s'
      → Ensures KeepsLast (start_when_full s' buffer i room)
  unfolding start_when_full
  start-SameClients s' buffer i room same =
      Ensures-if KeepsLast (leb 2 room.game.nb_players && not room.game.is_started) _
        (some ([], s'))
        (λ _.
          Ensures-bind KeepsLast (announce_start buffer room.game room.game.nb_players 0)
            (λ told. some (
              told.1,
              set_room s' i (record room { game = record (room.game) { is_started = true } }),
            ))
            λ told. keep s s' _ same refl refl refl)
        (λ _. same)

  enter_room-SameClients :
      (buffer : Bytes) (i room_id spectate : ℕ)
      → Ensures (Keeps s) (enter_room s buffer i room_id spectate)
  unfolding enter_room
  enter_room-SameClients buffer i room_id spectate =
      Ensures-bind (Keeps s) (room_add_player (s.rooms i) (new_player s) spectate) _ λ room.
        Ensures-bind (Keeps s) (write_room (set_room s i room) buffer room.game) _ λ listed.
          let entered : Server =
            set_current (set_room s i room) (record (current s) { room_id = room_id }) in
          Ensures-then (Keeps s) KeepsLast (start_when_full entered listed.1 i room) _
            (start-SameClients entered listed.1 i room
              (moved s entered (record (current s) { room_id = room_id }) refl refl refl refl refl))
            (λ r same. same)

  pub join_room-SameClients :
      (buffer : Bytes) (room_id spectate : ℕ)
      → Ensures (Keeps s) (handle_join_room buffer s room_id spectate)
  unfolding handle_join_room
  join_room-SameClients buffer room_id spectate = by_room (find_room s room_id)
    where
      by_room : (o : Option ℕ) → Ensures (Keeps s) (join_at buffer s room_id spectate o)
      by_room none =
          Ensures-bind (Keeps s) (write_join_room_refused buffer _) _ λ _. SameClients-refl s
      by_room (some i) =
          Ensures-if (Keeps s) (room_full (s.rooms i).game spectate) _ _
            (λ _.
              Ensures-bind (Keeps s) (write_join_room_refused buffer _) _ λ _. SameClients-refl s)
            (λ _. enter_room-SameClients buffer i room_id spectate)

  stop_game-SameClients :
      (s' : Server) (buffer : Bytes) (i drawn : ℕ) (winner : Bytes)
      → SameClients s s'
      → Ensures (Keeps s) (stop_game s' buffer i drawn winner)
  unfolding stop_game delete_room
  stop_game-SameClients s' buffer i drawn winner same =
      Ensures-bind (Keeps s) (write_game_stopped buffer drawn winner) _
        λ _. keep s s' _ same refl refl refl

  finish-SameClients :
      (s' : Server) (buffer : Bytes) (i : ℕ) (state : GameState)
      → SameClients s s'
      → Ensures (Keeps s) (finish s' buffer i state)
  unfolding finish
  finish-SameClients s' buffer i not_ended same = same
  finish-SameClients s' buffer i p1won same = stop_game-SameClients s' buffer i 0 _ same
  finish-SameClients s' buffer i p2won same = stop_game-SameClients s' buffer i 0 _ same
  finish-SameClients s' buffer i draw same = stop_game-SameClients s' buffer i 1 _ same

  pub play-SameClients :
      (buffer : Bytes) (position : ℕ) → Ensures (Keeps s) (handle_play buffer s position)
  unfolding handle_play play_in_room
  play-SameClients buffer position = by_room (find_room s (current s).room_id)
    where
      in_room : (i : ℕ) → Ensures (Keeps s) (play_in_room s buffer i position)
      in_room i =
          let side = side_of (s.rooms i).game (current s).sock in
          Ensures-bind (Keeps s) (room_play (s.rooms i) (pos (side * 12 / 2 + position)) side) _
            λ played. Ensures-bind (Keeps s) (report buffer played.1.game side played.0) _ λ told.
              Ensures-then (Keeps s) (Keeps s)
                (finish (set_room s i played.1) told.0 i (game_is_ended played.1.game)) _
                (finish-SameClients _ told.0 i (game_is_ended played.1.game)
                  (keep s s _ (SameClients-refl s) refl refl refl))
                (λ r same. same)

      by_room : (o : Option ℕ) → Ensures (Keeps s) (play_at buffer s position o)
      by_room none = SameClients-refl s
      by_room (some i) = in_room i

  pub leave_room-SameClients : (buffer : Bytes) → Ensures (Keeps s) (handle_leave_room buffer s)
  unfolding handle_leave_room delete_room
  leave_room-SameClients buffer =
      Ensures-bind (Keeps s) (guard (ltb (room_index s (current s).room_id) max_rooms)) _
        λ _. by_seat (room_index s (current s).room_id) (find_player _ _) (find_spectator _ _)
    where
      left : Server
      left = set_current s (record (current s) { room_id = 0 })

      by_seat : (i : ℕ) (o1 o2 : Option ℕ) → Ensures (Keeps s) (leave_at buffer left i o1 o2)
      by_seat i (some j) o2 =
          Ensures-bind (Keeps s) (write_game_stopped buffer 1 []) _
            λ _. moved s _ _ refl refl refl refl refl
      by_seat i none none = moved s _ _ refl refl refl refl refl
      by_seat i none (some j) = moved s _ _ refl refl refl refl refl

  pub send_message-SameClients :
      (buffer text : Bytes) → Ensures (Keeps s) (handle_send_message buffer s text)
  unfolding handle_send_message
  send_message-SameClients buffer text =
      Ensures-bind (Keeps s) (write_send_message_to_room buffer (current s).name text) _ λ _.
        Ensures-bind (Keeps s) (guard (ltb (room_index s (current s).room_id) max_rooms)) _
          λ _. SameClients-refl s

  pub set_biography-SameClients :
      (biography : Bytes) → Ensures (Keeps s) (handle_set_biography s biography)
  unfolding handle_set_biography
  set_biography-SameClients biography =
      Ensures-bind (Keeps s) (guard (ltb (length biography) buf_size)) _
        λ _. SameClients-set_current s (record (current s) { biography = biography }) refl refl

  drop_spectators-SameClients :
      (k i j : ℕ) (s' : Server)
      → SameClients s s'
      → Ensures (SameClients s) (drop_spectators s' i k j)
  unfolding drop_spectators
  drop_spectators-SameClients zero i j s' same = same
  drop_spectators-SameClients (suc k) i j s' same =
      Ensures-if (SameClients s) (ltb j (s'.rooms i).game.nb_spectators) _ (some s')
        (λ _. Ensures-bind (SameClients s) (guard (ltb j max_rooms)) _ λ _.
          drop_spectators-SameClients k i (j + 1) _
            (either (eq_ℤ ((s'.rooms j).game.players (2 + j)).id (current s').sock)))
        (λ _. same)
    where
      either :
          (b : Bool)
          → SameClients s (
              if b
              then set_room s' i
                  (record (s'.rooms i) { game = remove_spectator (s'.rooms i).game j })
              else s')
      either true = keep s s' _ same refl refl refl
      either false = same

  disconnect_from-SameClients :
      (k i : ℕ) (s' : Server) → SameClients s s' → Ensures (SameClients s) (disconnect_from s' k i)
  unfolding disconnect_from disconnect_at
  disconnect_from-SameClients zero i s' same = same
  disconnect_from-SameClients (suc k) i s' same =
      Ensures-if (SameClients s) ((current s').room_id == (s'.rooms i).id)
        (disconnect_at s' i rest (find_player (s'.rooms i).game (current s').sock)) (rest s')
        (λ _.
          by_seat (disconnect_from-SameClients k (i + 1))
            (find_player (s'.rooms i).game (current s').sock))
        (λ _. disconnect_from-SameClients k (i + 1) s' same)
    where
      rest : Server → Option Server
      rest t = disconnect_from t k (i + 1)

      by_seat :
          ((t : Server) → SameClients s t → Ensures (SameClients s) (rest t))
          → (o : Option ℕ) → Ensures (SameClients s) (disconnect_at s' i rest o)
      by_seat onward (some j) = keep s s' _ same refl refl refl
      by_seat onward none =
          Ensures-then (SameClients s) (SameClients s)
            (drop_spectators s' i (s'.rooms i).game.nb_spectators 0) rest
            (drop_spectators-SameClients _ i 0 s' same) onward

  pub disconnect_user-SameClients : Ensures (SameClients s) (disconnect_user s)
  unfolding disconnect_user
  disconnect_user-SameClients =
      disconnect_from-SameClients (pos_part s.nb_rooms) 0 s (SameClients-refl s)
