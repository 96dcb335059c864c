-- ===== src/Server/Sound/Leave.antt =====
-- The handlers of server/src/protocol.c in which a client comes back, leaves or goes keep the games in
-- the rooms sound.
use awale_online.Prelude.{
  ℕ, zero, suc, ◌+◌, ◌-◌, Bool, true, false, Option, none, some, [], ◌==◌, if◌then◌else◌, Ensures,
  Ensures-bind, Ensures-then, Ensures-if, negsuc, eq_ℤ, ltb, guard, length, pos_part, update,
  update_ne, ap, arith,
}
use awale_online.Wire.{Bytes, buf_size}
use awale_online.Game.{Game, Player}
use awale_online.Game.Sound.{IsSound}
use awale_online.Game.Seats.{seats-IsSound, id-IsSound}
use awale_online.Server.Writers.{
  write_game_stopped, write_send_message_to_room, write_connection_refused,
  write_connection_successful,
}
use awale_online.Server.State.{
  find_player, find_spectator, max_rooms, Server, current, set_current, set_room,
}
use awale_online.Server.Handlers.{
  handle_connect, welcome, reconnect, reconnect_message, name_in_use,
}
use awale_online.Server.Moves.{
  leave_at, room_index, remove_spectator, handle_leave_room, handle_send_message,
  handle_set_biography, disconnect_user, disconnect_at, disconnect_from, drop_spectators,
  leave_as_spectator,
}
use awale_online.Server.Sound.{game_of, AllSound, Sound, delete_room-AllSound, change-AllSound}

-- A spectator who leaves takes the seat of none of the players.
pub remove_spectator-IsSound : (g : Game) (j : ℕ) → IsSound g → IsSound (remove_spectator g j)
unfolding remove_spectator
remove_spectator-IsSound g j v =
    seats-IsSound g (update g.players (j + 2) (g.players (g.nb_spectators - 1)))
      (g.nb_spectators - 1)
      (λ k h. ap (λ (q : Player). q.captured) (update_ne g.players (j + 2) k _ (omega arith)))
      (omega (arith, v.watched)) v

module _ (s : Server) (all : AllSound s) where
  reconnect-AllSound : (buffer : Bytes) (i j : ℕ) → Ensures Sound (reconnect s buffer i j)
  unfolding reconnect
  reconnect-AllSound buffer i j = Ensures-bind Sound (reconnect_message _ buffer _ j) _ λ message.
      change-AllSound s i
        (record (s.rooms i) {
          game = record (game_of s i) {
            players =
                update (game_of s i).players j
                  (record ((game_of s i).players j) { id = (current s).sock });
          };
        })
        (id-IsSound (game_of s i) j (current s).sock) all

  pub welcome-AllSound :
      (buffer : Bytes) (seat : Option (ℕ × ℕ)) → Ensures Sound (welcome buffer s seat)
  unfolding welcome
  welcome-AllSound buffer none = Ensures-bind Sound (write_connection_successful buffer) _ λ _. all
  welcome-AllSound buffer (some (i, j)) = reconnect-AllSound buffer i j

  pub leave_room-AllSound : (buffer : Bytes) → Ensures Sound (handle_leave_room buffer s)
  unfolding handle_leave_room leave_at leave_as_spectator
  leave_room-AllSound buffer =
      Ensures-bind Sound (guard (ltb (room_index s (current s).room_id) max_rooms)) _
        λ _. by_seat (room_index s (current s).room_id) (find_player _ _) (find_spectator _ _)
    where
      left : Server
      left = set_current s (record (current s) { room_id = 0 })

      by_seat : (i : ℕ) (o1 o2 : Option ℕ) → Ensures Sound (leave_at buffer left i o1 o2)
      by_seat i (some j) o2 =
          Ensures-bind Sound (write_game_stopped buffer 1 []) _
            λ _. delete_room-AllSound left i (λ k hk ne. all k hk)
      by_seat i none none = all
      by_seat i none (some j) =
          change-AllSound left i (record (s.rooms i) { game = remove_spectator (game_of s i) j })
            (remove_spectator-IsSound (game_of s i) j) all

  pub send_message-AllSound :
      (buffer text : Bytes) → Ensures Sound (handle_send_message buffer s text)
  unfolding handle_send_message
  send_message-AllSound buffer text =
      Ensures-bind Sound (write_send_message_to_room buffer (current s).name text) _ λ _.
        Ensures-bind Sound (guard (ltb (room_index s (current s).room_id) max_rooms)) _ λ _. all

  pub set_biography-AllSound :
      (biography : Bytes) → Ensures Sound (handle_set_biography s biography)
  unfolding handle_set_biography
  set_biography-AllSound biography =
      Ensures-bind Sound (guard (ltb (length biography) buf_size)) _ λ _. all

pub connect-AllSound :
    (s : Server) (buffer name : Bytes) → AllSound s → Ensures Sound (handle_connect buffer s name)
unfolding handle_connect
connect-AllSound s buffer name all =
    Ensures-if Sound (name_in_use s name) _ _
      (λ _. Ensures-bind Sound (write_connection_refused buffer _) _ λ _. all)
      (λ _.
        Ensures-bind Sound (guard (ltb (length name) buf_size)) _
          λ _. welcome-AllSound _ all buffer _)

drop_spectators-AllSound :
    (k i j : ℕ) (s : Server) → AllSound s → Ensures AllSound (drop_spectators s i k j)
unfolding drop_spectators
drop_spectators-AllSound zero i j s all = all
drop_spectators-AllSound (suc k) i j s all =
    Ensures-if AllSound (ltb j (s.rooms i).game.nb_spectators) _ (some s)
      (λ _. Ensures-bind AllSound (guard (ltb j max_rooms)) _ λ _.
        drop_spectators-AllSound k i (j + 1) _
          (either (eq_ℤ ((s.rooms j).game.players (2 + j)).id (current s).sock)))
      (λ _. all)
  where
    either :
        (b : Bool)
        → AllSound (
            if b
            then set_room s i (record (s.rooms i) { game = remove_spectator (s.rooms i).game j })
            else s)
    either true =
        change-AllSound s i (record (s.rooms i) { game = remove_spectator (s.rooms i).game j })
          (remove_spectator-IsSound (game_of s i) j) all
    either false = all

disconnect_from-AllSound :
    (k i : ℕ) (s : Server) → AllSound s → Ensures AllSound (disconnect_from s k i)
unfolding disconnect_from disconnect_at
disconnect_from-AllSound zero i s all = all
disconnect_from-AllSound (suc k) i s all =
    Ensures-if AllSound ((current s).room_id == (s.rooms i).id)
      (disconnect_at s i rest (find_player (s.rooms i).game (current s).sock)) (rest s)
      (λ _.
        by_seat (disconnect_from-AllSound k (i + 1))
          (find_player (s.rooms i).game (current s).sock))
      (λ _. disconnect_from-AllSound k (i + 1) s all)
  where
    rest : Server → Option Server
    rest t = disconnect_from t k (i + 1)

    by_seat :
        ((t : Server) → AllSound t → Ensures AllSound (rest t))
        → (o : Option ℕ) → Ensures AllSound (disconnect_at s i rest o)
    by_seat onward (some j) =
        change-AllSound s i
          (record (s.rooms i) {
            game = record (game_of s i) {
              players =
                  update (game_of s i).players j
                    (record ((game_of s i).players j) { id = negsuc 0 });
            };
          })
          (id-IsSound (game_of s i) j (negsuc 0)) all
    by_seat onward none =
        Ensures-then AllSound AllSound (drop_spectators s i (s.rooms i).game.nb_spectators 0) rest
          (drop_spectators-AllSound _ i 0 s all) onward

pub disconnect_user-AllSound : (s : Server) → AllSound s → Ensures AllSound (disconnect_user s)
unfolding disconnect_user
disconnect_user-AllSound s all = disconnect_from-AllSound (pos_part s.nb_rooms) 0 s all
