-- ===== src/Server/Sound/Keep.antt =====
-- The handlers of server/src/protocol.c keep the games in the rooms sound.
use awale_online.Prelude.{
  ℕ, zero, suc, ◌+◌, ◌<◌, ◌≡◌, refl, true, false, List, Ensures, Ensures-bind, Ensures-then,
  Ensures-if, ◌*◌, ◌/◌, pos, negsuc, ltb, leb, ◌&&◌, not, pos_part, suc_ℤ, arith, inl, inr,
  Option-cases, ℤ,
}
use awale_online.Wire.{Bytes}
use awale_online.Game.{
  Game, Player, GameState, not_ended, p1won, p2won, draw, game_is_ended, game_init, game_add_player,
}
use awale_online.Game.Sound.{IsSound, game_play-IsSound}
use awale_online.Game.Seats.{init-IsSound, started, second-IsSound, spectator-IsSound}
use awale_online.Server.Writers.{
  write_room_creation_successful, write_join_room_refused, write_game_stopped,
}
use awale_online.Server.State.{
  find_room, room_play, max_rooms, Room, room_add_player, room_init, Server, Send, Client, current,
  set_current, set_room,
}
use awale_online.Server.Handlers.{
  join_at, room_full, announce_start, new_player, handle_create_room, handle_join_room, enter_room,
  start_when_full, free_slot, write_room,
}
use awale_online.Server.Moves.{
  play_at, report, side_of, handle_play, play_in_room, finish, stop_game,
}
use awale_online.Server.Sound.{
  AllSound, OthersSound, Sound, set_room-AllSound, set_room-OthersSound, delete_room-AllSound,
  find_room-lt,
}

free_slot-pos : (z : ℤ) → Ensures (λ n. z ≡ pos n) (free_slot z)
unfolding free_slot
free_slot-pos (pos n) = Ensures-if (λ m. pos n ≡ pos m) (ltb n max_rooms) _ _ (λ h. refl) (λ h. tt)
free_slot-pos (negsuc n) = tt

pub side_of-lt : (g : Game) (sock : ℤ) → side_of g sock < 2
unfolding side_of
side_of-lt g sock = ground arith

-- A player who gets a seat in a room that is not full, or a spectator.
seated-IsSound :
    (g : Game) (player : Player) (spectate : ℕ)
    → IsSound g
    → room_full g spectate ≡ false
    → Ensures (λ g1. IsSound (started g1)) (game_add_player g player spectate)
unfolding room_full
seated-IsSound g player zero v free = second-IsSound g player v (ground arith)
seated-IsSound g player (suc n) v free = spectator-IsSound g player v (suc n) (ground arith)

module _ (s : Server) (all : AllSound s) where
  pub create_room-AllSound :
      (rand : ℕ) (buffer : Bytes) → Ensures Sound (handle_create_room rand buffer s)
  unfolding handle_create_room free_slot room_add_player room_init
  create_room-AllSound rand buffer =
      Ensures-then Sound (λ n. s.nb_rooms ≡ pos n) (free_slot s.nb_rooms) _
        (free_slot-pos s.nb_rooms)
        (λ n free.
          Ensures-then Sound (λ room. IsSound room.game) (room_add_player _ (new_player s) 0) _
            (Ensures-then (λ room. IsSound room.game) IsSound
              (game_add_player (game_init (s.rooms n).game) (new_player s) 0) _
              (init-IsSound (s.rooms n).game (new_player s)) (λ g v. v))
            (λ joined v.
              Ensures-bind Sound (write_room_creation_successful buffer rand) _ λ created.
                set_room-AllSound (record s { nb_rooms = suc_ℤ s.nb_rooms }) n joined v
                  (earlier n free)))
    where
      earlier :
          (n : ℕ) → s.nb_rooms ≡ pos n → OthersSound (record s { nb_rooms = suc_ℤ s.nb_rooms }) n
      earlier n free k hk ne =
          let bound : k < suc n = rw free at hk in all k (rw free (omega (arith, bound, ne)))

  enter-AllSound :
      (buffer : Bytes) (i : ℕ) (room : Room) (client : Client)
      → IsSound (started room.game)
      → Ensures
          (λ (r : List Send × Server). AllSound r.1)
          (start_when_full (set_current (set_room s i room) client) buffer i room)
  unfolding start_when_full
  enter-AllSound buffer i room client v =
      Ensures-if (λ (r : List Send × Server). AllSound r.1)
        (leb 2 room.game.nb_players && not room.game.is_started) _ _
        (λ full.
          Ensures-bind (λ (r : List Send × Server). AllSound r.1)
            (announce_start buffer room.game room.game.nb_players 0) _
            λ told.
              set_room-AllSound (set_room s i room) i
                (record room { game = record (room.game) { is_started = true } }) (rw full at v)
                (set_room-OthersSound s i room (λ k hk ne. all k hk)))
        (λ waits. set_room-AllSound s i room (rw waits at v) (λ k hk ne. all k hk))

  join_room-at :
      (buffer : Bytes) (i room_id spectate : ℕ)
      → i < pos_part s.nb_rooms
      → room_full (s.rooms i).game spectate ≡ false
      → Ensures Sound (enter_room s buffer i room_id spectate)
  unfolding enter_room room_add_player
  join_room-at buffer i room_id spectate inside free =
      Ensures-then Sound (λ room. IsSound (started room.game)) (room_add_player _ _ spectate) _
        (Ensures-then (λ room. IsSound (started room.game)) (λ g1. IsSound (started g1))
          (game_add_player (s.rooms i).game (new_player s) spectate) _
          (seated-IsSound (s.rooms i).game (new_player s) spectate (all i inside) free) (λ g1 v. v))
        (λ room v. Ensures-bind Sound (write_room (set_room s i room) buffer room.game) _ λ listed.
          Ensures-then Sound (λ (r : List Send × Server). AllSound r.1)
            (start_when_full _ listed.1 i room) _
            (enter-AllSound listed.1 i room (record (current s) { room_id = room_id }) v)
            (λ r sound. sound))

  pub join_room-AllSound :
      (buffer : Bytes) (room_id spectate : ℕ)
      → Ensures Sound (handle_join_room buffer s room_id spectate)
  unfolding handle_join_room join_at
  join_room-AllSound buffer room_id spectate = elim (Option-cases (find_room s room_id)) [
    | inl miss ↦ rw miss (Ensures-bind Sound (write_join_room_refused buffer _) _ λ _. all)
    | inr (i, found) ↦ rw found (
        Ensures-if Sound (room_full (s.rooms i).game spectate) _ _
          (λ _. Ensures-bind Sound (write_join_room_refused buffer _) _ λ _. all)
          (λ free. join_room-at buffer i room_id spectate (find_room-lt s room_id i found) free))
  ]

  stop_game-AllSound :
      (s' : Server) (buffer : Bytes) (i drawn : ℕ) (winner : Bytes)
      → OthersSound s' i
      → Ensures Sound (stop_game s' buffer i drawn winner)
  unfolding stop_game
  stop_game-AllSound s' buffer i drawn winner others =
      Ensures-bind Sound (write_game_stopped buffer drawn winner) _
        λ _. delete_room-AllSound s' i others

  finish-AllSound :
      (s' : Server) (buffer : Bytes) (i : ℕ) (state : GameState)
      → OthersSound s' i
      → (state ≡ not_ended → AllSound s')
      → Ensures Sound (finish s' buffer i state)
  unfolding finish
  finish-AllSound s' buffer i not_ended others sound = sound refl
  finish-AllSound s' buffer i p1won others sound = stop_game-AllSound s' buffer i 0 _ others
  finish-AllSound s' buffer i p2won others sound = stop_game-AllSound s' buffer i 0 _ others
  finish-AllSound s' buffer i draw others sound = stop_game-AllSound s' buffer i 1 _ others

  pub play-AllSound :
      (buffer : Bytes) (position : ℕ) → Ensures Sound (handle_play buffer s position)
  unfolding handle_play play_at play_in_room room_play
  play-AllSound buffer position = elim (Option-cases (find_room s (current s).room_id)) [
    | inl miss ↦ rw miss all
    | inr (i, found) ↦ rw found (in_room i (find_room-lt s (current s).room_id i found))
  ]
    where
      in_room : (i : ℕ) → i < pos_part s.nb_rooms → Ensures Sound (play_in_room s buffer i position)
      in_room i inside =
          let side = side_of (s.rooms i).game (current s).sock in
          let (r, g', run, v, _, _, _) =
            game_play-IsSound (s.rooms i).game (side * 12 / 2 + position) side (all i inside)
              (side_of-lt (s.rooms i).game (current s).sock) in
          rw run (
            Ensures-bind Sound (report buffer g' side r) _ λ told.
              Ensures-then Sound Sound
                (finish (set_room s i (record (s.rooms i) { game = g' })) told.0 i
                  (game_is_ended g'))
                _
                (finish-AllSound _ told.0 i (game_is_ended g')
                  (set_room-OthersSound s i (record (s.rooms i) { game = g' })
                    (λ k hk ne. all k hk))
                  (λ going.
                    set_room-AllSound s i (record (s.rooms i) { game = g' }) (v going)
                      (λ k hk ne. all k hk)))
                (λ left sound. sound))
