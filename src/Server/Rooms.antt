-- ===== src/Server/Rooms.antt =====
-- The rooms of server/src/protocol.c: a room that is created, and a spectator that leaves one.
use awale_online.Prelude.{
  ℕ, suc, ◌+◌, ◌-◌, ℤ, negsuc, true, Bool-cases, inl, inr, ◌==◌, ==_iff, update_self, update_ne,
  ◌<◌, ◌≡◌, ◌≢◌, refl, false, none, some, ◌∷◌, ◌++◌, length, lt→ltb, arith, pos, eq_ℤ, update,
}
use awale_online.Wire.{Bytes, buf_size, u16_bytes, u32_bytes}
use awale_online.Protocol.ToClient.Payloads.{room_creation_successful-Frames}
use awale_online.Server.Lookup.{first-none, first-misses}
use awale_online.Game.{Player, Game, game_init, game_add_player}
use awale_online.Server.State.{
  max_rooms, Room, Server, write_client, room_init, room_add_player, current, first, find_spectator,
}
use awale_online.Server.Handlers.{new_player, free_slot, handle_create_room}
use awale_online.Server.Moves.{remove_spectator}

-- The room that `handle_create_room` makes of what its slot held.
abbrev pub created_room : ℕ → Server → Room → Room
created_room rand s room =
    let game = game_init room.game in
    record {
      id = rand;
      game = record game { players = update game.players 0 (new_player s); nb_players = 1 };
    }

-- With a free slot, `handle_create_room` does not fault: the room behind the last one gets the id that
-- `rand` gave, a first position and the client as its only player, the other rooms stay, the client is
-- in that room, and the id goes to it.
pub create_room_lem :
    (s : Server) (rand : ℕ) (buffer : Bytes) (n : ℕ)
    → s.nb_rooms ≡ pos n
    → n < max_rooms
    → length buffer ≡ buf_size
    → handle_create_room rand buffer s
      ≡ some (
        record s {
          clients = update s.clients s.current_client (record (current s) { room_id = rand });
          nb_rooms = pos (suc n);
          rooms = update s.rooms n (created_room rand s (s.rooms n));
        },
        write_client (current s).sock (7, u16_bytes 5 ++ 2 ∷ u32_bytes rand),
      )
unfolding handle_create_room free_slot room_init room_add_player game_add_player game_init
    new_player write_client
create_room_lem s rand buffer n e free room =
    let slot : free_slot s.nb_rooms ≡ some n = rw (e, lt→ltb n max_rooms free) refl in
    let (written, told, framed) = room_creation_successful-Frames buffer room rand in
    rw (slot, told, e, framed) refl

eq_ℤ-self : (z : ℤ) → eq_ℤ z z ≡ true
eq_ℤ-self (pos n) = ground arith
eq_ℤ-self (negsuc n) = ground arith

-- Whichever spectator but the last one leaves, the last one is no longer among the spectators: the seat
-- that gets free is not filled with the last spectator, but with whoever sits two seats before it. The
-- last spectator has a socket that nobody before it has.
pub lost_spectator :
    (game : Game) (j : ℕ)
    → j + 1 < game.nb_spectators
    → ((k : ℕ)
        → k < game.nb_spectators + 1
        → eq_ℤ (game.players k).id (game.players (game.nb_spectators + 1)).id ≡ false)
    → find_spectator game (game.players (game.nb_spectators + 1)).id ≢ none
      × (find_spectator (remove_spectator game j) (game.players (game.nb_spectators + 1)).id ≡ none)
unfolding find_spectator remove_spectator
lost_spectator game j before others = (still_there, gone)
  where
    sock : ℤ
    sock = (game.players (game.nb_spectators + 1)).id

    still_there : first (λ k. eq_ℤ (game.players (k + 2)).id sock) game.nb_spectators 0 ≢ none
    still_there miss =
        let seat : game.nb_spectators - 1 + 2 ≡ game.nb_spectators + 1 = omega arith in
        let found =
          first-none (λ k. eq_ℤ (game.players (k + 2)).id sock) game.nb_spectators 0 miss
            (game.nb_spectators - 1) (omega arith) (omega arith) in
        let unfound : eq_ℤ sock sock ≡ false = rw seat at found in let same = eq_ℤ-self sock in cc

    filled : ℕ → Player
    filled = update game.players (j + 2) (game.players (game.nb_spectators - 1))

    gone : first (λ k. eq_ℤ (filled (k + 2)).id sock) (game.nb_spectators - 1) 0 ≡ none
    gone =
        first-misses (λ k. eq_ℤ (filled (k + 2)).id sock) (game.nb_spectators - 1) 0
          (λ k lo hi. elim (Bool-cases (k == j)) [
            | inl here ↦
                rw
                  (
                    (==_iff k j).0 here,
                    update_self game.players (j + 2) (game.players (game.nb_spectators - 1)),
                  )
                  (others (game.nb_spectators - 1) (omega arith))
            | inr there ↦
                rw
                  (update_ne game.players (j + 2) (k + 2) (game.players (game.nb_spectators - 1))
                    (ground arith))
                  (others (k + 2) (omega (arith, hi)))
          ])
