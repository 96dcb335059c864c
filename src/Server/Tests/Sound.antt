-- ===== src/Server/Tests/Sound.antt =====
-- A client connects and creates a room, in which it may play alone; both players leave a room; a
-- spectator is gone.
use awale_online.Prelude.{
  none, eq_ℤ, false, List, ℕ, zero, suc, ◌+◌, ◌<◌, ◌≤◌, ◌≡◌, refl, some, [], ◌∷◌, ◌++◌, arith, pos,
  update,
}
use awale_online.Wire.{u16_bytes, u32_bytes}
use awale_online.Wire.Samples.{scratch, scratch-length, bob}
use awale_online.Game.Sound.{IsSound}
use awale_online.Server.State.{
  max_rooms, Server, write_client, current, Send, find_room, find_player, first,
}
use awale_online.Server.Reader.{client_server_protocol_read, read_kind}
use awale_online.Server.Handlers.{free_slot}
use awale_online.Server.Moves.{disconnect_user, handle_leave_room}
use awale_online.Server.Loop.{handlers_init, talks, step, Reachable, round}
use awale_online.Server.Delivery.{step-payload, rest}
use awale_online.Server.Rooms.{create_room_lem, created_room}
use awale_online.Server.Gone.{disconnect_user-same}
use awale_online.Server.Twice.{both_leave}
use awale_online.Server.Sound.{game_of}
use awale_online.Server.Sound.Step.{Reachable-IsSound}
use awale_online.Server.Tests.{one_client, one_client-Reachable, three_rooms, watched, no_player}

abbrev one_room : Server
one_room = record one_client {
  clients = update one_client.clients 0 (record (current one_client) { room_id = 7 });
  nb_rooms = pos 1;
  rooms = update one_client.rooms 0 (created_room 7 one_client (one_client.rooms 0));
}

one_room-step :
    step one_client scratch (talks 0 (some (u16_bytes 1)) (some (1 ∷ [])) scratch 7)
    ≡ some (
      one_room,
      1 ∷ 0 ∷ rest scratch (1 ∷ []),
      write_client (pos 4) (7, u16_bytes 5 ++ 2 ∷ u32_bytes 7),
    )
unfolding client_server_protocol_read read_kind handlers_init update
one_room-step =
    rw
      (
        step-payload one_client 0 scratch (1 ∷ []) scratch 7
            ((handlers_init scratch 7).on_create_room) (omega arith) scratch-length (omega arith)
            (omega arith) (λ end. refl),
        create_room_lem one_client 7 scratch 0 refl (omega arith) scratch-length,
      )
      refl

one_room-Reachable : Reachable one_room (1 ∷ 0 ∷ rest scratch (1 ∷ []))
one_room-Reachable = round one_client one_room scratch _ _ _ one_client-Reachable one_room-step

Reachable-IsSound_example : IsSound (game_of one_room 0)
Reachable-IsSound_example =
    Reachable-IsSound one_room (1 ∷ 0 ∷ rest scratch (1 ∷ [])) 0 one_room-Reachable (omega arith)

-- Both players of the last of three rooms leave it.
abbrev leaving : Server
leaving = record three_rooms {
  clients = λ i. record { sock = pos (i + 9); name = bob; room_id = 102; biography = [] };
}

found : find_room leaving 102 ≡ some 2
unfolding find_room first
found = refl

seat : (i : ℕ) → i < 2 → find_player watched (pos (i + 10)) ≡ some i
unfolding find_player first
seat zero h = refl
seat (suc zero) h = refl
seat (suc (suc i)) h = absurd (omega arith)

both_leave_example :
    (s1 s2 : Server) × (sends1 sends2 : List Send) × (handle_leave_room scratch leaving
      ≡ some (s1, sends1))
    × (handle_leave_room scratch (record s1 { current_client = 2 }) ≡ some (s2, sends2))
    × (s1.nb_rooms ≡ pos 2)
    × (s2.nb_rooms ≡ pos 1)
    × (free_slot s2.nb_rooms ≡ some 1)
both_leave_example =
    both_leave leaving scratch 2 2 0 1 scratch-length refl (omega arith) found (omega arith) refl
      (seat 0 (omega arith)) (seat 1 (omega arith)) (λ i h. omega arith)

-- The first spectator of the second room disconnects.
abbrev watching : Server
watching = record three_rooms {
  nb_rooms = pos 2;
  clients = λ i. record { sock = pos 12; name = bob; room_id = 101; biography = [] };
  rooms = elim [
    | zero ↦ record {
      id = 100;
      game = record watched { nb_players = 0; nb_spectators = 0; players = λ j. no_player };
    }
    | suc k ↦ record { id = k + 101; game = watched }
  ];
}

no_seat : (m : ℕ) → m < 2 → find_player (watching.rooms m).game (pos 12) ≡ none
unfolding find_player first
no_seat zero h = refl
no_seat (suc zero) h = refl
no_seat (suc (suc m)) h = absurd (omega arith)

few : (m : ℕ) → m < 2 → (watching.rooms m).game.nb_spectators ≤ max_rooms
few zero h = omega arith
few (suc m) h = omega arith

elsewhere :
    (m : ℕ) → m < max_rooms → eq_ℤ ((watching.rooms m).game.players (2 + m)).id (pos 12) ≡ false
elsewhere zero h = refl
elsewhere (suc m) h = ground arith

disconnect_user-same_example : disconnect_user watching ≡ some watching
disconnect_user-same_example = disconnect_user-same watching no_seat few elsewhere
