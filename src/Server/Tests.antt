-- ===== src/Server/Tests.antt =====
-- The server at a concrete state: two clients, of which one has sent its name, and one room.
mod Play
mod Sound
mod Process
use awale_online.Prelude.{
  ◌≤◌, ◌*◌, ◌/◌, ℕ, zero, suc, ◌+◌, ◌<◌, ◌≡◌, ◌≢◌, refl, ap, sym, ◌∙◌, get_or, true, none, some, [],
  ◌∷◌, ◌++◌, length, replicate, length-replicate, arith, pos, update, ◌>>=◌,
}
use awale_online.Wire.{Bytes, buf_size, u16_bytes, u32_bytes}
use awale_online.Wire.Laws.{Frames}
use awale_online.Wire.Samples.{scratch, scratch-length, bob}
use awale_online.Game.{
  valid_play, not_ended, p1won, game_play, play_house, settle, sow, capture, game_board_can_capture,
  any_safe, board_memory, opposite, bump, game_is_ended, Player, Game,
}
use awale_online.Protocol.ToServer
use awale_online.Server.State.{
  Room, Server, write_client, current, set_current, delete_room, find_spectator, set_room, first,
  find_room, room_play,
}
use awale_online.Server.Handlers.{handle_connect, handle_create_room}
use awale_online.Server.Told.{play_told, play_ended, ending_frame}
use awale_online.Server.Shown.{to_players, to_spectators}
use awale_online.Server.Moves.{handle_play, side_of, remove_spectator}
use awale_online.Server.Loop.{
  handlers_init, connects, talks, step, accept_client, Reachable, start, round, remove_client,
}
use awale_online.Server.Names.{name_of, AreUnique}
use awale_online.Server.Names.Step.{Reachable-AreUnique}
use awale_online.Server.Connect.{connect_refused, connect_accepted, refusal}
use awale_online.Server.Delivery.{step-client_write, rest}
use awale_online.Server.Removal.{
  remove_at, clients_of, rooms_of, remove_client-remove_at, delete_room-remove_at,
}
use awale_online.Server.Rooms.{create_room_lem, created_room, lost_spectator}

-- "eve"
abbrev eve : Bytes
eve = b'e' ∷ b'v' ∷ b'e' ∷ []

abbrev no_player : Player
no_player = record { id = pos 0; name = []; captured = 0; client_index = 0 }

abbrev seated : ℕ → Player
seated j = record { id = pos (j + 10); name = bob; captured = 0; client_index = j }

-- Two players and two spectators, on the sockets 10 to 13.
abbrev watched : Game
watched = record {
  board = replicate 12 4;
  nb_players = 2;
  nb_spectators = 2;
  players = seated;
  is_started = true;
  turn = 0;
}

abbrev no_room : Room
no_room = record { id = 0; game = record watched { nb_players = 0; nb_spectators = 0 } }

abbrev empty_server : Server
empty_server = record {
  current_client = 0;
  nb_clients = 0;
  clients = λ i. record { sock = pos 0; name = []; room_id = 0; biography = [] };
  nb_rooms = pos 0;
  rooms = λ i. no_room;
}

abbrev two_clients : Server
two_clients = record empty_server {
  nb_clients = 2;
  current_client = 1;
  clients = λ i. record {
    sock = pos (i + 4);
    name = elim i [ zero ↦ bob | suc k ↦ [] ];
    room_id = 0;
    biography = [];
  };
}

abbrev three_rooms : Server
three_rooms = record two_clients {
  nb_rooms = pos 3;
  rooms = λ i. record { id = i + 100; game = watched };
}

delete_room-remove_at_example :
    rooms_of (delete_room three_rooms 1) ≡ remove_at 1 (rooms_of three_rooms)
delete_room-remove_at_example = delete_room-remove_at three_rooms 1 (omega arith)

lost_spectator_example :
    find_spectator watched (pos 13) ≢ none
    × (find_spectator (remove_spectator watched 0) (pos 13) ≡ none)
lost_spectator_example = lost_spectator watched 0 (omega arith) (λ k h. ground arith)

step-client_write_example :
    (payload : Bytes) × Frames (ToServer.write (ToServer.connect eve) scratch) payload
    × (step two_clients scratch
          (talks 1 (some (u16_bytes (length payload))) (some payload) scratch 7)
        ≡ ((handlers_init scratch 7).on_connect eve two_clients >>= λ (s', sends).
            some (s', payload ++ 0 ∷ rest scratch payload, sends)))
step-client_write_example =
    step-client_write (ToServer.connect eve) scratch two_clients 1 scratch scratch 7 scratch-length
      (omega arith) (omega arith) scratch-length

-- A client connects.
abbrev one_client : Server
one_client = record empty_server {
  current_client = 0;
  nb_clients = 1;
  clients =
      update empty_server.clients 0
        (record { sock = pos 4; name = []; room_id = 0; biography = [] });
}

one_client-Reachable : Reachable one_client scratch
unfolding step accept_client
one_client-Reachable =
    round empty_server one_client scratch scratch (connects (pos 4)) []
      (start empty_server scratch refl refl) refl

Reachable-AreUnique_example : AreUnique one_client
Reachable-AreUnique_example = Reachable-AreUnique one_client scratch one_client-Reachable
