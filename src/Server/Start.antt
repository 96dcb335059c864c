-- ===== src/Server/Start.antt =====
-- The second player of a room: `handle_join_room` of server/src/protocol.c where the game starts.
use awale_online.Prelude.{
  ℕ, zero, suc, ◌+◌, ◌%◌, ◌≤◌, ◌<◌, ◌≡◌, refl, ap, true, false, some, List, [], ◌∷◌, ◌++◌,
  append-nil, length, arith, leb, ◌||◌, update,
}
use awale_online.Wire.{Bytes, buf_size, u16_bytes}
use awale_online.Game.{Game, max_game_players, game_add_player}
use awale_online.Protocol.ToClient.Room.{encode}
use awale_online.Protocol.ToClient.Payloads.{game_start-Frames}
use awale_online.Server.Writers.{write_game_start}
use awale_online.Server.State.{
  Room, Server, Send, write_client, room_add_player, current, set_current, set_room, find_room,
}
use awale_online.Server.Handlers.{
  new_player, seat_names, seat_bios, write_room, announce_start, start_when_full, enter_room,
  room_full, join_at, handle_join_room,
}
use awale_online.Server.Written.{write_game_start-length, Told, written-Told, list-Told}

abbrev pub start_frame : ℕ → ℕ × Bytes
start_frame side = (4, u16_bytes 2 ++ 7 ∷ side ∷ [])

-- Both players are told their sides.
announce_lem :
    (buffer : Bytes) (game : Game)
    → length buffer ≡ buf_size
    → (buffer' : Bytes) × (announce_start buffer game 2 0
        ≡ some (
          buffer',
          write_client (game.players 0).id (start_frame 0)
              ++ write_client (game.players 1).id (start_frame 1),
        ))
unfolding announce_start
announce_lem buffer game room =
    let (first, room1, told1, sent1) =
      written-Told (write_game_start buffer 0) (7 ∷ 0 ∷ [])
        (write_game_start-length buffer 0 buf_size room) (game_start-Frames buffer room 0) in
    let (second, room2, told2, sent2) =
      written-Told (write_game_start first 1) (7 ∷ 1 ∷ [])
        (write_game_start-length first 1 buf_size room1) (game_start-Frames first room1 1) in
    (
      second,
      rw (told1, told2, sent1 (game.players 0).id, sent2 (game.players 1).id)
          (ap
            (λ (sends : List Send).
              some (second, write_client (game.players 0).id (start_frame 0) ++ sends))
            (append-nil (write_client (game.players 1).id (start_frame 1)))),
    )

pub length-seat_names : (game : Game) (k j : ℕ) → length (seat_names game k j) ≡ k
unfolding seat_names
length-seat_names game zero j = refl
length-seat_names game (suc k) j = ap suc (length-seat_names game k (j + 1))

module _ (s : Server) (i : ℕ) where
  -- The room with the client in seat 1.
  abbrev pub full_room : Room
  full_room =
      let game = (s.rooms i).game in
      record (s.rooms i) {
        game = record game { players = update game.players 1 (new_player s); nb_players = 2 };
      }

  -- The payload that lists the room.
  abbrev pub listing : Bytes
  listing =
      let game = full_room.game in
      4
      ∷ 2
      ∷ game.nb_spectators
      ∷ encode (seat_names game 2 0 ++ seat_names game game.nb_spectators 2)
          (seat_bios (set_room s i full_room) game 2 0)

  -- The client is in the room, and the game has started.
  abbrev pub started : ℕ → Server
  started room_id =
      set_room (set_current (set_room s i full_room) (record (current s) { room_id = room_id })) i
        (record full_room { game = record (full_room.game) { is_started = true } })

module _ (s : Server) (i : ℕ) where
  seat_lem :
      (s.rooms i).game.nb_players ≡ 1
      → room_add_player (s.rooms i) (new_player s) 0 ≡ some (full_room s i)
  unfolding room_add_player game_add_player new_player
  seat_lem one = rw one refl

  write_room_lem :
      (buffer : Bytes)
      → length buffer ≡ buf_size
      → (s.rooms i).game.nb_spectators < 256
      → length (listing s i) + 2 ≤ buf_size
      → Told (write_room (set_room s i (full_room s i)) buffer (full_room s i).game) (listing s i)
  unfolding write_room
  write_room_lem buffer room watched fits =
      let game = (full_room s i).game in
      let users = seat_names game 2 0 in
      let spectators = seat_names game game.nb_spectators 2 in
      let bios = seat_bios (set_room s i (full_room s i)) game 2 0 in
      let small : leb (2 + game.nb_spectators) max_game_players ≡ true = ground arith in
      let whole : game.nb_spectators % 256 ≡ game.nb_spectators = omega (arith, watched) in
      rw (small, whole)
        (list-Told buffer users bios spectators game.nb_spectators room refl refl
          (length-seat_names game game.nb_spectators 2) (omega (arith, fits)))

  start_lem :
      (entered : Server) (buffer : Bytes)
      → length buffer ≡ buf_size
      → (s.rooms i).game.is_started ≡ false
      → start_when_full entered buffer i (full_room s i)
        ≡ some (
          write_client ((s.rooms i).game.players 0).id (start_frame 0)
              ++ write_client (current s).sock (start_frame 1),
          set_room entered i (record (full_room s i) {
            game = record ((full_room s i).game) { is_started = true };
          }),
        )
  unfolding start_when_full new_player update
  start_lem entered buffer room waits =
      let (buffer', told) = announce_lem buffer (full_room s i).game room in rw (told, waits) refl

-- A second player starts the game: `handle_join_room` does not fault, the client gets seat 1 of the room,
-- the list of those who are in it and, after this, side 1, and the player in seat 0 is told that side 0
-- is theirs. The room is found and has one player, its game has not started, fewer than 256 watch it, and
-- the list fits the buffer.
pub join_starts :
    (s : Server) (buffer : Bytes) (room_id i : ℕ)
    → length buffer ≡ buf_size
    → find_room s room_id ≡ some i
    → (s.rooms i).game.nb_players ≡ 1
    → (s.rooms i).game.is_started ≡ false
    → (s.rooms i).game.nb_spectators < 256
    → length (listing s i) + 2 ≤ buf_size
    → handle_join_room buffer s room_id 0
      ≡ some (
        started s i room_id,
        write_client
              (current s).sock
              (length (listing s i) + 2, u16_bytes (length (listing s i)) ++ listing s i)
            ++ (write_client ((s.rooms i).game.players 0).id (start_frame 0)
                ++ write_client (current s).sock (start_frame 1)),
      )
unfolding handle_join_room join_at room_full enter_room
join_starts s buffer room_id i room found one waits watched fits =
    let (listed, room1, told, sent) = write_room_lem s i buffer room watched fits in
    let free : (leb 2 (s.rooms i).game.nb_players
          || leb max_game_players (s.rooms i).game.nb_players)
        ≡ false =
      ground arith in
    let entered =
      set_current (set_room s i (full_room s i)) (record (current s) { room_id = room_id }) in
    rw
      (
        found,
        free,
        seat_lem s i one,
        told,
        start_lem s i entered listed room1 waits,
        sent (current s).sock,
      )
      refl
