-- ===== src/Server/Told.antt =====
-- Who is told of a move (`handle_play` of server/src/protocol.c).
use awale_online.Prelude.{
  ℕ, suc, ◌+◌, ◌*◌, ◌/◌, ◌≤◌, ◌<◌, ◌≡◌, refl, ap, append-nil, take, take-length, some, List, [],
  ◌∷◌, ◌++◌, length, arith, ℤ, pos, update, update_self, ◌≢◌,
}
use awale_online.Wire.{Bytes, buf_size, u16_bytes, terminated}
use awale_online.Wire.Laws.{Frames}
use awale_online.Game.{
  Game, GameState, valid_play, not_ended, p1won, p2won, draw, game_is_ended, max_game_players,
}
use awale_online.Protocol.ToClient.Payloads.{game_stopped-Frames}
use awale_online.Server.Writers.{write_game_stopped}
use awale_online.Server.State.{
  Room, Server, Send, write_client, current, set_room, delete_room, find_room, room_play,
}
use awale_online.Server.Moves.{
  report, finish, stop_game, side_of, play_in_room, play_at, handle_play,
}
use awale_online.Server.Shown.{to_players, to_spectators, show_players_lem, show_spectators_lem}

-- A valid move that does not end the game does not fault: the room of the client has the game after the
-- move, nothing else changes, and every player is sent the new board from its own side, then every
-- spectator from side 0. The room is the first one of the client's id, and has two players at most
-- and spectators who all have a seat.
pub play_told :
    (s : Server) (buffer : Bytes) (position i : ℕ) (room : Room)
    → length buffer ≡ buf_size
    → find_room s (current s).room_id ≡ some i
    → room_play
        (s.rooms i)
        (pos (side_of (s.rooms i).game (current s).sock * 12 / 2 + position))
        (side_of (s.rooms i).game (current s).sock)
      ≡ some (valid_play, room)
    → game_is_ended room.game ≡ not_ended
    → room.game.nb_players ≤ 2
    → 2 + room.game.nb_spectators ≤ max_game_players
    → handle_play buffer s position
      ≡ some (
        set_room s i room,
        to_players room.game room.game.nb_players 0
            ++ to_spectators room.game room.game.nb_spectators 0,
      )
unfolding handle_play play_at play_in_room report finish
play_told s buffer position i room size found moved going two seats =
    let (buffer1, size1, players) =
      show_players_lem buffer room.game room.game.nb_players 0 size (omega (arith, two)) in
    let (buffer2, size2, spectators) =
      show_spectators_lem buffer1 room.game room.game.nb_spectators 0 size1
        (omega (arith, seats)) in
    rw (found, moved, players, spectators, going)
      (ap (λ (sends : List Send). some (set_room s i room, sends))
        (append-nil (
          to_players room.game room.game.nb_players 0
          ++ to_spectators room.game room.game.nb_spectators 0)))

-- The payload that tells of the end of a game: no winner for a draw.
abbrev pub ending : Game → GameState → Bytes
ending game not_ended = []
ending game p1won = 10 ∷ 0 ∷ terminated (game.players 0).name
ending game p2won = 10 ∷ 0 ∷ terminated (game.players 1).name
ending game draw = 10 ∷ 1 ∷ []

abbrev pub ending_frame : Game → GameState → ℕ × Bytes
ending_frame game state =
    (length (ending game state) + 2, u16_bytes (length (ending game state)) ++ ending game state)

-- A buffer that starts with a frame, and what is sent of it.
sent_frame :
    (payload written : Bytes) (sock : ℤ)
    → take (suc (suc (length payload))) written ≡ u16_bytes (length payload) ++ payload
    → write_client sock (length payload + 2, written)
      ≡ write_client sock (length payload + 2, u16_bytes (length payload) ++ payload)
unfolding write_client
sent_frame payload written sock e =
    let two : length payload + 2 ≡ suc (suc (length payload)) = omega arith in
    rw (two, e, take-length payload) refl

stop_game_lem :
    (s : Server) (buf : Bytes) (i drawn : ℕ) (winner payload : Bytes)
    → Frames (write_game_stopped buf drawn winner) payload
    → stop_game s buf i drawn winner
      ≡ some (
        delete_room s i,
        write_client
              ((s.rooms i).game.players 0).id
              (length payload + 2, u16_bytes (length payload) ++ payload)
            ++ write_client
                ((s.rooms i).game.players 1).id
                (length payload + 2, u16_bytes (length payload) ++ payload),
      )
unfolding stop_game
stop_game_lem s buf i drawn winner payload (written, told, framed) =
    let players = (s.rooms i).game.players in
    rw
      (
        told,
        sent_frame payload written (players 0).id framed,
        sent_frame payload written (players 1).id framed,
      )
      refl

pub finish_lem :
    (s : Server) (buf : Bytes) (i : ℕ) (state : GameState)
    → length buf ≡ buf_size
    → ((j : ℕ) → j < 2 → length ((s.rooms i).game.players j).name + 5 ≤ buf_size)
    → state ≢ not_ended
    → finish s buf i state
      ≡ some (
        delete_room s i,
        write_client ((s.rooms i).game.players 0).id (ending_frame (s.rooms i).game state)
            ++ write_client ((s.rooms i).game.players 1).id (ending_frame (s.rooms i).game state),
      )
unfolding finish
finish_lem s buf i not_ended room names over = absurd (over refl)
finish_lem s buf i p1won room names over =
    let game = (s.rooms i).game in
    stop_game_lem s buf i 0 (game.players 0).name (10 ∷ 0 ∷ terminated (game.players 0).name)
      (game_stopped-Frames buf 0 (game.players 0).name room (names 0 (omega arith)))
finish_lem s buf i p2won room names over =
    let game = (s.rooms i).game in
    stop_game_lem s buf i 0 (game.players 1).name (10 ∷ 0 ∷ terminated (game.players 1).name)
      (game_stopped-Frames buf 0 (game.players 1).name room (names 1 (omega arith)))
finish_lem s buf i draw room names over =
    stop_game_lem s buf i 1 [] (10 ∷ 1 ∷ []) (game_stopped-Frames buf 1 [] room (omega arith))

-- A valid move that ends the game does not fault: the room of the client goes, nothing else changes,
-- and after the boards of the players and the spectators both players, and no spectator, are sent who
-- has won, or that nobody has. The names of the players fit a message, and the
-- spectators all have a seat.
pub play_ended :
    (s : Server) (buffer : Bytes) (position i : ℕ) (room : Room)
    → length buffer ≡ buf_size
    → find_room s (current s).room_id ≡ some i
    → room_play
        (s.rooms i)
        (pos (side_of (s.rooms i).game (current s).sock * 12 / 2 + position))
        (side_of (s.rooms i).game (current s).sock)
      ≡ some (valid_play, room)
    → game_is_ended room.game ≢ not_ended
    → room.game.nb_players ≤ 2
    → 2 + room.game.nb_spectators ≤ max_game_players
    → ((j : ℕ) → length (room.game.players j).name + 5 ≤ buf_size)
    → handle_play buffer s position
      ≡ some (
        delete_room (set_room s i room) i,
        (to_players room.game room.game.nb_players 0
              ++ to_spectators room.game room.game.nb_spectators 0)
            ++ (write_client
                  (room.game.players 0).id
                  (ending_frame room.game (game_is_ended room.game))
                ++ write_client
                    (room.game.players 1).id
                    (ending_frame room.game (game_is_ended room.game))),
      )
unfolding handle_play play_at play_in_room report
play_ended s buffer position i room size found moved over two seats names =
    let (buffer1, size1, players) =
      show_players_lem buffer room.game room.game.nb_players 0 size (omega (arith, two)) in
    let (buffer2, size2, spectators) =
      show_spectators_lem buffer1 room.game room.game.nb_spectators 0 size1
        (omega (arith, seats)) in
    let here : update s.rooms i room i ≡ room = update_self s.rooms i room in
    let told =
      finish_lem (set_room s i room) buffer2 i (game_is_ended room.game) size2
        (λ j h. rw here (names j)) over in
    rw (found, moved, players, spectators, told, here) refl
