-- ===== src/Server/Tests/Play.antt =====
-- A move, and a last move, in a room with two players and two spectators.
use awale_online.Prelude.{
  ◌≤◌, ◌*◌, ◌/◌, ℕ, zero, suc, ◌+◌, ◌≡◌, ◌≢◌, refl, sym, ◌∙◌, some, [], ◌∷◌, ◌++◌, length, arith,
  pos, update,
}
use awale_online.Wire.{buf_size}
use awale_online.Game.{
  valid_play, not_ended, p1won, game_play, play_house, settle, sow, capture, game_board_can_capture,
  any_safe, board_memory, opposite, bump, game_is_ended, Game,
}
use awale_online.Server.State.{
  Room, Server, write_client, current, delete_room, set_room, first, find_room, room_play,
}
use awale_online.Server.Told.{play_told, play_ended, ending_frame}
use awale_online.Server.Shown.{to_players, to_spectators}
use awale_online.Server.Moves.{handle_play, side_of}
use awale_online.Wire.Samples.{scratch, scratch-length, bob}
use awale_online.Server.Tests.{watched, seated, three_rooms}

-- The client of the first player of a room with two spectators plays its first house.
abbrev playing : Server
playing = record three_rooms {
  clients = λ i. record { sock = pos (i + 9); name = bob; room_id = 101; biography = [] };
}

abbrev after_move : Room
after_move = record {
  id = 101;
  game = record watched {
    board = 0 ∷ 5 ∷ 5 ∷ 5 ∷ 5 ∷ 4 ∷ 4 ∷ 4 ∷ 4 ∷ 4 ∷ 4 ∷ 4 ∷ [];
    players = update seated 0 (seated 0);
    turn = 1;
  };
}

playing-found : find_room playing 101 ≡ some 1
unfolding find_room first
playing-found = refl

playing-moved :
    room_play
      (playing.rooms 1)
      (pos (side_of watched (current playing).sock * 12 / 2 + 0))
      (side_of watched (current playing).sock)
    ≡ some (valid_play, after_move)
unfolding room_play game_play play_house settle sow capture game_board_can_capture any_safe
    board_memory opposite bump side_of
playing-moved = refl

after_move-going : game_is_ended after_move.game ≡ not_ended
unfolding game_is_ended update
after_move-going = refl

play_told_example :
    handle_play scratch playing 0
    ≡ some (
      set_room playing 1 after_move,
      to_players after_move.game 2 0 ++ to_spectators after_move.game 2 0,
    )
play_told_example =
    play_told playing scratch 0 1 after_move scratch-length playing-found playing-moved
      after_move-going (omega arith) (omega arith)

-- The first player has 24 seeds, and captures two more with its last house.
abbrev close : Game
close = record watched {
  board = 0 ∷ 0 ∷ 0 ∷ 0 ∷ 0 ∷ 1 ∷ 1 ∷ 4 ∷ 4 ∷ 0 ∷ 0 ∷ 12 ∷ [];
  players = λ j. record (seated j) { captured = 24 };
}

abbrev winning : Server
winning = record playing { rooms = λ i. record { id = i + 100; game = close } }

abbrev after_win : Room
after_win = record {
  id = 101;
  game = record close {
    board = 0 ∷ 0 ∷ 0 ∷ 0 ∷ 0 ∷ 0 ∷ 0 ∷ 4 ∷ 4 ∷ 0 ∷ 0 ∷ 12 ∷ [];
    players = update close.players 0 (record (close.players 0) { captured = 26 });
    turn = 1;
  };
}

winning-found : find_room winning 101 ≡ some 1
unfolding find_room first
winning-found = refl

winning-moved :
    room_play
      (winning.rooms 1)
      (pos (side_of close (current winning).sock * 12 / 2 + 5))
      (side_of close (current winning).sock)
    ≡ some (valid_play, after_win)
unfolding room_play game_play play_house settle sow capture game_board_can_capture any_safe
    board_memory opposite bump side_of
winning-moved = refl

after_win-over : game_is_ended after_win.game ≡ p1won
unfolding game_is_ended update
after_win-over = refl

over : game_is_ended after_win.game ≢ not_ended
over e = let clash : p1won ≡ not_ended = sym after_win-over ∙ e in cc

names_fit : (j : ℕ) → length (after_win.game.players j).name + 5 ≤ buf_size
unfolding update
names_fit zero = omega arith
names_fit (suc j) = grind arith

play_ended_example :
    handle_play scratch winning 5
    ≡ some (
      delete_room (set_room winning 1 after_win) 1,
      (to_players after_win.game 2 0 ++ to_spectators after_win.game 2 0)
          ++ (write_client
                (after_win.game.players 0).id
                (ending_frame after_win.game (game_is_ended after_win.game))
              ++ write_client
                  (after_win.game.players 1).id
                  (ending_frame after_win.game (game_is_ended after_win.game))),
    )
play_ended_example =
    play_ended winning scratch 5 1 after_win scratch-length winning-found winning-moved over
      (omega arith) (omega arith) names_fit
