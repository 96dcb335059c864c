-- ===== src/System/Tests/End.antt =====
-- A game that ends: a player leaves it, or side 0 has 24 seeds and captures two more with its last house.
use awale_online.Prelude.{
  ℕ, zero, suc, ◌+◌, ◌*◌, ◌/◌, ◌≤◌, ◌≡◌, ◌≢◌, refl, sym, ◌∙◌, true, none, some, replicate,
  length-replicate, [], ◌∷◌, ◌++◌, length, arith, pos, update,
}
use awale_online.Server.Overflow.{chat_overflows}
use awale_online.System.Texts.{IsPlain}
use awale_online.System.Chat.{chat_heard}
use awale_online.Wire.{Bytes, codes, u16_bytes, buf_size, IsString}
use awale_online.Wire.Samples.{scratch, scratch-length, bob}
use awale_online.Game.{
  valid_play, not_ended, p1won, game_play, play_house, settle, sow, capture, game_board_can_capture,
  any_safe, board_memory, opposite, bump, game_is_ended, Game,
}
use awale_online.Game.Play.{IsValid}
use awale_online.Server.State.{
  same_string, Room, Server, write_client, current, delete_room, set_room, first, find_room,
  room_play,
}
use awale_online.Server.Told.{ending_frame}
use awale_online.Server.Shown.{to_players, to_spectators}
use awale_online.Server.Moves.{handle_play, handle_send_message, side_of}
use awale_online.Server.Loop.{talks, step}
use awale_online.Client.State.{
  in_game, waiting_play_input, waiting_play_ack, sent, printed, print_line, action_play,
}
use awale_online.Client.Loop.{types, runs, app_step}
use awale_online.System.Sent.{gets}
use awale_online.System.End.{Returns, game_ends}

abbrev score : ℕ → ℕ
score zero = 24
score (suc j) = 14

abbrev close : Game
close = record {
  board = 0 ∷ 0 ∷ 0 ∷ 0 ∷ 0 ∷ 1 ∷ 1 ∷ 4 ∷ 4 ∷ 0 ∷ 0 ∷ 0 ∷ [];
  nb_players = 2;
  nb_spectators = 0;
  players = λ j. record { id = pos (j + 4); name = bob; captured = score j; client_index = j };
  is_started = true;
  turn = 0;
}

abbrev server : Server
server = record {
  current_client = 0;
  nb_clients = 2;
  clients = λ i. record { sock = pos (i + 4); name = bob; room_id = 7; biography = [] };
  nb_rooms = pos 1;
  rooms = λ i. record { id = 7; game = close };
}

abbrev last_room : Room
last_room = record {
  id = 7;
  game = record close {
    board = 0 ∷ 0 ∷ 0 ∷ 0 ∷ 0 ∷ 0 ∷ 0 ∷ 4 ∷ 4 ∷ 0 ∷ 0 ∷ 0 ∷ [];
    players = update close.players 0 (record (close.players 0) { captured = 26 });
    turn = 1;
  };
}

its_room : find_room server 7 ≡ some 0
unfolding find_room first
its_room = refl

last_move :
    room_play
      (server.rooms 0)
      (pos (side_of close (current server).sock * 12 / 2 + 5))
      (side_of close (current server).sock)
    ≡ some (valid_play, last_room)
unfolding room_play game_play play_house settle sow capture game_board_can_capture any_safe
    board_memory opposite bump side_of
last_move = refl

first_wins : game_is_ended last_room.game ≡ p1won
unfolding game_is_ended update
first_wins = refl

last_move-over : game_is_ended last_room.game ≢ not_ended
last_move-over e = let clash : p1won ≡ not_ended = sym first_wins ∙ e in cc

last_room-IsValid : IsValid last_room.game
unfolding update
last_room-IsValid = record { width = refl; seeds = refl; seated = omega arith; turns = omega arith }

named : (j : ℕ) → (last_room.game.players j).name ≡ bob
unfolding update
named zero = refl
named (suc j) = grind arith

names-IsString : (j : ℕ) → IsString (last_room.game.players j).name
names-IsString j = rw (named j) (omega arith)

names_fit : (j : ℕ) → length (last_room.game.players j).name + 5 ≤ buf_size
names_fit j = rw (named j) (omega arith)

game_ends_example :
    (handle_play scratch server 5
      ≡ some (
        delete_room (set_room server 0 last_room) 0,
        (to_players last_room.game 2 0 ++ to_spectators last_room.game 0 0)
            ++ (write_client
                  (last_room.game.players 0).id
                  (ending_frame last_room.game (game_is_ended last_room.game))
                ++ write_client
                    (last_room.game.players 1).id
                    (ending_frame last_room.game (game_is_ended last_room.game))),
      ))
    × Returns last_room.game 1
        (game_is_ended last_room.game)
        scratch
        scratch
        scratch
        waiting_play_ack
        in_game
        []
    × Returns last_room.game 1
        (game_is_ended last_room.game)
        scratch
        scratch
        scratch
        in_game
        waiting_play_input
        action_play
game_ends_example =
    game_ends server scratch 5 0 last_room 1 scratch scratch scratch scratch-length scratch-length
      its_room last_move last_move-over last_room-IsValid (omega arith) (omega arith) names-IsString
      names_fit

abbrev hello : Bytes
hello = codes "hello"

hello-IsPlain : IsPlain hello
unfolding same_string
hello-IsPlain = (refl, refl, refl)

-- The player of seat 0 greets the other.
chat_heard_example :
    (payload told : Bytes) × (buffer1 buffer2 buffer3 : Bytes) × (app_step scratch scratch in_game
        scratch
        (types (some (hello ++ b'\n' ∷ [])))
      ≡ some (
          runs in_game buffer1
            (sent (u16_bytes (length payload) ++ payload) ∷ print_line "Message Sent\n")))
    × (step server scratch (talks 0 (some (u16_bytes (length payload))) (some payload) scratch 0)
        ≡ some (record server { current_client = 0 }, buffer2, (pos 5, told) ∷ []))
    × (app_step scratch scratch waiting_play_input scratch (gets told)
        ≡ some (
            runs waiting_play_input buffer3
              (printed (codes "(" ++ (bob ++ (codes ") " ++ (hello ++ codes "\n")))) ∷ [])))
chat_heard_example =
    chat_heard scratch scratch scratch scratch hello [] server 0 0 0 scratch scratch 0
      scratch-length scratch-length scratch-length scratch-length scratch-length (omega arith)
      hello-IsPlain (omega arith) (omega arith) (omega arith) its_room (omega arith) refl refl
      (omega arith) refl refl refl

-- A name and a text of 600 bytes each.
abbrev long_text : Bytes
long_text = replicate 600 b'x'

abbrev talkative : Server
talkative = record server {
  clients = λ i. record { sock = pos (i + 4); name = long_text; room_id = 7; biography = [] };
}

chat_overflows_example : handle_send_message scratch talkative long_text ≡ none
chat_overflows_example =
    chat_overflows talkative scratch long_text scratch-length
      (omega (arith, length-replicate {A = ℕ} 600 b'x'))
