-- ===== src/System/Tests.antt =====
-- The two programs at a concrete state: one room, with one player in it.
mod End
use awale_online.Prelude.{
  ◌+◌, ◌≤◌, ◌≡◌, refl, false, some, none, List, [], ◌∷◌, ◌++◌, length, take, drop, replicate, arith,
  pos, update, ◌>>=◌,
}
use awale_online.Wire.{Bytes, buf_size, codes, u16_bytes, u32_bytes}
use awale_online.Wire.Laws.{Frames}
use awale_online.Wire.Samples.{scratch, scratch-length, bob}
use awale_online.Text.{decimal, hex}
use awale_online.Game.{Game}
use awale_online.Game.Play.{IsValid}
use awale_online.Protocol.ToClient
use awale_online.Protocol.ToServer.{send_message, call}
use awale_online.Server.State.{Server, find_room, first, same_string, write_client}
use awale_online.Server.Handlers.{new_player, handle_join_room, seat_names, seat_bios}
use awale_online.Server.Moves.{handle_play}
use awale_online.Server.Loop.{handlers_init, talks, step}
use awale_online.Server.Delivery.{rest}
use awale_online.Server.Start.{listing, started, start_frame, join_starts}
use awale_online.Client.State.{
  ◌is◌, waiting_play_input, waiting_play_ack, waiting_join_room_input, waiting_join_room_response,
  waiting_spectate_room_response, connected, in_room, in_game, spectating, Output, printed, sent,
  print_line, action_play, action_choose,
}
use awale_online.Client.Input.{goes, handle_user_input}
use awale_online.Client.Board.Width.{widths}
use awale_online.Client.Handlers.{print_about}
use awale_online.Client.Loop.{types, receives, runs, app_step}
use awale_online.System.Requests.{typed_move, typed_join}
use awale_online.System.Shown.{Pictures, played_shown}
use awale_online.System.Sent.{gets}
use awale_online.System.Refused.{room_not_found}
use awale_online.System.Joined.{started_at}
use awale_online.System.Start.{IsListable, game_starts}
use awale_online.System.Texts.{IsPlain, typed_text}
use awale_online.System.Answered.{answered}

abbrev first_position : Game
first_position = record {
  board = replicate 12 4;
  nb_players = 1;
  nb_spectators = 0;
  players = λ j. record { id = pos 4; name = bob; captured = 0; client_index = 0 };
  is_started = false;
  turn = 0;
}

-- Two clients on the sockets 4 and 5, of which the first waits in room 7. The second speaks.
abbrev server : Server
server = record {
  current_client = 1;
  nb_clients = 2;
  clients = λ i. record { sock = pos (i + 4); name = bob; room_id = 0; biography = [] };
  nb_rooms = pos 1;
  rooms = λ i. record { id = 7; game = first_position };
}

first_position-IsValid : IsValid first_position
first_position-IsValid = record {
  width = refl;
  seeds = refl;
  seated = omega arith;
  turns = omega arith;
}

typed_move_example :
    (frame : Bytes) × (handle_user_input scratch scratch waiting_play_input (decimal 3)
      ≡ some (goes waiting_play_ack (sent frame ∷ [])))
    × (step server scratch (talks 1 (some (take 2 frame)) (some (drop 2 frame)) scratch 0) ≡ (
        handle_play scratch (record server { current_client = 1 }) 2 >>= λ (s', sends).
        some (s', 3 ∷ 2 ∷ 0 ∷ rest scratch (3 ∷ 2 ∷ []), sends)))
typed_move_example =
    typed_move scratch scratch 2 server 1 scratch scratch 0 scratch-length (omega arith)
      (omega arith) scratch-length

typed_join_example :
    (frame : Bytes) × (handle_user_input scratch scratch waiting_join_room_input (hex 123456)
      ≡ some (goes waiting_join_room_response (sent frame ∷ [])))
    × (step server scratch (talks 1 (some (take 2 frame)) (some (drop 2 frame)) scratch 0) ≡ (
        handle_join_room scratch (record server { current_client = 1 }) 123456 0 >>= λ (s', sends).
        some (
          s',
          2 ∷ u32_bytes 123456 ++ 0 ∷ 0 ∷ rest scratch (2 ∷ u32_bytes 123456 ++ 0 ∷ []),
          sends,
        )))
typed_join_example =
    typed_join scratch scratch 123456 server 1 scratch scratch 0 scratch-length (omega arith)
      (omega arith) scratch-length

bob-IsPlain : IsPlain bob
unfolding same_string
bob-IsPlain = (refl, refl, refl)

typed_text_example :
    (payload : Bytes) × (app_step scratch scratch in_game scratch (types (some (bob ++ b'\n' ∷ [])))
      ≡ some (
          runs in_game
            (bob ++ 0 ∷ 0 ∷ drop 5 scratch)
            (sent (u16_bytes (length payload) ++ payload) ∷ print_line "Message Sent\n")))
    × (step server scratch (talks 1 (some (u16_bytes (length payload))) (some payload) scratch 0)
        ≡ (call (send_message bob) (handlers_init scratch 0) (record server { current_client = 1 })
            >>= λ (s', sends). some (s', payload ++ 0 ∷ rest scratch payload, sends)))
typed_text_example =
    typed_text scratch scratch in_game scratch bob [] (send_message bob) in_game
      (print_line "Message Sent\n") server 1 scratch scratch 0 scratch-length scratch-length
      (omega arith) (omega arith) bob-IsPlain refl (omega arith) scratch-length

played_shown_example :
    (payload : Bytes) × (text : Bytes) × (buffer' : Bytes) × Frames
      (ToClient.write (ToClient.played 1 first_position) scratch)
      payload
    × (widths text ≡ 0 ∷ (replicate 9 25 ++ 0 ∷ []))
    × Pictures first_position 1 text
    × (app_step scratch scratch in_game scratch
          (receives (some (u16_bytes (length payload))) (some payload))
        ≡ some (runs waiting_play_input buffer' (printed text ∷ action_play)))
    × (app_step scratch scratch waiting_play_ack scratch
          (receives (some (u16_bytes (length payload))) (some payload))
        ≡ some (runs in_game buffer' (printed text ∷ [])))
    × (app_step scratch scratch spectating scratch
          (receives (some (u16_bytes (length payload))) (some payload))
        ≡ some (runs spectating buffer' (printed text ∷ [])))
played_shown_example =
    played_shown first_position 1 scratch scratch scratch scratch first_position-IsValid
      (omega arith) scratch-length scratch-length

answered_example :
    (payload : Bytes) × (outputs : List Output) × (buffer' : Bytes) × ((in_room
        is waiting_join_room_response)
      ≡ false)
    × Frames
        (ToClient.write (ToClient.join_room_successful (bob ∷ []) ([] ∷ []) []) scratch)
        payload
    × (app_step scratch scratch waiting_join_room_response scratch
          (receives (some (u16_bytes (length payload))) (some payload))
        ≡ some (runs in_room buffer' outputs))
answered_example =
    answered waiting_join_room_response in_room
      (ToClient.join_room_successful (bob ∷ []) ([] ∷ []) []) scratch scratch scratch scratch refl
      (omega arith) refl scratch-length scratch-length

no_room : find_room server 8 ≡ none
unfolding find_room first
no_room = refl

room_not_found_example :
    (sent : Bytes) × (buffer' : Bytes) × (handle_join_room scratch server 8 1
      ≡ some (server, (pos 5, sent) ∷ []))
    × (app_step scratch scratch waiting_join_room_response scratch (gets sent)
        ≡ some (
            runs connected buffer' (
              print_about
                (codes "Could not join room : ")
                (codes "Error: Room not found.")
                (codes "\n")
              ++ action_choose)))
    × (app_step scratch scratch waiting_spectate_room_response scratch (gets sent)
        ≡ some (runs waiting_spectate_room_response buffer' []))
room_not_found_example =
    room_not_found server 8 1 scratch scratch scratch scratch no_room refl scratch-length
      scratch-length

its_room : find_room server 7 ≡ some 0
unfolding find_room first
its_room = refl

list_fits : length (listing server 0) + 2 ≤ buf_size
unfolding seat_names seat_bios update new_player
list_fits = omega arith

server-IsListable : IsListable server 0
unfolding seat_names seat_bios update new_player
server-IsListable = omega arith

game_starts_example :
    (list first second : Bytes) × (listed : List Output) × (buffer0 buffer1 buffer2 : Bytes)
    × (handle_join_room scratch server 7 0
        ≡ some (started server 0 7, (pos 5, list) ∷ (pos 4, first) ∷ (pos 5, second) ∷ []))
    × (app_step scratch scratch in_room scratch (gets first)
        ≡ some (runs waiting_play_input buffer0 (started_at 0 ++ action_play)))
    × (app_step scratch scratch waiting_join_room_response scratch (gets list)
        ≡ some (runs in_room buffer1 listed))
    × (app_step scratch scratch in_room buffer1 (gets second)
        ≡ some (runs in_game buffer2 (started_at 1)))
game_starts_example =
    game_starts server 7 0 scratch scratch scratch scratch scratch scratch-length scratch-length
      scratch-length its_room refl refl (omega arith) refl refl server-IsListable list_fits
