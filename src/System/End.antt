-- ===== src/System/End.antt =====
-- A game ends: the last move on the server, and both players back at the menu (`handle_play` of
-- server/src/protocol.c, the handlers of client/src/state.c).
use awale_online.Prelude.{
  ℕ, ◌+◌, ◌-◌, ◌*◌, ◌/◌, ◌≤◌, ◌<◌, ◌≡◌, ◌≢◌, refl, ◌∙◌, Bool, true, ◌||◌, some, List, [], ◌∷◌, ◌++◌,
  length, arith, ◌>>=◌, pos,
}
use awale_online.Wire.{Bytes, buf_size, codes, terminated, IsString}
use awale_online.Wire.Laws.{c_string-front, length-terminated}
use awale_online.Game.{
  Game, GameState, not_ended, p1won, p2won, draw, valid_play, game_is_ended, max_game_players,
}
use awale_online.Game.Play.{IsValid}
use awale_online.Protocol.ToClient.{seen_from}
use awale_online.Protocol.ToClient.RoundTrip.{seen_board-seen_from}
use awale_online.Server.Writers.{seen_board}
use awale_online.Server.State.{
  Room, Server, write_client, current, set_room, delete_room, find_room, room_play,
}
use awale_online.Server.Moves.{side_of, handle_play}
use awale_online.Server.Shown.{seen, board_frame, to_players, to_spectators}
use awale_online.Server.Told.{ending, ending_frame, play_ended}
use awale_online.Client.State.{
  State, ◌is◌, spectating, in_room, Output, printed, connected, in_game, waiting_play_input,
  waiting_play_ack, action_choose, action_play, print_line, set_current_state, enter,
}
use awale_online.Client.Board.{action_show_board}
use awale_online.Client.Reader.{server_client_protocol_read}
use awale_online.Client.Handlers.{
  print_about, show_then, handle_played, handle_game_stopped, client_handlers,
}
use awale_online.Client.Loop.{runs, app_step}
use awale_online.Client.Delivery.{left, app_step-payload}
use awale_online.System.Sent.{frame, gets}
use awale_online.System.Shown.{Pictures, board_shown}
use awale_online.System.Joined.{length-left}

-- What a user is told at the end.
abbrev pub end_text : Game → GameState → List Output
end_text g not_ended = []
end_text g p1won = print_about (codes "Game ended ! ") (g.players 0).name (codes " won !\n")
end_text g p2won = print_about (codes "Game ended ! ") (g.players 1).name (codes " won !\n")
end_text g draw = print_line "Game ended ! It's a draw !\n"

-- The board, read by the client.
module _ (g : Game) (v : IsValid g) (side : ℕ) (hs : side < 2) (inner buf buffer : Bytes)
    (room : length buffer ≡ buf_size) where
  length-seen : length (seen g side) ≡ 15
  unfolding seen_board
  length-seen = refl

  seen_round :
      (state : State)
      → app_step inner buf state buffer (gets (frame (seen g side))) ≡ (
          handle_played inner
            (g.players side).captured
            (g.players (1 - side)).captured
            (seen_from side g.board ++ 0 ∷ left buffer (seen g side))
            state
          >>= λ (state', outputs).
              some (runs state' (seen g side ++ 0 ∷ left buffer (seen g side)) outputs))
  unfolding server_client_protocol_read client_handlers
  seen_round state =
      app_step-payload inner buf state buffer (seen g side)
        (handle_played inner (g.players side).captured (g.players (1 - side)).captured
          (seen_from side g.board ++ 0 ∷ left buffer (seen g side)))
        room (omega arith) (omega (arith, length-seen))
        (rw (seen_board-seen_from side g.board hs v.width) refl)

  abbrev after_seen : Bytes
  after_seen = seen g side ++ 0 ∷ left buffer (seen g side)

  shown :
      (text : Bytes) × (action_show_board
          (g.players side).captured
          (g.players (1 - side)).captured
          (seen_from side g.board ++ 0 ∷ left buffer (seen g side))
        ≡ some text)
      × Pictures g side text
  shown =
      let (text, e, aligned, pictured) = board_shown g v side hs (0 ∷ left buffer (seen g side)) in
      (text, e, pictured)

  -- The player who has moved.
  mover_round :
      app_step inner buf waiting_play_ack buffer (gets (frame (seen g side)))
      ≡ some (runs in_game after_seen (printed shown.0 ∷ []))
  unfolding handle_played show_then enter set_current_state
  mover_round = seen_round waiting_play_ack ∙ rw shown.1 refl

  -- The other player.
  other_round :
      app_step inner buf in_game buffer (gets (frame (seen g side)))
      ≡ some (runs waiting_play_input after_seen (printed shown.0 ∷ action_play))
  unfolding handle_played show_then enter set_current_state
  other_round = seen_round in_game ∙ rw shown.1 refl

-- The end, for a client that can hear of it.
abbrev Ends : Game → GameState → Bytes → Bytes → Bytes → State → Type 0
Ends g outcome inner buf buffer state =
    (buffer' : Bytes) × (app_step inner buf state buffer (gets (frame (ending g outcome)))
      ≡ some (runs connected buffer' (end_text g outcome ++ action_choose)))

won_round :
    (name inner buf buffer : Bytes) (state : State)
    → IsString name
    → length name + 5 ≤ buf_size
    → length buffer ≡ buf_size
    → handle_game_stopped inner 0
        (terminated name ++ 0 ∷ left buffer (10 ∷ 0 ∷ terminated name))
        state
      ≡ some
          (connected, print_about (codes "Game ended ! ") name (codes " won !\n") ++ action_choose)
    → app_step inner buf state buffer (gets (frame (10 ∷ 0 ∷ terminated name)))
      ≡ some (
          runs connected
            (10 ∷ 0 ∷ terminated name ++ 0 ∷ left buffer (10 ∷ 0 ∷ terminated name))
            (print_about (codes "Game ended ! ") name (codes " won !\n") ++ action_choose))
unfolding server_client_protocol_read client_handlers
won_round name inner buf buffer state string fits room h =
    app_step-payload inner buf state buffer (10 ∷ 0 ∷ terminated name)
      (handle_game_stopped inner 0 (terminated name ++ 0 ∷ left buffer (10 ∷ 0 ∷ terminated name)))
      room (omega arith) (omega (arith, length-terminated name)) refl
    ∙ rw h refl

-- The states in which a client hears of the end.
abbrev pub hears : State → Bool
hears state =
    state is in_game || (state is spectating || (state is in_room || state is waiting_play_input))

module _ (g : Game) (inner buf buffer : Bytes) (room : length buffer ≡ buf_size)
    (strings : (j : ℕ) → IsString (g.players j).name)
    (fits : (j : ℕ) → length (g.players j).name + 5 ≤ buf_size) where
  end_round :
      (state : State) (outcome : GameState)
      → hears state ≡ true
      → outcome ≢ not_ended
      → Ends g outcome inner buf buffer state
  unfolding server_client_protocol_read client_handlers handle_game_stopped enter set_current_state
  end_round state not_ended h over = absurd (over refl)
  end_round state p1won h over = (
    _,
    won_round (g.players 0).name inner buf buffer state (strings 0) (fits 0) room
        (rw (h, c_string-front (g.players 0).name _ (strings 0)) refl),
  )
  end_round state p2won h over = (
    _,
    won_round (g.players 1).name inner buf buffer state (strings 1) (fits 1) room
        (rw (h, c_string-front (g.players 1).name _ (strings 1)) refl),
  )
  end_round state draw h over = (
    10 ∷ 1 ∷ 0 ∷ left buffer (10 ∷ 1 ∷ []),
    app_step-payload inner buf state buffer (10 ∷ 1 ∷ [])
          (handle_game_stopped inner 1 (0 ∷ left buffer (10 ∷ 1 ∷ []))) room (omega arith)
          (omega arith) refl
        ∙ rw h refl,
  )

-- A client that gets the last position and then the end of the game: it prints the board, seen from its
-- side, and what it prints in `state1`, and then the result and the menu.
abbrev pub Returns :
    Game → ℕ → GameState → Bytes → Bytes → Bytes → State → State → List Output → Type 0
Returns g side outcome inner buf buffer state state1 asked =
    (text buffer1 buffer2 : Bytes) × Pictures g side text
    × (app_step inner buf state buffer (gets (board_frame g side).1)
        ≡ some (runs state1 buffer1 (printed text ∷ asked)))
    × (app_step inner buf state1 buffer1 (gets (ending_frame g outcome).1)
        ≡ some (runs connected buffer2 (end_text g outcome ++ action_choose)))

-- A game that ends brings both players back to the menu: the server, after a valid move that ends a
-- valid game, deletes the room and sends each player the last board and who has won, or that nobody
-- has. When the client of either side, which waits for the answer to its move or for the other's move,
-- gets these two messages, it shows the board from its side, as `Pictures` says, then tells its user the
-- result and shows the menu; a client that waits for the other's move asks for one in between. The game
-- after the move is valid, the room of the client is found, the spectators all have a seat, and the
-- names are strings that fit a message.
pub game_ends :
    (s : Server) (scratch : Bytes) (position i : ℕ) (room : Room) (side : ℕ)
    (inner buf buffer : Bytes)
    → length scratch ≡ buf_size
    → length buffer ≡ buf_size
    → find_room s (current s).room_id ≡ some i
    → room_play
        (s.rooms i)
        (pos (side_of (s.rooms i).game (current s).sock * 12 / 2 + position))
        (side_of (s.rooms i).game (current s).sock)
      ≡ some (valid_play, room)
    → game_is_ended room.game ≢ not_ended
    → IsValid room.game
    → 2 + room.game.nb_spectators ≤ max_game_players
    → side < 2
    → ((j : ℕ) → IsString (room.game.players j).name)
    → ((j : ℕ) → length (room.game.players j).name + 5 ≤ buf_size)
    → (handle_play scratch s position
        ≡ some (
          delete_room (set_room s i room) i,
          (to_players room.game room.game.nb_players 0
                ++ to_spectators room.game room.game.nb_spectators 0)
              ++ (write_client
                    (room.game.players 0).id
                    (ending_frame room.game (game_is_ended room.game))
                  ++ write_client
                      (room.game.players 1).id
                      (ending_frame room.game (game_is_ended room.game))),
        ))
      × Returns room.game side
          (game_is_ended room.game)
          inner
          buf
          buffer
          waiting_play_ack
          in_game
          []
      × Returns room.game side
          (game_is_ended room.game)
          inner
          buf
          buffer
          in_game
          waiting_play_input
          action_play
game_ends s scratch position i room side inner buf buffer size size' found moved over v seats hs
      strings fits =
    let g = room.game in
    let buffer1 = after_seen g v side hs inner buf buffer size' in
    let (text, _, pictured) = shown g v side hs inner buf buffer size' in
    let size1 : length buffer1 ≡ buf_size =
      length-left buffer (seen g side) size'
        (omega (arith, length-seen g v side hs inner buf buffer size')) in
    let (mover_end, mover_ends) =
      end_round g inner buf buffer1 size1 strings fits in_game (game_is_ended g) refl over in
    let (other_end, other_ends) =
      end_round g inner buf buffer1 size1 strings fits waiting_play_input (game_is_ended g) refl
        over in
    (
      play_ended s scratch position i room size found moved over v.seated seats fits,
      (
        text,
        buffer1,
        mover_end,
        pictured,
        mover_round g v side hs inner buf buffer size',
        mover_ends,
      ),
      (
        text,
        buffer1,
        other_end,
        pictured,
        other_round g v side hs inner buf buffer size',
        other_ends,
      ),
    )
