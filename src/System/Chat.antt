-- ===== src/System/Chat.antt =====
-- A message of a player, to the terminal of the other (`handle_user_input` and `handle_message` of
-- client/src/state.c, `handle_send_message` of server/src/protocol.c).
use awale_online.Prelude.{
  ℕ, zero, suc, ◌+◌, ◌-◌, ◌≤◌, ◌<◌, ◌≡◌, refl, ◌∙◌, true, false, some, [], ◌∷◌, ◌++◌, length, drop,
  append-nil, append_assoc, length-append, lt→ltb, arith, ◌>>=◌, ℤ, eq_ℤ,
}
use awale_online.Wire.{Bytes, buf_size, codes, u16_bytes, terminated, IsString}
use awale_online.Wire.Laws.{c_string-front, drop-front, length-terminated}
use awale_online.Protocol.ToServer.{send_message}
use awale_online.Protocol.ToClient.Payloads.{message-Frames}
use awale_online.Server.State.{Server, max_rooms, current, find_room, write_client}
use awale_online.Server.Writers.{write_send_message_to_room}
use awale_online.Server.Moves.{tell_room, handle_send_message}
use awale_online.Server.Loop.{handlers_init, talks, step}
use awale_online.Server.Delivery.{rest}
use awale_online.Client.State.{State, in_game, waiting_play_input, printed, sent, print_line}
use awale_online.Client.Reader.{server_client_protocol_read}
use awale_online.Client.Handlers.{client_handlers, handle_message}
use awale_online.Client.Loop.{types, runs, app_step}
use awale_online.Client.Delivery.{left, app_step-payload}
use awale_online.Client.Lines.{IsLine, IsLine-IsString}
use awale_online.System.Sent.{frame, gets, IsOpen, write_client-Frames}
use awale_online.System.Texts.{IsPlain, typed_text}
use awale_online.Server.Lookup.{room_index-found}

-- The payload of a message of the room.
abbrev pub chat_payload : Bytes → Bytes → Bytes
chat_payload name text = 11 ∷ terminated name ++ terminated text

-- Of two players, the one who is not the sender is told.
tell_room_lem :
    (s : Server) (r j : ℕ) (sock : ℤ) (told : ℕ × Bytes)
    → j < 2
    → eq_ℤ ((s.rooms r).game.players j).id sock ≡ true
    → eq_ℤ ((s.rooms r).game.players (1 - j)).id sock ≡ false
    → tell_room told (s.rooms r).game sock 2 0 ++ []
      ≡ write_client ((s.rooms r).game.players (1 - j)).id told
unfolding tell_room
tell_room_lem s r zero sock told h mine theirs =
    rw (mine, theirs, append-nil) (append-nil (write_client ((s.rooms r).game.players 1).id told))
tell_room_lem s r (suc zero) sock told h mine theirs =
    rw (mine, theirs, append-nil) (append-nil (write_client ((s.rooms r).game.players 0).id told))
tell_room_lem s r (suc (suc j)) sock told h mine theirs = absurd (omega arith)

send_message_lem :
    (s : Server) (scratch text : Bytes) (r j : ℕ)
    → length scratch ≡ buf_size
    → length (current s).name + length text + 5 ≤ buf_size
    → find_room s (current s).room_id ≡ some r
    → r < max_rooms
    → (s.rooms r).game.nb_players ≡ 2
    → (s.rooms r).game.nb_spectators ≡ 0
    → j < 2
    → eq_ℤ ((s.rooms r).game.players j).id (current s).sock ≡ true
    → eq_ℤ ((s.rooms r).game.players (1 - j)).id (current s).sock ≡ false
    → IsOpen ((s.rooms r).game.players (1 - j)).id
    → handle_send_message scratch s text
      ≡ some (
        s,
        (((s.rooms r).game.players (1 - j)).id, frame (chat_payload (current s).name text)) ∷ [],
      )
unfolding handle_send_message tell_room
send_message_lem s scratch text r j room fits found small two nobody h mine theirs opened =
    let (written, told, out) =
      write_client-Frames (write_send_message_to_room scratch (current s).name text)
        (chat_payload (current s).name text) ((s.rooms r).game.players (1 - j)).id
        (message-Frames scratch room (current s).name text fits) opened in
    rw
      (
        room_index-found s (current s).room_id r found,
        lt→ltb r max_rooms small,
        told,
        two,
        nobody,
        tell_room_lem s r j (current s).sock written h mine theirs,
        out,
      )
      refl

-- The client of the other player.
heard :
    (name text inner buf buffer : Bytes) (state : State)
    → IsString name
    → IsString text
    → length name + length text + 5 ≤ buf_size
    → length buffer ≡ buf_size
    → app_step inner buf state buffer (gets (frame (chat_payload name text))) ≡ (
        handle_message name text state >>= λ (state', outputs).
        some (
          runs state' (chat_payload name text ++ 0 ∷ left buffer (chat_payload name text)) outputs))
unfolding server_client_protocol_read client_handlers
heard name text inner buf buffer state hn ht fits room =
    let end = 0 ∷ left buffer (chat_payload name text) in
    app_step-payload inner buf state buffer (chat_payload name text) (handle_message name text) room
      (omega arith)
      (omega (
        arith,
        length-append (terminated name) (terminated text),
        length-terminated name,
        length-terminated text,
        fits,
      ))
      (rw
        (
          append_assoc (terminated name) (terminated text) end,
          c_string-front name (terminated text ++ end) hn,
          drop-front name (terminated text ++ end),
          c_string-front text end ht,
        )
        refl)

-- What a player types in a game is read by the other one: a line that is no command goes to the server
-- in one message; the server's loop, when it gets its size and payload, changes nothing and sends the line
-- with the sender's name to the other player alone; and the other player's client, which waits for its
-- user's move, prints both. The room is found and has two players and no spectators, the other socket is
-- open, and the name and the line fit one message together.
pub chat_heard :
    (inner buf buffer other_buffer line more : Bytes) (s : Server) (i r j : ℕ)
    (server_buffer scratch : Bytes) (rand : ℕ)
    → length buf ≡ buf_size
    → length buffer ≡ buf_size
    → length other_buffer ≡ buf_size
    → length server_buffer ≡ buf_size
    → length scratch ≡ buf_size
    → IsLine line
    → IsPlain line
    → IsString (s.clients i).name
    → length (s.clients i).name + length line + 5 ≤ buf_size
    → i < s.nb_clients
    → find_room s (s.clients i).room_id ≡ some r
    → r < max_rooms
    → (s.rooms r).game.nb_players ≡ 2
    → (s.rooms r).game.nb_spectators ≡ 0
    → j < 2
    → eq_ℤ ((s.rooms r).game.players j).id (s.clients i).sock ≡ true
    → eq_ℤ ((s.rooms r).game.players (1 - j)).id (s.clients i).sock ≡ false
    → IsOpen ((s.rooms r).game.players (1 - j)).id
    → (payload told : Bytes) × (buffer1 buffer2 buffer3 : Bytes) × (app_step inner buf in_game
          buffer
          (types (some (line ++ b'\n' ∷ more)))
        ≡ some (
            runs in_game buffer1
              (sent (u16_bytes (length payload) ++ payload) ∷ print_line "Message Sent\n")))
      × (step s server_buffer
            (talks i (some (u16_bytes (length payload))) (some payload) scratch rand)
          ≡ some (
            record s { current_client = i },
            buffer2,
            (((s.rooms r).game.players (1 - j)).id, told) ∷ [],
          ))
      × (app_step inner buf waiting_play_input other_buffer (gets told)
          ≡ some (
              runs waiting_play_input buffer3 (
                printed (codes "(" ++ ((s.clients i).name ++ (codes ") " ++ (line ++ codes "\n"))))
                ∷ [])))
unfolding find_room handlers_init handle_message
chat_heard inner buf buffer other_buffer line more s i r j server_buffer scratch rand room room1
      room2 room3 room4 h plain name fits present found small two nobody hj mine theirs opened =
    let (payload, typed, stepped) =
      typed_text inner buf in_game buffer line more (send_message line) in_game
        (print_line "Message Sent\n") s i server_buffer scratch rand room room1 h
        (omega (arith, fits)) plain refl present room3 in
    (
      payload,
      frame (chat_payload (s.clients i).name line),
      line ++ 0 ∷ 0 ∷ drop (length line + 2) buffer,
      payload ++ 0 ∷ rest server_buffer payload,
      chat_payload (s.clients i).name line
          ++ 0 ∷ left other_buffer (chat_payload (s.clients i).name line),
      typed,
      stepped
          ∙ rw
              (send_message_lem (record s { current_client = i }) scratch line r j room4 fits found
                small two nobody hj mine theirs opened)
              refl,
      heard (s.clients i).name line inner buf other_buffer waiting_play_input name
          (IsLine-IsString line h) fits room2,
    )
