-- ===== src/System/Texts.antt =====
-- A line that goes to the server as it is: a name, a biography, a message (`handle_user_input` of
-- client/src/state.c, the loop of server/src/server.c).
use awale_online.Prelude.{
  ℕ, ◌+◌, ◌≤◌, ◌<◌, ◌≡◌, refl, false, Option, none, some, List, [], ◌∷◌, ◌++◌, length, drop, arith,
  ◌>>=◌, Ensures, Ensures-some,
}
use awale_online.Wire.{Bytes, buf_size, codes, u16_bytes}
use awale_online.Wire.Laws.{Frames}
use awale_online.Protocol.ToServer.{
  ClientMessage, IsText, connect, send_message, set_biography, write, call, IsSendable,
}
use awale_online.Server.State.{Server, same_string}
use awale_online.Server.Loop.{handlers_init, talks, step}
use awale_online.Server.Delivery.{rest, step-client_write}
use awale_online.Client.State.{
  State, connecting, waiting_connection, connected, in_room, in_game, waiting_bio_input, spectating,
  Output, Reaction, sent, print_line, action_choose, set_current_state, enter,
}
use awale_online.Client.Input.{send_then, talk, input_in, starts_with_eof, handle_user_input}
use awale_online.Client.Loop.{types, runs, app_step}
use awale_online.Client.Lines.{IsLine, IsLine-IsString, app_step-typed}
use awale_online.Client.Typed.{write_server-Frames}

-- What a line means to the server, in a state where it is a text: the message, the state behind it, and
-- what the user is shown.
abbrev pub meaning : State → Bytes → Option (ClientMessage × State × List Output)
meaning connecting line = some (connect line, waiting_connection, [])
meaning waiting_bio_input line = some (set_biography line, connected, action_choose)
meaning in_room line = some (send_message line, in_room, print_line "Message Sent\n")
meaning spectating line = some (send_message line, spectating, print_line "Message Sent\n")
meaning in_game line = some (send_message line, in_game, print_line "Message Sent\n")
meaning state line = none

-- No command, and not the byte that stands for the end of the input.
abbrev pub IsPlain : Bytes → Type 0
IsPlain line =
    (starts_with_eof line ≡ false)
    × (same_string (codes "/close") line ≡ false)
    × (same_string line (codes "/leave") ≡ false)

-- A line that is sent as a message of the room.
talk_round :
    (inner buf line : Bytes) (stay : List Output → Reaction) (payload : Bytes)
    → IsPlain line
    → Frames (write (send_message line) buf) payload
    → talk inner buf line stay
      ≡ stay (sent (u16_bytes (length payload) ++ payload) ∷ print_line "Message Sent\n")
unfolding talk
talk_round inner buf line stay payload (no_end, not_close, not_leave) frames =
    let (written, told, out) = write_server-Frames (write (send_message line) buf) payload frames in
    rw (not_leave, told, out) refl

-- What a text does in the client.
abbrev Goes : Bytes → Bytes → State → Bytes → ClientMessage × State × List Output → Type 0
Goes inner buf state line (m, state', outputs) =
    (payload : Bytes)
    → Frames (write m buf) payload
    → input_in state inner buf line
      ≡ some (state', sent (u16_bytes (length payload) ++ payload) ∷ outputs)

text_round :
    (inner buf : Bytes) (state : State) (line : Bytes)
    → IsPlain line
    → Ensures (Goes inner buf state line) (meaning state line)
unfolding input_in send_then enter set_current_state
text_round inner buf connecting line plain = λ payload frames.
    let (written, told, out) = write_server-Frames (write (connect line) buf) payload frames in
    rw (told, out) refl
text_round inner buf waiting_bio_input line plain = λ payload frames.
    let (written, told, out) =
      write_server-Frames (write (set_biography line) buf) payload frames in
    rw (told, out) refl
text_round inner buf in_room line plain = λ payload frames.
    talk_round inner buf line (λ outputs. some (in_room, outputs)) payload plain frames
text_round inner buf spectating line plain = λ payload frames.
    talk_round inner buf line (λ outputs. some (spectating, outputs)) payload plain frames
text_round inner buf in_game line plain = λ payload frames.
    talk_round inner buf line (λ outputs. some (in_game, outputs)) payload plain frames
text_round inner buf _ line plain = tt

text-IsSendable :
    (state : State) (line : Bytes)
    → IsText line
    → Ensures (λ r. IsSendable r.0) (meaning state line)
text-IsSendable connecting line h = h
text-IsSendable waiting_bio_input line h = h
text-IsSendable in_room line h = h
text-IsSendable spectating line h = h
text-IsSendable in_game line h = h
text-IsSendable _ line h = tt

-- A text goes from the keyboard of one user to its handler on the server: a line of 1020 bytes at most
-- that is no command is one message, a name where the client has not connected, a biography where one is
-- asked for, and a message to the room in the room, in a game and for a spectator. The client's round
-- reads it and sends the message; the server's loop, when it gets its size and payload, runs the
-- message's handler on that line, for the client that sent it.
pub typed_text :
    (inner buf : Bytes) (state : State) (buffer line more : Bytes) (m : ClientMessage)
    (state' : State) (outputs : List Output) (s : Server) (i : ℕ) (server_buffer scratch : Bytes)
    (rand : ℕ)
    → length buf ≡ buf_size
    → length buffer ≡ buf_size
    → IsLine line
    → length line + 4 ≤ buf_size
    → IsPlain line
    → meaning state line ≡ some (m, state', outputs)
    → i < s.nb_clients
    → length server_buffer ≡ buf_size
    → (payload : Bytes) × (app_step inner buf state buffer (types (some (line ++ b'\n' ∷ more)))
        ≡ some (
            runs state'
              (line ++ 0 ∷ 0 ∷ drop (length line + 2) buffer)
              (sent (u16_bytes (length payload) ++ payload) ∷ outputs)))
      × (step s server_buffer
            (talks i (some (u16_bytes (length payload))) (some payload) scratch rand)
          ≡ (call m (handlers_init scratch rand) (record s { current_client = i })
              >>= λ (s', sends). some (s', payload ++ 0 ∷ rest server_buffer payload, sends)))
unfolding handle_user_input
typed_text inner buf state buffer line more m state' outputs s i server_buffer scratch rand room
      room' h fits plain meant inside space =
    let ok =
      Ensures-some (λ r. IsSendable r.0) (meaning state line)
        (text-IsSendable state line (IsLine-IsString line h, fits)) meant in
    let (payload, frames, stepped) =
      step-client_write m buf s i server_buffer scratch rand room ok inside space in
    let taken =
      Ensures-some (Goes inner buf state line) (meaning state line)
        (text_round inner buf state line plain) meant payload frames in
    (
      payload,
      rw
          (
            app_step-typed inner buf state buffer line more room' h (omega arith),
            plain.0,
            plain.1,
            taken,
          )
          refl,
      stepped,
    )
