-- ===== src/Client/Overflow.antt =====
-- What the 1024 bytes of `buf` in `handle_user_input` of client/src/state.c have no room for.
use awale_online.Prelude.{
  ℕ, ◌+◌, ◌<◌, ◌≡◌, ◌≢◌, refl, ap, ◌%◌, ◌^◌, Bool, true, false, none, some, List, ◌∷◌, ◌++◌, length,
  drop, arith, length-drop, inl, inr, Bool-cases,
}
use awale_online.Wire.{Bytes, buf_size, codes, store, write_text, terminated}
use awale_online.Wire.Lengths.{store_front-short}
use awale_online.Wire.Laws.{write_header_lem, length-terminated}
use awale_online.Server.State.{same_string}
use awale_online.Server.Lookup.{same_string_iff}
use awale_online.Client.Writers.{write_connect, write_send_message, write_set_biography}
use awale_online.Client.State.{
  State, connecting, in_room, in_game, spectating, waiting_bio_input, Output, Reaction,
}
use awale_online.Client.Input.{send_then, talk, input_in, starts_with_eof, handle_user_input}
use awale_online.Client.Loop.{types, app_step}
use awale_online.Client.Lines.{IsLine, app_step-typed}

write_text-short :
    (kind : ℕ) (buf text : Bytes)
    → length buf ≡ buf_size
    → buf_size < length text + 4
    → write_text kind buf text ≡ none
unfolding write_text store
write_text-short kind buf text room h =
    rw
      (
        write_header_lem buf ((length text + 2) % 2 ^ 16) kind (omega arith),
        store_front-short (drop 3 buf) (terminated text)
            (omega (arith, length-drop 3 buf, length-terminated text)),
      )
      refl

-- A long line is no command.
same_string-long : (a b : Bytes) → length a ≢ length b → same_string a b ≡ false
same_string-long a b h = elim (Bool-cases (same_string a b)) [
  | inl same ↦ absurd (h (ap (λ (s : Bytes). length s) ((same_string_iff a b).0 same)))
  | inr other ↦ other
]

-- The states in which every line but a command is sent as it is.
abbrev pub sends_line : State → Bool
sends_line connecting = true
sends_line waiting_bio_input = true
sends_line in_room = true
sends_line spectating = true
sends_line in_game = true
sends_line state = false

talk-short :
    (inner buf line : Bytes) (stay : List Output → Reaction)
    → length buf ≡ buf_size
    → buf_size < length line + 4
    → talk inner buf line stay ≡ none
unfolding talk write_send_message
talk-short inner buf line stay room h =
    rw
      (
        same_string-long line (codes "/leave") (λ e. omega (arith, e)),
        write_text-short 5 buf line room h,
      )
      refl

input_in-short :
    (state : State) (inner buf line : Bytes)
    → sends_line state ≡ true
    → length buf ≡ buf_size
    → buf_size < length line + 4
    → input_in state inner buf line ≡ none
unfolding input_in send_then write_connect write_set_biography
input_in-short connecting inner buf line s room h = rw (write_text-short 0 buf line room h) refl
input_in-short waiting_bio_input inner buf line s room h =
    rw (write_text-short 6 buf line room h) refl
input_in-short in_room inner buf line s room h =
    talk-short inner buf line (λ outputs. some (in_room, outputs)) room h
input_in-short spectating inner buf line s room h =
    talk-short inner buf line (λ outputs. some (spectating, outputs)) room h
input_in-short in_game inner buf line s room h =
    talk-short inner buf line (λ outputs. some (in_game, outputs)) room h
input_in-short _ inner buf line s room h = cc

-- A line of 1021 bytes is read whole, but not sent: in a state that sends lines as they are, the round
-- writes behind the end of a local buffer, unless the line starts with the byte 255.
pub line_overflows :
    (inner buf : Bytes) (state : State) (buffer line more : Bytes)
    → length buf ≡ buf_size
    → length buffer ≡ buf_size
    → IsLine line
    → length line + 3 ≡ buf_size
    → starts_with_eof line ≡ false
    → sends_line state ≡ true
    → app_step inner buf state buffer (types (some (line ++ b'\n' ∷ more))) ≡ none
unfolding handle_user_input
line_overflows inner buf state buffer line more room room' h long no_end sends =
    rw (app_step-typed inner buf state buffer line more room' h (omega arith)) (
      rw
        (
          no_end,
          same_string-long (codes "/close") line (λ e. omega (arith, e)),
          input_in-short state inner buf line sends room (omega arith),
        )
        refl)
