-- ===== src/Client/Tests/Lines.antt =====
-- Lines and messages at concrete states of the client.
use awale_online.Prelude.{
  ℕ, zero, suc, get_or, get_or-le-sum, ◌<◌, ◌≡◌, refl, none, some, [], ◌∷◌, ◌++◌, length, replicate,
  length-replicate, arith, ◌>>=◌,
}
use awale_online.Wire.{Bytes, u16_bytes}
use awale_online.Wire.Laws.{Frames}
use awale_online.Wire.Samples.{scratch, scratch-length, bob}
use awale_online.Protocol.ToClient.{write, call, player_joined_room}
use awale_online.Client.State.{State, connecting, in_game}
use awale_online.Client.Board.{action_show_board}
use awale_online.Client.Board.Width.{widths}
use awale_online.Client.Board.Aligned.{show_board-widths}
use awale_online.Client.Handlers.{client_handlers}
use awale_online.Client.Loop.{types, receives, Next, runs, app_step}
use awale_online.Client.Lines.{IsLine}
use awale_online.Client.Fits.{line_fits}
use awale_online.Client.Overflow.{line_overflows}
use awale_online.Client.Delivery.{left, app_step-server_write}

-- A position with a house of twelve seeds.
abbrev board : Bytes
board = 0 ∷ 1 ∷ 2 ∷ 3 ∷ 4 ∷ 5 ∷ 12 ∷ 0 ∷ 0 ∷ 1 ∷ 7 ∷ 2 ∷ []

small_houses : (i : ℕ) → i < 12 → get_or board i 0 < 100
small_houses i h = omega (arith, get_or-le-sum board i)

show_board-widths_example :
    (text : Bytes) × (action_show_board 10 1 board ≡ some text)
    × (widths text ≡ 0 ∷ (replicate 9 25 ++ 0 ∷ []))
show_board-widths_example =
    show_board-widths 10 1 board (omega arith) (omega arith) (omega arith, small_houses)

line_fits_example :
    (next : Next) × (app_step scratch scratch connecting scratch (types (some (bob ++ b'\n' ∷ [])))
      ≡ some next)
line_fits_example =
    line_fits scratch scratch connecting scratch bob [] scratch-length scratch-length scratch-length
      (omega arith) (omega arith)

-- A line of one letter, repeated.
abbrev long_line : ℕ → Bytes
long_line n = replicate n b'x'

long_line-IsLine : (n : ℕ) → IsLine (long_line n)
long_line-IsLine zero = tt
long_line-IsLine (suc n) = (λ e. omega (arith, e), λ e. omega (arith, e), long_line-IsLine n)

line_overflows_example :
    app_step scratch scratch in_game scratch (types (some (long_line 1021 ++ b'\n' ∷ []))) ≡ none
line_overflows_example =
    line_overflows scratch scratch in_game scratch (long_line 1021) [] scratch-length scratch-length
      (long_line-IsLine 1021) (omega (arith, length-replicate {A = ℕ} 1021 b'x')) refl refl

app_step-server_write_example :
    (payload : Bytes) × Frames (write (player_joined_room bob) scratch) payload
    × ((state : State)
        → app_step scratch scratch state scratch
            (receives (some (u16_bytes (length payload))) (some payload))
          ≡ (call
                (player_joined_room bob)
                (client_handlers scratch)
                (0 ∷ left scratch payload)
                state
              >>= λ (state', outputs).
                  some (runs state' (payload ++ 0 ∷ left scratch payload) outputs)))
app_step-server_write_example =
    app_step-server_write (player_joined_room bob) scratch scratch scratch scratch scratch-length
      (omega arith) scratch-length
