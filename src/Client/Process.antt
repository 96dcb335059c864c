-- ===== src/Client/Process.antt =====
-- The client's process: `main` and `app` of client/src/app.c, with `init_connection` of
-- client/src/client.c. What the system calls give is the environment's.
pub mod Asked
use awale_online.Prelude.{
  ℕ, Bool, true, false, Option, none, some, List, [], ◌∷◌, ◌++◌, ◌==◌, if◌then◌else◌, ◌>>=◌,
}
use awale_online.Wire.{Bytes, codes}
use awale_online.Client.State.{State, connecting, Output, printed, print_line, set_current_state}
use awale_online.Client.Loop.{types, receives, Next, runs, stops, app_step}

pub data SetUp : Type 0 where
  connects : ℕ → SetUp
  -- `exit`
  gives_up : SetUp

-- `init_connection`, with what `socket` gives, whether `gethostbyname` knows the host, and whether
-- `connect` succeeds
unfoldable pub init_connection : Option ℕ → Bool → Bool → SetUp
init_connection none known accepted = gives_up
init_connection (some sock) known accepted =
    if known then (if accepted then connects sock else gives_up) else gives_up

-- `select`: an error, or whether the terminal and the socket are ready
pub data Select : Type 0 where
  fails : Select
  ready : Bool → Bool → Select

-- What the system calls of one round give, and the contents of the local buffers of the handlers.
pub record Calls : Type 0 where
  pub select : Select
  pub line : Option Bytes
  pub header : Option Bytes
  pub body : Option Bytes
  pub inner : Bytes
  pub buf : Bytes

-- A round of `app`: the terminal comes before the socket.
unfoldable pub app_turn : State → Bytes → Calls → Option Next
app_turn state buffer calls = elim calls.select [
  | fails ↦ some (stops [])
  | ready keyboard socket ↦
      if keyboard
      then app_step calls.inner calls.buf state buffer (types calls.line)
      else if socket
      then app_step calls.inner calls.buf state buffer (receives calls.header calls.body)
      else some (runs state buffer [])
]

-- What the loop prints and sends over these rounds, until it stops.
unfoldable pub app_loop : State → Bytes → List Calls → Option (List Output)
app_loop state buffer [] = some []
app_loop state buffer (calls ∷ more) = app_turn state buffer calls >>= λ next. elim next [
  | stops outputs ↦ some outputs
  | runs state' buffer' outputs ↦ app_loop state' buffer' more >>= λ later. some (outputs ++ later)
]

-- `app`; `inner` and `buffer` are not initialised.
unfoldable pub app : SetUp → Bytes → Bytes → List Calls → Option (List Output)
unfolding app_loop
app gives_up inner buffer rounds = some []
app (connects sock) inner buffer rounds = do
  (state, asked) ← set_current_state inner connecting
  later ← app_loop state buffer rounds
  some (asked ++ later)

abbrev pub welcome : List Output
welcome = print_line "Welcome in Awale Online !\nYou can quit at any moment by typing /close\n"

-- `main`, by the number of its arguments and the name of the program
unfoldable pub main : ℕ → Bytes → SetUp → Bytes → Bytes → List Calls → Option (List Output)
unfolding app
main argc program set_up inner buffer rounds =
    if argc == 2
    then (do outputs ← app set_up inner buffer rounds; some (welcome ++ outputs))
    else some (printed (codes "Usage : " ++ (program ++ codes " [address] \n")) ∷ [])
