-- ===== src/Client/Process/Asked.antt =====
-- The moves that the client's process sends, against what it is told (`main` of client/src/app.c).
use awale_online.Prelude.{
  ℕ, ◌+◌, ◌≤◌, ◌≡◌, arith, refl, true, false, Option, none, some, List, [], ◌∷◌, ◌++◌, Ensures,
  Ensures-then, Ensures-if, Ensures-some, Ensures-map, ◌==◌, ◌>>=◌,
}
use awale_online.Wire.{Bytes}
use awale_online.Client.State.{State, connecting, Output, set_current_state}
use awale_online.Client.Loop.{Next, runs, stops}
use awale_online.Client.Asked.{Fair, plays, plays_append, armed}
use awale_online.Client.Answers.{asks_payload}
use awale_online.Client.Moves.{FairLine, line-Fair, FairMessage, message-Fair}
use awale_online.Client.Process.{
  SetUp, connects, gives_up, Select, fails, ready, Calls, app_turn, app_loop, app, main,
}

-- Whether a round that leaves `buffer` has read a message that lets the user move.
abbrev pub asks_round : Select → Bytes → ℕ
asks_round fails buffer = 0
asks_round (ready true socket) buffer = 0
asks_round (ready false true) buffer = asks_payload buffer
asks_round (ready false false) buffer = 0

-- How many of the messages of a run let the user move.
abbrev pub asked_turn : Select → (State → Bytes → ℕ) → Option Next → ℕ
asked_turn select later none = 0
asked_turn select later (some (stops outputs)) = 0
asked_turn select later (some (runs state buffer outputs)) =
    asks_round select buffer + later state buffer

abbrev pub asked_moves : List Calls → State → Bytes → ℕ
asked_moves [] state buffer = 0
asked_moves (calls ∷ more) state buffer =
    asked_turn calls.select (asked_moves more) (app_turn state buffer calls)

abbrev FairTurn : State → Select → Next → Type 0
FairTurn state select (runs state' buffer outputs) =
    Fair state (asks_round select buffer) (state', outputs)
FairTurn state select (stops outputs) = plays outputs ≡ 0

app_turn-Fair :
    (state : State) (buffer : Bytes) (calls : Calls)
    → Ensures (FairTurn state calls.select) (app_turn state buffer calls)
unfolding app_turn
app_turn-Fair state buffer calls = by_select calls.select
  where
    by_select :
        (o : Select)
        → Ensures (FairTurn state o) (app_turn state buffer (record calls { select = o }))
    by_select fails = refl
    by_select (ready true socket) =
        Ensures-map (FairLine state) (FairTurn state (ready true socket)) _
          (line-Fair calls.inner calls.buf state buffer calls.line)
          (elim [ runs state' buffer' outputs ↦ λ h. h | stops outputs ↦ λ h. h ])
    by_select (ready false true) =
        Ensures-map (FairMessage state) (FairTurn state (ready false true)) _
          (message-Fair calls.inner calls.buf state buffer calls.header calls.body)
          (elim [ runs state' buffer' outputs ↦ λ h. h | stops outputs ↦ λ h. h ])
    by_select (ready false false) = omega arith

-- A round, and the rounds behind it.
turn-plays :
    (state : State) (select : Select) (more : List Calls) (turn : Option Next)
    → Ensures (FairTurn state select) turn
    → ((state' : State) (buffer' : Bytes)
        → Ensures
            (λ outputs. plays outputs ≤ armed state' + asked_moves more state' buffer')
            (app_loop state' buffer' more))
    → Ensures
        (λ outputs. plays outputs ≤ armed state + asked_turn select (asked_moves more) turn)
        (turn >>= λ next. elim next [
          | stops outputs ↦ some outputs
          | runs state' buffer' outputs ↦
              app_loop state' buffer' more >>= λ later. some (outputs ++ later)
        ])
turn-plays state select more none fair rest = tt
turn-plays state select more (some (stops outputs)) fair rest = omega (arith, fair)
turn-plays state select more (some (runs state' buffer' outputs)) fair rest =
    Ensures-then
      (λ l. plays l ≤ armed state + (asks_round select buffer' + asked_moves more state' buffer'))
      (λ l. plays l ≤ armed state' + asked_moves more state' buffer') (app_loop state' buffer' more)
      _ (rest state' buffer') (λ l h. omega (arith, plays_append outputs l, fair, h))

app_loop-plays :
    (rounds : List Calls) (state : State) (buffer : Bytes)
    → Ensures
        (λ outputs. plays outputs ≤ armed state + asked_moves rounds state buffer)
        (app_loop state buffer rounds)
unfolding app_loop
app_loop-plays [] state buffer = omega arith
app_loop-plays (calls ∷ more) state buffer =
    turn-plays state calls.select more (app_turn state buffer calls)
      (app_turn-Fair state buffer calls) (app_loop-plays more)

app_bound :
    (set_up : SetUp) (inner buffer : Bytes) (rounds : List Calls)
    → Ensures
        (λ outputs. plays outputs ≤ asked_moves rounds connecting buffer)
        (app set_up inner buffer rounds)
unfolding app set_current_state
app_bound gives_up inner buffer rounds = omega arith
app_bound (connects sock) inner buffer rounds =
    Ensures-then (λ l. plays l ≤ asked_moves rounds connecting buffer)
      (λ l. plays l ≤ asked_moves rounds connecting buffer) (app_loop connecting buffer rounds) _
      (Ensures-map (λ l. plays l ≤ armed connecting + asked_moves rounds connecting buffer)
        (λ l. plays l ≤ asked_moves rounds connecting buffer) (app_loop connecting buffer rounds)
        (app_loop-plays rounds connecting buffer) (λ l h. omega (arith, h)))
      (λ l h. omega (arith, h))

main_bound :
    (argc : ℕ) (program : Bytes) (set_up : SetUp) (inner buffer : Bytes) (rounds : List Calls)
    → Ensures
        (λ outputs. plays outputs ≤ asked_moves rounds connecting buffer)
        (main argc program set_up inner buffer rounds)
unfolding main
main_bound argc program set_up inner buffer rounds =
    Ensures-if (λ l. plays l ≤ asked_moves rounds connecting buffer) (argc == 2) _ _
      (λ _.
        Ensures-then (λ l. plays l ≤ asked_moves rounds connecting buffer)
          (λ l. plays l ≤ asked_moves rounds connecting buffer) (app set_up inner buffer rounds) _
          (app_bound set_up inner buffer rounds) (λ l h. omega (arith, h)))
      (λ _. omega arith)

-- Whatever the user types, the server sends and the system calls give: of all that the process prints
-- and sends, from the start of `main` to the last of the rounds, or to its end where that comes first, the PLAY
-- messages are at most as many as the messages it has read that may let its user move.
pub main-asked :
    (argc : ℕ) (program : Bytes) (set_up : SetUp) (inner buffer : Bytes) (rounds : List Calls)
    (outputs : List Output)
    → main argc program set_up inner buffer rounds ≡ some outputs
    → plays outputs ≤ asked_moves rounds connecting buffer
main-asked argc program set_up inner buffer rounds outputs done =
    Ensures-some (λ l. plays l ≤ asked_moves rounds connecting buffer)
      (main argc program set_up inner buffer rounds)
      (main_bound argc program set_up inner buffer rounds) done
