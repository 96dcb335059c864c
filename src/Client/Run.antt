-- ===== src/Client/Run.antt =====
-- The runs of `app` (client/src/app.c): the loop from its first state on, and the moves it sends.
use awale_online.Prelude.{
  ℕ, ◌+◌, ◌≤◌, ◌≡◌, ap, arith, Option, some, List, [], ◌∷◌, ◌++◌, Ensures-some,
}
use awale_online.Wire.{Bytes}
use awale_online.Client.State.{State, connecting, Output, set_current_state}
use awale_online.Client.Loop.{types, receives, runs, app_step}
use awale_online.Client.Asked.{Fair, plays, plays_append, armed, Sets, set_current_state-Sets}
use awale_online.Client.Answers.{asks_payload}
use awale_online.Client.Moves.{FairLine, line-Fair, FairMessage, message-Fair}

-- After some rounds: the state, the buffer, all the outputs so far, and the payloads of the messages
-- so far, the last one first, each with the rest of the buffer behind it.
pub data Run : State → Bytes → List Output → List Bytes → Type 0 where
  begins :
      {buffer : Bytes} {state : State} {outputs : List Output} (inner : Bytes)
      → set_current_state inner connecting ≡ some (state, outputs)
      → Run state buffer outputs []
  reads_line :
      {state state' : State} {buffer buffer' : Bytes} {before outputs : List Output}
      {payloads : List Bytes} (inner buf : Bytes) (stream : Option Bytes)
      → Run state buffer before payloads
      → app_step inner buf state buffer (types stream) ≡ some (runs state' buffer' outputs)
      → Run state' buffer' (before ++ outputs) payloads
  reads_message :
      {state state' : State} {buffer buffer' : Bytes} {before outputs : List Output}
      {payloads : List Bytes} (inner buf : Bytes) (header body : Option Bytes)
      → Run state buffer before payloads
      → app_step inner buf state buffer (receives header body) ≡ some (runs state' buffer' outputs)
      → Run state' buffer' (before ++ outputs) (buffer' ∷ payloads)

-- How many messages among these let the user move: PLAYED, GAME_START and INVALID_PLAY.
abbrev pub asked : List Bytes → ℕ
asked [] = 0
asked (payload ∷ payloads) = asks_payload payload + asked payloads

-- What a round adds.
step_bound :
    (before outputs : List Output) (state state' : State) (payloads : List Bytes) (more : ℕ)
    → plays before + armed state ≤ asked payloads
    → Fair state more (state', outputs)
    → plays (before ++ outputs) + armed state' ≤ more + asked payloads
step_bound before outputs state state' payloads more h fair =
    omega (arith, plays_append before outputs, h, fair)

armed_bound :
    {state : State} {buffer : Bytes} {outputs : List Output} {payloads : List Bytes}
    → Run state buffer outputs payloads
    → plays outputs + armed state ≤ asked payloads
armed_bound (begins {buffer} {state} {outputs} inner e) =
    let (same, quiet) =
      Ensures-some (Sets connecting) (set_current_state inner connecting)
        (set_current_state-Sets inner connecting) e in
    omega (arith, ap armed same, quiet)
armed_bound
      (reads_line {state} {state'} {buffer} {buffer'} {before} {outputs} {payloads} inner buf stream
        run e) =
    omega (
      arith,
      step_bound before outputs state state' payloads 0 (armed_bound run) (
          Ensures-some (FairLine state) (app_step inner buf state buffer (types stream))
            (line-Fair inner buf state buffer stream) e),
    )
armed_bound
      (reads_message {state} {state'} {buffer} {buffer'} {before} {outputs} {payloads} inner buf
        header body run e) =
    step_bound before outputs state state' payloads (asks_payload buffer') (armed_bound run) (
      Ensures-some (FairMessage state) (app_step inner buf state buffer (receives header body))
        (message-Fair inner buf state buffer header body) e)

-- In every run of the client, the PLAY messages that it has sent are at most as many as the messages it
-- has read that may let its user move: PLAYED, GAME_START and INVALID_PLAY.
pub moves_asked :
    {state : State} {buffer : Bytes} {outputs : List Output} {payloads : List Bytes}
    → Run state buffer outputs payloads
    → plays outputs ≤ asked payloads
moves_asked {state} run = omega (arith, armed_bound run)
