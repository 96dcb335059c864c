-- ===== src/Server/Process/Watched.antt =====
-- Which descriptors `select` looks at (server/src/server.c).
use mathlib.Core.List.{Perm, Mem, mem-append, not-mem-nil, eq-or-mem_of_mem-cons}
use mathlib.Core.List.Perm
use mathlib.Core.Logic.Or
use native.Mathlib.Bridge.{le_prop}
use awale_online.Prelude.{
  ℕ, ◌≤◌, ◌<◌, sym, true, false, Option, none, some, List, [], ◌∷◌, ◌++◌, arith, Ensures,
  Ensures-bind, Ensures-some, ℤ, pos, negsuc, subst,
}
use awale_online.Server.State.{first}
use awale_online.Server.Loop.{read_client, connects, step}
use awale_online.Server.Process.{
  App, Calls, Select, fails, ready, Turn, goes_on, stops, exits, accept_round, talk_round,
  app_round, Runs, enters, turns, client_sockets, watched_sockets, nfds,
}
use awale_online.Server.Process.Sockets.{sockets}
use awale_online.Server.Process.Closed.{Balanced, app_round-Balanced}

-- A descriptor below a bound.
abbrev pub IsBelow : ℕ → ℤ → Type 0
IsBelow n (pos fd) = fd < n
IsBelow n (negsuc k) = ⊥

IsBelow-prop : (n : ℕ) (z : ℤ) → IsProp (IsBelow n z)
IsBelow-prop n (pos fd) = le_prop
IsBelow-prop n (negsuc k) = hlevel

IsBelow-le : (m n : ℕ) (z : ℤ) → m ≤ n → IsBelow m z → IsBelow n z
IsBelow-le m n (pos fd) le h = omega (arith, le, h)
IsBelow-le m n (negsuc k) le h = h

abbrev AllBelow : ℕ → List ℤ → Type 0
AllBelow n zs = (z : ℤ) → Mem z zs → IsBelow n z

AllBelow-append : (n : ℕ) (a b : List ℤ) → AllBelow n a → AllBelow n b → AllBelow n (a ++ b)
AllBelow-append n a b below_a below_b z here =
    Or.elim (IsBelow-prop n z) (mem-append.0 here) (below_a z) (below_b z)

AllBelow-one : (n fd : ℕ) → fd < n → AllBelow n (pos fd ∷ [])
AllBelow-one n fd h z here =
    Or.elim (IsBelow-prop n z) (eq-or-mem_of_mem-cons here) (λ e. subst (IsBelow n) (sym e) h)
      (λ none_left. absurd (not-mem-nil none_left))

-- The largest descriptor does not fall, and is as large as what a round opens.
abbrev Raised : App → Turn → Type 0
Raised app (goes_on app' sends opens closes) = (app.max ≤ app'.max) × AllBelow (nfds app') opens
Raised app stops = Unit {0}
Raised app exits = Unit {0}

app_round-Raised : (app : App) (calls : Calls) → Ensures (Raised app) (app_round app calls)
unfolding app_round accept_round talk_round
app_round-Raised app calls = by_select calls.select
  where
    unchanged : (app.max ≤ app.max) × AllBelow (nfds app) []
    unchanged = (omega arith, λ z here. absurd (not-mem-nil here))

    by_accept :
        (o : Option ℕ) → Ensures (Raised app) (accept_round app (record calls { accept = o }))
    by_accept none = unchanged
    by_accept (some csock) =
        Ensures-bind (Raised app) (step app.server app.buffer (connects (pos csock))) _
          λ r. (ground arith, AllBelow-one _ csock (ground arith))

    by_client :
        (o : Option ℕ)
        → Ensures
            (Raised app)
            (elim o [ none ↦ some (goes_on app [] [] []) | some i ↦ talk_round app calls i ])
    by_client none = unchanged
    by_client (some i) =
        Ensures-bind (Raised app) (read_client app.buffer calls.header calls.body) _
          λ read. Ensures-bind (Raised app) (step app.server app.buffer _) _ λ r. unchanged

    by_select : (o : Select) → Ensures (Raised app) (app_round app (record calls { select = o }))
    by_select fails = tt
    by_select (ready true connection clients) = tt
    by_select (ready false true clients) = by_accept calls.accept
    by_select (ready false false clients) =
        by_client (first (λ i. clients (app.server.clients i).sock) app.server.nb_clients 0)

-- What stays of the sockets after a round was there before it, or is new.
AllBelow-Balanced :
    (n : ℕ) (before after opens closes : List ℤ)
    → Perm (closes ++ after) (opens ++ before)
    → AllBelow n opens
    → AllBelow n before
    → AllBelow n after
AllBelow-Balanced n before after opens closes balanced new old z here =
    AllBelow-append n opens before new old z
      ((Perm.mem_iff balanced).0 (mem-append.1 (Or.inr here)))

sockets-below :
    (sock : ℕ) (app : App) (opened closed : List ℤ)
    → Runs sock app opened closed
    → (sock ≤ app.max) × AllBelow (nfds app) (sockets app.server)
unfolding client_sockets
sockets-below sock app _ _ (enters _ socket bound listening set_up no_clients no_rooms top) =
    (omega (arith, top), rw no_clients (λ z here. absurd (not-mem-nil here)))
sockets-below sock app' _ _ (turns app _ calls sends opened closed opens closes before turn) =
    let (listening, old) = sockets-below sock app opened closed before in
    let balanced =
      Ensures-some (Balanced app.server) (app_round app calls) (app_round-Balanced app calls)
        turn in
    let (higher, new) =
      Ensures-some (Raised app) (app_round app calls) (app_round-Raised app calls) turn in
    (
      omega (arith, listening, higher),
      AllBelow-Balanced (nfds app') (sockets app.server) (sockets app'.server) opens closes balanced
          new (λ z here. IsBelow-le (nfds app) (nfds app') z (omega (arith, higher)) (old z here)),
    )

-- While the server runs, `select` looks at every descriptor that the loop puts in its set: the keyboard,
-- the socket that listens and the sockets of all clients are below the number that it is given.
pub watched-IsBelow :
    (sock : ℕ) (app : App) (opened closed : List ℤ) (z : ℤ)
    → Runs sock app opened closed
    → Mem z (watched_sockets sock app.server)
    → IsBelow (nfds app) z
unfolding watched_sockets
watched-IsBelow sock app opened closed z runs here =
    let (listening, clients) = sockets-below sock app opened closed runs in
    AllBelow-append (nfds app) (pos 0 ∷ []) (pos sock ∷ sockets app.server)
      (AllBelow-one (nfds app) 0 (omega arith))
      (AllBelow-append (nfds app) (pos sock ∷ []) (sockets app.server)
        (AllBelow-one (nfds app) sock (omega (arith, listening))) clients)
      z here
