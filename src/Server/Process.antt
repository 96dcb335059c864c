-- ===== src/Server/Process.antt =====
-- The server's process (server/src/server.c): its sockets from `init_connection` to `end_connection`,
-- and the rounds of `app` by what `select` finds ready. What the system calls give is the environment's.
pub mod Sockets
pub mod Closed
pub mod Reached
pub mod Served
pub mod Watched
use awale_online.Prelude.{
  ℕ, zero, suc, ◌+◌, Bool, true, false, Option, none, some, List, [], ◌∷◌, ◌++◌, ℤ, pos, ◌≡◌, ltb,
  ◌==◌, if◌then◌else◌, ◌>>=◌,
}
use awale_online.Wire.{Bytes}
use awale_online.Server.State.{Client, Server, Send, first}
use awale_online.Server.Loop.{Recv, read_client, connects, talks, step}

pub data SetUp : Type 0 where
  listens : ℕ → SetUp
  -- `exit(errno)`, which closes what is open
  gives_up : SetUp

-- `init_connection`, with what `socket` gives and whether `bind` and `listen` succeed
unfoldable pub init_connection : Option ℕ → Bool → Bool → SetUp
init_connection none bound listening = gives_up
init_connection (some sock) bound listening =
    if bound then (if listening then listens sock else gives_up) else gives_up

-- `select`: an error, or whether the keyboard and the listening socket are ready, and which of the
-- clients' sockets are.
pub data Select : Type 0 where
  fails : Select
  ready : Bool → Bool → (ℤ → Bool) → Select

-- What the system calls of one round give. `accept` gives a descriptor, if it succeeds.
pub record Calls : Type 0 where
  pub select : Select
  pub accept : Option ℕ
  pub header : Recv
  pub body : Recv
  pub scratch : Bytes
  pub rand : ℕ

-- The globals, and the variables of `app`.
pub record App : Type 0 where
  pub server : Server
  pub buffer : Bytes
  pub max : ℕ

-- A round: the next state, the messages that go out, and the sockets that are opened and closed.
pub data Turn : Type 0 where
  goes_on : App → List Send → List ℤ → List ℤ → Turn
  -- `break`, and `exit(errno)`
  stops exits : Turn

-- The sockets that the `FD_SET` calls put in the set: the keyboard, `sock` and the `k` clients from `i`
-- on.
unfoldable pub client_sockets : (ℕ → Client) → ℕ → ℕ → List ℤ
client_sockets clients zero i = []
client_sockets clients (suc k) i = (clients i).sock ∷ client_sockets clients k (i + 1)

unfoldable pub watched_sockets : ℕ → Server → List ℤ
unfolding client_sockets
watched_sockets sock s = pos 0 ∷ pos sock ∷ client_sockets s.clients s.nb_clients 0

-- `select(max + 1, ...)` looks at the descriptors below this number.
abbrev pub nfds : App → ℕ
nfds app = app.max + 1

-- A new connection.
unfoldable pub accept_round : App → Calls → Option Turn
accept_round app calls = elim calls.accept [
  | none ↦ some (goes_on app [] [] [])
  | some csock ↦ step app.server app.buffer (connects (pos csock)) >>= λ (server, buffer, sends).
      some (
        goes_on
          (record {
            server = server;
            buffer = buffer;
            max = if ltb app.max csock then csock else app.max;
          })
          sends (pos csock ∷ []) [])
]

-- Client `i` is talking, or gone: then its socket is closed.
unfoldable pub talk_round : App → Calls → ℕ → Option Turn
talk_round app calls i = do
  (n, _) ← read_client app.buffer calls.header calls.body
  (server, buffer, sends) ←
      step app.server app.buffer (talks i calls.header calls.body calls.scratch calls.rand)
  some (
      goes_on (record app { server = server; buffer = buffer }) sends []
        (if n == 0 then (app.server.clients i).sock ∷ [] else []))

-- A round of `app`: the keyboard comes before a new connection, which comes before the clients, and
-- of these the first one that is ready is served.
unfoldable pub app_round : App → Calls → Option Turn
unfolding accept_round talk_round
app_round app calls = elim calls.select [
  | fails ↦ some exits
  | ready keyboard connection clients ↦
      if keyboard
      then some stops
      else if connection
      then accept_round app calls
      else elim (first (λ i. clients (app.server.clients i).sock) app.server.nb_clients 0) [
        | none ↦ some (goes_on app [] [] [])
        | some i ↦ talk_round app calls i
      ]
]

-- `clear_clients`: the sockets that it closes
unfoldable pub clear_clients : (ℕ → Client) → ℕ → List ℤ
unfolding client_sockets
clear_clients clients actual = client_sockets clients actual 0

-- `end_connection`
unfoldable pub end_connection : ℕ → List ℤ
end_connection sock = pos sock ∷ []

-- The end of `app`.
unfoldable pub leave_app : ℕ → App → List ℤ
unfolding clear_clients end_connection
leave_app sock app = clear_clients app.server.clients app.server.nb_clients ++ end_connection sock

-- The states that `app` gets to, with the sockets that it has opened and closed, the last one first;
-- `sock` is the one that listens.
pub data Runs (sock : ℕ) : App → List ℤ → List ℤ → Type 0 where
  enters :
      (app : App) (socket : Option ℕ) (bound listening : Bool)
      → init_connection socket bound listening ≡ listens sock
      → app.server.nb_clients ≡ 0
      → app.server.nb_rooms ≡ pos 0
      → app.max ≡ sock
      → Runs sock app (pos sock ∷ []) []
  turns :
      (app app' : App) (calls : Calls) (sends : List Send) (opened closed opens closes : List ℤ)
      → Runs sock app opened closed
      → app_round app calls ≡ some (goes_on app' sends opens closes)
      → Runs sock app' (opens ++ opened) (closes ++ closed)
