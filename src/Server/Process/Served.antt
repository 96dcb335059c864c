-- ===== src/Server/Process/Served.antt =====
-- Whom a round of `app` (server/src/server.c) serves, and what it does for it.
use awale_online.Prelude.{
  ℕ, ◌≤◌, ◌<◌, ◌≡◌, refl, inl, inr, Bool, true, false, Option, none, some, List, [], ◌∷◌, ℤ, pos,
  ltb, ◌==◌, if◌then◌else◌, arith, Ensures, Ensures-some, Option-cases, Bool-cases, lt→ltb, ==_iff,
}
use awale_online.Wire.{Bytes}
use awale_online.Server.State.{Server, Send, Outcome, first}
use awale_online.Server.Lookup.{first-some, first-none}
use awale_online.Server.Reader.{client_server_protocol_read}
use awale_online.Server.Moves.{disconnect_user}
use awale_online.Server.Loop.{
  accept_client, remove_client, handlers_init, read_client, serve, farewell, step,
}
use awale_online.Server.Process.{
  App, Calls, Select, fails, ready, Turn, goes_on, stops, exits, accept_round, talk_round,
  app_round,
}

-- Client `i` is ready, and no client before it is.
pub record IsFirst (app : App) (calls : Calls) (i : ℕ) : Type 0 where
  pub sockets : ℤ → Bool
  pub selected : calls.select ≡ ready false false sockets
  pub present : i < app.server.nb_clients
  pub speaks : sockets (app.server.clients i).sock ≡ true
  pub before : (k : ℕ) → k < i → sockets (app.server.clients k).sock ≡ false

-- The larger one of two numbers.
abbrev pub IsLarger : ℕ → ℕ → ℕ → Type 0
IsLarger a b m = (a ≤ m) × (b ≤ m) × ((n : ℕ) → a ≤ n → b ≤ n → m ≤ n)

-- What a round does, by whom it serves: the next state, the messages that go out, and the sockets that
-- are opened and closed.
pub data Serves (app : App) (calls : Calls) : App → List Send → List ℤ → List ℤ → Type 0 where
  nobody :
      (sockets : ℤ → Bool)
      → calls.select ≡ ready false false sockets
      → ((k : ℕ) → k < app.server.nb_clients → sockets (app.server.clients k).sock ≡ false)
      → Serves app calls app [] [] []
  not_accepted :
      (sockets : ℤ → Bool)
      → calls.select ≡ ready false true sockets
      → calls.accept ≡ none
      → Serves app calls app [] [] []
  accepted :
      (sockets : ℤ → Bool) (csock max : ℕ) (server : Server)
      → calls.select ≡ ready false true sockets
      → calls.accept ≡ some csock
      → accept_client app.server (pos csock) ≡ some server
      → IsLarger app.max csock max
      → Serves app calls
          (record { server = server; buffer = app.buffer; max = max })
          []
          (pos csock ∷ [])
          []
  -- nothing was read
  gone :
      (i : ℕ) (filled : Bytes) (left : Server)
      → IsFirst app calls i
      → read_client app.buffer calls.header calls.body ≡ some (0, filled)
      → disconnect_user (record (app.server) { current_client = i }) ≡ some left
      → Serves app calls
          (record app {
            server = remove_client left i;
            buffer = farewell (app.server.clients i).name;
          })
          []
          []
          ((app.server.clients i).sock ∷ [])
  talked :
      (i n : ℕ) (filled : Bytes) (handler : Server → Outcome) (server : Server) (sends : List Send)
      → IsFirst app calls i
      → read_client app.buffer calls.header calls.body ≡ some (n, filled)
      → 0 < n
      → client_server_protocol_read filled
          (handlers_init calls.scratch calls.rand)
          (λ s. some (s, []))
        ≡ some handler
      → handler (record (app.server) { current_client = i }) ≡ some (server, sends)
      → Serves app calls (record app { server = server; buffer = filled }) sends [] []

abbrev Served : App → Calls → Turn → Type 0
Served app calls (goes_on app' sends opens closes) = Serves app calls app' sends opens closes
Served app calls stops = Unit {0}
Served app calls exits = Unit {0}

larger : (a b : ℕ) → IsLarger a b (if ltb a b then b else a)
larger a b = elim (Bool-cases (ltb a b)) [
  | inl less ↦ rw less (ground (arith, less), omega arith, λ n ha hb. hb)
  | inr more ↦ rw more (omega arith, ground (arith, more), λ n ha hb. ha)
]

module _ (app : App) (calls : Calls) where
  accept_round-Served :
      (sockets : ℤ → Bool)
      → calls.select ≡ ready false true sockets
      → Ensures (Served app calls) (accept_round app calls)
  unfolding accept_round step
  accept_round-Served sockets selected = by_accept calls.accept refl
    where
      by_accept :
          (o : Option ℕ)
          → calls.accept ≡ o
          → Ensures (Served app calls) (accept_round app (record calls { accept = o }))
      by_accept none e = not_accepted sockets selected e
      by_accept (some csock) e = elim (Option-cases (accept_client app.server (pos csock))) [
        | inl full ↦ rw full tt
        | inr (server, done) ↦ rw done (
            accepted sockets csock (if ltb app.max csock then csock else app.max) server selected e
              done (larger app.max csock))
      ]

  talk_round-Served :
      (i : ℕ) → IsFirst app calls i → Ensures (Served app calls) (talk_round app calls i)
  unfolding talk_round step serve
  talk_round-Served i it = elim (Option-cases (read_client app.buffer calls.header calls.body)) [
    | inl fault ↦ rw fault tt
    | inr ((n, filled), read) ↦
        rw (read, lt→ltb i app.server.nb_clients it.present)
          (elim (Bool-cases (n == 0)) [
            | inl closed ↦ rw closed (elim (Option-cases (disconnect_user playing)) [
              | inl fault ↦ rw fault tt
              | inr (left, done) ↦
                  rw done (gone i filled left it (rw ((==_iff n 0).0 closed) at read) done)
            ])
            | inr heard ↦
                rw heard
                  (elim (Option-cases (
                    client_server_protocol_read filled (handlers_init calls.scratch calls.rand)
                      (λ s. some (s, [])))) [
                        | inl fault ↦ rw fault tt
                        | inr (handler, dispatched) ↦
                            rw dispatched (elim (Option-cases (handler playing)) [
                              | inl fault ↦ rw fault tt
                              | inr ((server, sends), done) ↦ rw done (
                                  talked i n filled handler server sends it read
                                    (ground (arith, heard)) dispatched done)
                            ])
                      ])
          ])
  ]
    where
      playing : Server
      playing = record (app.server) { current_client = i }

  app_round-Served : Ensures (Served app calls) (app_round app calls)
  unfolding app_round
  app_round-Served = by_select calls.select refl
    where
      by_select :
          (o : Select)
          → calls.select ≡ o
          → Ensures (Served app calls) (app_round app (record calls { select = o }))
      by_select fails e = tt
      by_select (ready true connection sockets) e = tt
      by_select (ready false true sockets) e = accept_round-Served sockets e
      by_select (ready false false sockets) e =
          by_client (first speaking app.server.nb_clients 0) refl
        where
          speaking : ℕ → Bool
          speaking i = sockets (app.server.clients i).sock

          by_client :
              (o : Option ℕ)
              → first speaking app.server.nb_clients 0 ≡ o
              → Ensures
                  (Served app calls)
                  (elim o [ none ↦ some (goes_on app [] [] []) | some i ↦ talk_round app calls i ])
          by_client none found = nobody sockets e (λ k h.
              first-none speaking app.server.nb_clients 0 found k (omega arith) (omega (arith, h)))
          by_client (some i) found =
              let (_, inside, speaks, before) =
                first-some speaking app.server.nb_clients 0 i found in
              talk_round-Served i (record {
                sockets = sockets;
                selected = e;
                present = omega (arith, inside);
                speaks = speaks;
                before = λ k h. before k (omega arith) h;
              })

-- A round of the server that goes on serves one connection or one client, and nothing else. A connection
-- comes before all clients: its socket is opened, it gets the next client's place, and the largest
-- descriptor becomes the larger of the two. Of the clients the first one that is ready is served: when
-- nothing is read from it, it is disconnected and removed, and its socket alone is closed; otherwise the
-- handler of its message runs for it, and no socket is opened or closed. When nobody is ready, or the
-- connection is not accepted, nothing changes.
pub app_round-Serves :
    (app app' : App) (calls : Calls) (sends : List Send) (opens closes : List ℤ)
    → app_round app calls ≡ some (goes_on app' sends opens closes)
    → Serves app calls app' sends opens closes
app_round-Serves app app' calls sends opens closes turn =
    Ensures-some (Served app calls) (app_round app calls) (app_round-Served app calls) turn
