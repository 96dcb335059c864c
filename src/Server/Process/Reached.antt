-- ===== src/Server/Process/Reached.antt =====
-- The rounds of `app` (server/src/server.c) are rounds of the loop that `Reachable` describes, so what
-- holds of all reachable states holds while the server runs.
use awale_online.Prelude.{
  ℕ, ◌≡◌, true, false, Option, none, some, List, [], Ensures, Ensures-then, Ensures-bind,
  Ensures-some, Ensures-self, ℤ, pos,
}
use awale_online.Server.State.{first}
use awale_online.Server.Loop.{Event, read_client, connects, talks, step, Reachable, start, round}
use awale_online.Server.Process.{
  App, Calls, Select, fails, ready, Turn, goes_on, stops, exits, accept_round, talk_round,
  app_round, Runs, enters, turns,
}

abbrev Reached : Turn → Type 0
Reached (goes_on app sends opens closes) = Reachable app.server app.buffer
Reached stops = Unit {0}
Reached exits = Unit {0}

module _ (app : App) (calls : Calls) (reached : Reachable app.server app.buffer) where
  talk_round-Reached : (i : ℕ) → Ensures Reached (talk_round app calls i)
  unfolding talk_round
  talk_round-Reached i =
      Ensures-bind Reached (read_client app.buffer calls.header calls.body) _ λ (n, _).
        Ensures-then Reached (λ r. step app.server app.buffer event ≡ some r)
          (step app.server app.buffer event) _ (Ensures-self (step app.server app.buffer event))
          λ (s, b, sends) done. round app.server s app.buffer b event sends reached done
    where
      event : Event
      event = talks i calls.header calls.body calls.scratch calls.rand

  accept_round-Reached : Ensures Reached (accept_round app calls)
  unfolding accept_round
  accept_round-Reached = by_accept calls.accept
    where
      by_accept : (o : Option ℕ) → Ensures Reached (accept_round app (record calls { accept = o }))
      by_accept none = reached
      by_accept (some csock) =
          Ensures-then Reached (λ r. step app.server app.buffer (connects (pos csock)) ≡ some r)
            (step app.server app.buffer (connects (pos csock))) _
            (Ensures-self (step app.server app.buffer (connects (pos csock))))
            λ (s, b, sends) done.
              round app.server s app.buffer b (connects (pos csock)) sends reached done

  app_round-Reached : Ensures Reached (app_round app calls)
  unfolding app_round
  app_round-Reached = by_select calls.select
    where
      by_select : (o : Select) → Ensures Reached (app_round app (record calls { select = o }))
      by_select fails = tt
      by_select (ready true connection clients) = tt
      by_select (ready false true clients) = accept_round-Reached
      by_select (ready false false clients) =
          by_client (first (λ i. clients (app.server.clients i).sock) app.server.nb_clients 0)
        where
          by_client :
              (o : Option ℕ)
              → Ensures Reached
                  (elim o [ none ↦ some (goes_on app [] [] []) | some i ↦ talk_round app calls i ])
          by_client none = reached
          by_client (some i) = talk_round-Reached i

-- While the server runs, whatever `select`, `accept` and `recv` give, its state and the buffer of the
-- loop are ones that the loop of the rounds gets to from the start.
pub Runs-Reachable :
    (sock : ℕ) (app : App) (opened closed : List ℤ)
    → Runs sock app opened closed
    → Reachable app.server app.buffer
Runs-Reachable sock app _ _ (enters _ socket bound listening set_up no_clients no_rooms top) =
    start app.server app.buffer no_clients no_rooms
Runs-Reachable sock app' _ _ (turns app _ calls sends opened closed opens closes before turn) =
    Ensures-some Reached (app_round app calls)
      (app_round-Reached app calls (Runs-Reachable sock app opened closed before)) turn
