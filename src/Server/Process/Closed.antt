-- ===== src/Server/Process/Closed.antt =====
-- Every socket of the server is closed once (server/src/server.c).
use mathlib.Core.List.{Perm, perm_append_comm}
use mathlib.Core.List.Perm
use awale_online.Prelude.{
  ℕ, ◌<◌, ◌≡◌, refl, inl, inr, true, false, Option, none, some, List, [], ◌∷◌, ◌++◌, append_assoc,
  ◌==◌, if◌then◌else◌, arith, Bool-cases, Option-cases, Ensures, Ensures-then, Ensures-some,
  Ensures-map, lt→ltb, ℤ, pos, ◌>>=◌,
}
use awale_online.Wire.{Bytes}
use awale_online.Server.State.{Server, first}
use awale_online.Server.Lookup.{first-some}
use awale_online.Server.Reader.{client_server_protocol_read}
use awale_online.Server.Moves.{disconnect_user}
use awale_online.Server.Names.{sock_of, SameClients}
use awale_online.Server.Names.Step.{dispatched}
use awale_online.Server.Names.Keep.{
  create_room-SameClients, join_room-SameClients, play-SameClients, leave_room-SameClients,
  send_message-SameClients, set_biography-SameClients, disconnect_user-SameClients,
}
use awale_online.Server.Loop.{handlers_init, read_client, accept_client, serve, step, remove_client}
use awale_online.Server.Process.{
  App, Calls, Select, fails, ready, Turn, goes_on, stops, exits, accept_round, talk_round,
  app_round, Runs, enters, turns, client_sockets, clear_clients, end_connection, leave_app,
}
use awale_online.Server.Process.Sockets.{
  sockets, Keeps, of_clients, connect-SameSockets, sockets-SameSockets, sockets-remove_client,
  sockets-accept_client,
}

-- The two lists in the other order.
rotate : (a b c : List ℤ) → Perm (a ++ (b ++ c)) (b ++ (a ++ c))
rotate a b c =
    rw (← append_assoc a b c, ← append_assoc b a c) (Perm.append_right c (perm_append_comm a b))

-- A payload leaves the sockets.
payload-SameSockets :
    (s : Server) (buffer scratch : Bytes) (rand : ℕ)
    → Ensures (Keeps s) (
        client_server_protocol_read buffer (handlers_init scratch rand) (λ t. some (t, []))
        >>= λ handler. handler s)
unfolding handlers_init
payload-SameSockets s buffer scratch rand =
    Ensures-then (Keeps s) (λ h. Ensures (Keeps s) (h s)) (client_server_protocol_read buffer _ _) _
      (dispatched (λ h. Ensures (Keeps s) (h s)) (handlers_init scratch rand) (λ t. some (t, []))
        buffer (connect-SameSockets s scratch)
        (of_clients s _ (create_room-SameClients s rand scratch))
        (λ room_id spectate. of_clients s _ (join_room-SameClients s scratch room_id spectate))
        (λ position. of_clients s _ (play-SameClients s scratch position))
        (of_clients s _ (leave_room-SameClients s scratch))
        (λ text. of_clients s _ (send_message-SameClients s scratch text))
        (λ biography. of_clients s _ (set_biography-SameClients s biography))
        (record { count = refl; who = refl; socks = λ k. refl }))
      (λ h done. done)

-- What a round does to the sockets of the clients.
abbrev pub Balanced : Server → Turn → Type 0
Balanced s (goes_on app sends opens closes) =
    Perm (closes ++ sockets app.server) (opens ++ sockets s)
Balanced s stops = Unit {0}
Balanced s exits = Unit {0}

-- The socket of the client that is gone.
abbrev shut : Server → ℕ → ℕ → List ℤ
shut s i n = if n == 0 then (s.clients i).sock ∷ [] else []

serve-sockets :
    (s : Server) (n : ℕ) (buffer scratch : Bytes) (rand : ℕ)
    → s.current_client < s.nb_clients
    → Ensures
        (λ r. Perm (shut s s.current_client n ++ sockets r.0) (sockets s))
        (serve s s.current_client n buffer scratch rand)
unfolding serve
serve-sockets s n buffer scratch rand here = elim (Bool-cases (n == 0)) [
  | inl gone ↦ rw gone (
      Ensures-then (λ r. Perm (sock_of s s.current_client ∷ sockets r.0) (sockets s))
        (SameClients s) (disconnect_user s) _ (disconnect_user-SameClients s)
        (λ left same. removed left same))
  | inr talking ↦ rw talking (
      Ensures-map (Keeps s) (λ r. Perm (sockets r.0) (sockets s)) _
        (payload-SameSockets s buffer scratch rand)
        (λ r same. rw (sockets-SameSockets s r.0 same) Perm.rfl))
]
  where
    removed :
        (left : Server)
        → SameClients s left
        → Perm
            (sock_of s s.current_client ∷ sockets (remove_client left s.current_client))
            (sockets s)
    removed left same =
        let kept : sockets left ≡ sockets s =
          sockets-SameSockets s left
            (record { count = same.count; who = same.who; socks = same.socks }) in
        rw (same.socks s.current_client, kept) at
          (sockets-remove_client left s.current_client (omega (arith, same.count)))

talk_round-Balanced :
    (app : App) (calls : Calls) (i : ℕ)
    → i < app.server.nb_clients
    → Ensures (Balanced app.server) (talk_round app calls i)
unfolding talk_round step
talk_round-Balanced app calls i inside =
    elim (Option-cases (read_client app.buffer calls.header calls.body)) [
      | inl fault ↦ rw fault tt
      | inr ((n, filled), read) ↦
          rw (read, lt→ltb i app.server.nb_clients inside)
            (Ensures-then (Balanced app.server) (λ r. After i n r.0) _ _
              (Ensures-then (λ r. After i n r.0) (λ r. After i n r.0)
                (serve (record (app.server) { current_client = i }) i n filled calls.scratch
                  calls.rand)
                _
                (serve-sockets (record (app.server) { current_client = i }) n filled calls.scratch
                  calls.rand inside)
                (λ r done. done))
              (λ r done. done))
    ]
  where
    After : ℕ → ℕ → Server → Type 0
    After i n s = Perm (shut app.server i n ++ sockets s) (sockets app.server)

accept_round-Balanced :
    (app : App) (calls : Calls) → Ensures (Balanced app.server) (accept_round app calls)
unfolding accept_round step
accept_round-Balanced app calls = by_accept calls.accept
  where
    More : ℕ → Server → Type 0
    More csock s = Perm (sockets s) (pos csock ∷ sockets app.server)

    by_accept :
        (o : Option ℕ)
        → Ensures (Balanced app.server) (accept_round app (record calls { accept = o }))
    by_accept none = Perm.rfl
    by_accept (some csock) =
        Ensures-then (Balanced app.server) (λ r. More csock r.0) _ _
          (Ensures-then (λ r. More csock r.0) (More csock) (accept_client app.server (pos csock)) _
            (Ensures-map (λ s. sockets s ≡ sockets app.server ++ pos csock ∷ []) (More csock)
              (accept_client app.server (pos csock)) (sockets-accept_client app.server (pos csock))
              (λ s more. rw more (perm_append_comm (sockets app.server) (pos csock ∷ []))))
            (λ s more. more))
          (λ r more. more)

pub app_round-Balanced :
    (app : App) (calls : Calls) → Ensures (Balanced app.server) (app_round app calls)
unfolding app_round
app_round-Balanced app calls = by_select calls.select
  where
    by_select :
        (o : Select) → Ensures (Balanced app.server) (app_round app (record calls { select = o }))
    by_select fails = tt
    by_select (ready true connection clients) = tt
    by_select (ready false true clients) = accept_round-Balanced app calls
    by_select (ready false false clients) =
        elim (Option-cases
          (first (λ i. clients (app.server.clients i).sock) app.server.nb_clients 0)) [
            | inl idle ↦ rw idle Perm.rfl
            | inr (i, found) ↦
                let (_, inside, _, _) =
                  first-some (λ j. clients (app.server.clients j).sock) app.server.nb_clients 0 i
                    found in
                rw found (talk_round-Balanced app calls i (omega (arith, inside)))
          ]

-- A turn on top of what is closed already.
balance :
    (closes before' before opens closed opened : List ℤ) (sock : ℤ)
    → Perm (closes ++ before') (opens ++ before)
    → Perm ((before ++ sock ∷ []) ++ closed) opened
    → Perm ((before' ++ sock ∷ []) ++ (closes ++ closed)) (opens ++ opened)
balance closes before' before opens closed opened sock turn done =
    let rest = sock ∷ closed in
    let turned : Perm (closes ++ (before' ++ rest)) (opens ++ (before ++ rest)) =
      rw (← append_assoc closes before' rest, ← append_assoc opens before rest)
        (Perm.append_right rest turn) in
    rw (append_assoc before' (sock ∷ []) (closes ++ closed)) (
      Perm.trans (Perm.append_left before' (rotate (sock ∷ []) closes closed)) (
        Perm.trans (rotate before' closes rest) (
          Perm.trans turned
            (Perm.append_left opens (rw (append_assoc before (sock ∷ []) closed) at done)))))

-- However `app` runs, with calls of `select`, `accept` and `recv` that succeed or fail: if it is left
-- now, the sockets that it has closed, the ones that it closes at its end included, are the ones that it
-- has opened, each as often as it was opened.
pub app-closes :
    (sock : ℕ) (app : App) (opened closed : List ℤ)
    → Runs sock app opened closed
    → Perm (leave_app sock app ++ closed) opened
unfolding leave_app clear_clients end_connection client_sockets
app-closes sock app _ _ (enters _ socket bound listening set_up no_clients no_rooms top) =
    rw no_clients Perm.rfl
app-closes sock app' _ _ (turns app _ calls sends opened closed opens closes before turn) =
    balance closes (sockets app'.server) (sockets app.server) opens closed opened (pos sock)
      (Ensures-some (Balanced app.server) (app_round app calls) (app_round-Balanced app calls) turn)
      (app-closes sock app opened closed before)
