-- ===== src/Server/Names/Step.antt =====
-- The names of the clients over the rounds of the server's loop (server/src/server.c).
use awale_online.Prelude.{
  ℕ, ◌<◌, none, some, [], ◌∷◌, ◌==◌, ltb, arith, Ensures, Ensures-bind, Ensures-then, Ensures-if,
  Ensures-some, ltb→lt, get_elem?,
}
use awale_online.Wire.{Bytes, load32, c_string}
use awale_online.Protocol.{
  ClientServerProtocol, client_kind, connect, create_room, join_room, play, leave_room,
  send_message, set_biography,
}
use awale_online.Server.State.{Server}
use awale_online.Server.Reader.{Handlers, client_server_protocol_read, read_kind}
use awale_online.Server.Moves.{disconnect_user}
use awale_online.Server.Loop.{
  handlers_init, read_client, accept_client, Event, connects, talks, serve, step, Reachable, start,
  round,
}
use awale_online.Server.Names.{AreUnique, SameClients, SameClients-AreUnique}
use awale_online.Server.Names.Keep.{
  create_room-SameClients, join_room-SameClients, play-SameClients, leave_room-SameClients,
  send_message-SameClients, set_biography-SameClients, disconnect_user-SameClients,
}
use awale_online.Server.Names.Change.{
  Unique, kept, connect-AreUnique, remove-AreUnique, accept-AreUnique,
}

-- What holds of every handler of a table holds of the one that a payload calls.
pub dispatched :
    {R : Type 0} (P : R → Type 0) (h : Handlers R) (skip : R) (buf : Bytes)
    → ((name : Bytes) → P (h.on_connect name))
    → P h.on_create_room
    → ((room_id spectate : ℕ) → P (h.on_join_room room_id spectate))
    → ((position : ℕ) → P (h.on_play position))
    → P h.on_leave_room
    → ((text : Bytes) → P (h.on_send_message text))
    → ((biography : Bytes) → P (h.on_set_biography biography))
    → P skip
    → Ensures P (client_server_protocol_read buf h skip)
unfolding client_server_protocol_read read_kind
dispatched P h skip [] c cr j p l m b s = tt
dispatched P h skip (type ∷ buf) c cr j p l m b s =
    elim (client_kind type)
      as (λ o. Ensures P (elim o [ none ↦ some skip | some kind ↦ read_kind kind buf h ])) [
        | none ↦ s
        | some kind ↦ of_kind kind
      ]
  where
    of_kind : (kind : ClientServerProtocol) → Ensures P (read_kind kind buf h)
    of_kind connect = Ensures-bind P (c_string buf) _ c
    of_kind create_room = cr
    of_kind join_room =
        Ensures-bind P (load32 buf) _
          λ id. Ensures-bind P (get_elem? buf 4) _ λ spectate. j id spectate
    of_kind play = Ensures-bind P (get_elem? buf 0) _ p
    of_kind leave_room = l
    of_kind send_message = Ensures-bind P (c_string buf) _ m
    of_kind set_biography = Ensures-bind P (c_string buf) _ b

serve-AreUnique :
    (s : Server) (n : ℕ) (buffer scratch : Bytes) (rand : ℕ)
    → s.current_client < s.nb_clients
    → AreUnique s
    → Ensures Unique (serve s s.current_client n buffer scratch rand)
unfolding serve handlers_init
serve-AreUnique s n buffer scratch rand here u =
    Ensures-if Unique (n == 0) _ _
      (λ _.
        Ensures-then Unique (SameClients s) (disconnect_user s) _ (disconnect_user-SameClients s)
          λ left same.
            remove-AreUnique left s.current_client (omega (arith, same.count))
              (SameClients-AreUnique s left same u))
      (λ _.
        Ensures-then Unique (λ h. Ensures Unique (h s)) (client_server_protocol_read buffer _ _) _
          (dispatched (λ h. Ensures Unique (h s)) (handlers_init scratch rand) (λ t. some (t, []))
            buffer (λ name. connect-AreUnique scratch s name here u)
            (kept s _ u (create_room-SameClients s rand scratch))
            (λ room_id spectate. kept s _ u (join_room-SameClients s scratch room_id spectate))
            (λ position. kept s _ u (play-SameClients s scratch position))
            (kept s _ u (leave_room-SameClients s scratch))
            (λ text. kept s _ u (send_message-SameClients s scratch text))
            (λ biography. kept s _ u (set_biography-SameClients s biography)) u)
          (λ h done. done))

step-AreUnique :
    (s : Server) (buffer : Bytes) (event : Event)
    → AreUnique s
    → Ensures (λ r. AreUnique r.0) (step s buffer event)
unfolding step
step-AreUnique s buffer (connects csock) u =
    Ensures-then (λ r. AreUnique r.0) AreUnique (accept_client s csock) _
      (accept-AreUnique s csock u) (λ s' u'. u')
step-AreUnique s buffer (talks i header body scratch rand) u =
    Ensures-if (λ r. AreUnique r.0) (ltb i s.nb_clients) _ (some (s, buffer, []))
      (λ inside.
        Ensures-bind (λ r. AreUnique r.0) (read_client buffer header body) _
          λ (n, filled).
            Ensures-then (λ r. AreUnique r.0) Unique
              (serve (record s { current_client = i }) i n filled scratch rand) _
              (serve-AreUnique (record s { current_client = i }) n filled scratch rand
                (ltb→lt i s.nb_clients inside) u)
              (λ r u'. u'))
      (λ _. u)

-- However the server's loop gets to a state, from no clients and no rooms, over connections, payloads
-- of any bytes and clients that go: no two of its clients have the same name, but for clients that have
-- not sent theirs yet and have the empty one.
pub Reachable-AreUnique : (s : Server) (buffer : Bytes) → Reachable s buffer → AreUnique s
Reachable-AreUnique s buffer (start _ _ none_yet no_rooms) =
    λ i j hi hj ne e. absurd (omega (arith, none_yet, hi))
Reachable-AreUnique s' buffer' (round s _ buffer _ event sends before done) =
    Ensures-some (λ r. AreUnique r.0) (step s buffer event)
      (step-AreUnique s buffer event (Reachable-AreUnique s buffer before)) done
