-- ===== src/Server/Process/Sockets.antt =====
-- What the handlers and the rounds of the server leave of its clients' sockets (server/src/server.c).
use mathlib.Core.List.{Perm}
use mathlib.Core.List.Perm
use awale_online.Prelude.{
  ℕ, zero, suc, ◌+◌, ◌-◌, ◌≤◌, ◌<◌, ◌≡◌, refl, sym, ap, ◌∙◌, inl, inr, Option, none, some, List, [],
  ◌∷◌, ◌++◌, ◌==◌, ltb, arith, Bool-cases, ==_iff, update, update_self, update_ne, guard, length,
  Ensures, Ensures-bind, Ensures-if, Ensures-map, ℤ, subst, pos_part,
}
use awale_online.Wire.{Bytes, buf_size}
use awale_online.Server.State.{Client, Server, Send, Outcome, current, set_current, max_clients}
use awale_online.Server.Names.{sock_of, SameClients, socks-set_current}
use awale_online.Server.Writers.{write_connection_refused, write_connection_successful}
use awale_online.Server.Handlers.{
  handle_connect, name_in_use, find_seat, welcome, reconnect, reconnect_message,
}
use awale_online.Server.Loop.{remove_client, accept_client}
use awale_online.Server.Process.{client_sockets}

-- The sockets of the clients.
abbrev pub sockets : Server → List ℤ
sockets s = client_sockets s.clients s.nb_clients 0

client_sockets-same :
    (f g : ℕ → Client) (k i : ℕ)
    → ((j : ℕ) → i ≤ j → j < i + k → (g j).sock ≡ (f j).sock)
    → client_sockets g k i ≡ client_sockets f k i
unfolding client_sockets
client_sockets-same f g zero i same = refl
client_sockets-same f g (suc k) i same =
    rw
      (
        same i (omega arith) (omega arith),
        client_sockets-same f g k (i + 1) (λ j lo hi. same j (omega arith) (omega arith)),
      )
      refl

-- One more client.
client_sockets-more :
    (f : ℕ → Client) (k i : ℕ)
    → client_sockets f (suc k) i ≡ client_sockets f k i ++ (f (i + k)).sock ∷ []
unfolding client_sockets
client_sockets-more f zero i = let same : i + 0 ≡ i = omega arith in rw same refl
client_sockets-more f (suc k) i =
    let same : i + 1 + k ≡ i + suc k = omega arith in
    ap (λ l. (f i).sock ∷ l) (rw same at (client_sockets-more f k (i + 1)))

-- The clients from one place on, a place further up.
client_sockets-shift :
    (f g : ℕ → Client) (k i : ℕ)
    → ((j : ℕ) → i ≤ j → j < i + k → g j ≡ f (j + 1))
    → client_sockets g k i ≡ client_sockets f k (i + 1)
unfolding client_sockets
client_sockets-shift f g zero i up = refl
client_sockets-shift f g (suc k) i up =
    rw
      (
        up i (omega arith) (omega arith),
        client_sockets-shift f g k (i + 1) (λ j lo hi. up j (omega arith) (omega arith)),
      )
      refl

-- Without client `m`, the sockets are the others.
client_sockets-without :
    (f g : ℕ → Client) (k i m : ℕ)
    → i ≤ m
    → m < i + suc k
    → ((j : ℕ) → j < m → g j ≡ f j)
    → ((j : ℕ) → m ≤ j → j < i + k → g j ≡ f (j + 1))
    → Perm ((f m).sock ∷ client_sockets g k i) (client_sockets f (suc k) i)
unfolding client_sockets
client_sockets-without f g zero i m lo hi below above =
    let same : i ≡ m = omega arith in rw same Perm.rfl
client_sockets-without f g (suc k) i m lo hi below above = elim (Bool-cases (i == m)) [
  | inl here ↦
      let same = (==_iff i m).0 here in
      rw (same, client_sockets-shift f g (suc k) m (λ j lo' hi'. above j lo' (omega arith)))
        Perm.rfl
  | inr there ↦ rw (below i (ground arith)) (
      Perm.trans (Perm.swap (f i).sock (f m).sock (client_sockets g k (i + 1))) (
        Perm.cons (f i).sock (
          client_sockets-without f g k (i + 1) m (ground arith) (omega arith) below
            (λ j lo' hi'. above j lo' (omega arith)))))
]

pub sockets-remove_client :
    (s : Server) (i : ℕ)
    → i < s.nb_clients
    → Perm (sock_of s i ∷ sockets (remove_client s i)) (sockets s)
unfolding remove_client
sockets-remove_client s i hi =
    let count : s.nb_clients ≡ suc (s.nb_clients - 1) = omega arith in
    subst
      (λ (n : ℕ). Perm (sock_of s i ∷ sockets (remove_client s i)) (client_sockets s.clients n 0))
      (sym count)
      (client_sockets-without s.clients (remove_client s i).clients (s.nb_clients - 1) 0 i
        (omega arith) (omega arith) (λ j lo. ground arith) (λ j lo hi'. ground arith))

pub sockets-accept_client :
    (s : Server) (csock : ℤ)
    → Ensures (λ s'. sockets s' ≡ sockets s ++ csock ∷ []) (accept_client s csock)
unfolding accept_client
sockets-accept_client s csock =
    Ensures-bind (λ s'. sockets s' ≡ sockets s ++ csock ∷ []) (guard (ltb s.nb_clients max_clients))
      _ λ _. accepted
  where
    client : Client
    client = record { sock = csock; name = []; room_id = 0; biography = [] }

    clients : ℕ → Client
    clients = update s.clients s.nb_clients client

    accepted : client_sockets clients (s.nb_clients + 1) 0 ≡ sockets s ++ csock ∷ []
    accepted =
        let one_more : s.nb_clients + 1 ≡ suc s.nb_clients = omega arith in
        let older : client_sockets clients s.nb_clients 0 ≡ sockets s =
          client_sockets-same s.clients clients s.nb_clients 0 (λ j lo hi.
            ap (λ (c : Client). c.sock)
              (update_ne s.clients s.nb_clients j client (omega arith))) in
        let first : 0 + s.nb_clients ≡ s.nb_clients = omega arith in
        let newest : clients s.nb_clients ≡ client = update_self s.clients s.nb_clients client in
        rw (one_more, client_sockets-more clients s.nb_clients 0, older, first, newest) refl

-- The sockets are as they were.
pub record SameSockets (s s' : Server) : Type 0 where
  pub count : s'.nb_clients ≡ s.nb_clients
  pub who : s'.current_client ≡ s.current_client
  pub socks : (i : ℕ) → sock_of s' i ≡ sock_of s i

pub sockets-SameSockets : (s s' : Server) → SameSockets s s' → sockets s' ≡ sockets s
sockets-SameSockets s s' same =
    rw same.count
      (client_sockets-same s.clients s'.clients s.nb_clients 0 (λ j lo hi. same.socks j))

abbrev pub Keeps : Server → Server × List Send → Type 0
Keeps s r = SameSockets s r.0

pub of_clients :
    (s : Server) (m : Outcome) → Ensures (λ r. SameClients s r.0) m → Ensures (Keeps s) m
of_clients s m h =
    Ensures-map (λ r. SameClients s r.0) (Keeps s) m h
      (λ r same. record { count = same.count; who = same.who; socks = same.socks })

-- A client that takes the place of a player.
welcome-SameSockets :
    (s : Server) (buffer : Bytes) (seat : Option (ℕ × ℕ))
    → Ensures (Keeps s) (welcome buffer s seat)
unfolding welcome reconnect
welcome-SameSockets s buffer none =
    Ensures-bind (Keeps s) (write_connection_successful buffer) _
      λ _. record { count = refl; who = refl; socks = λ k. refl }
welcome-SameSockets s buffer (some (i, j)) =
    Ensures-bind (Keeps s) (reconnect_message _ buffer _ j) _ λ _. record {
      count = refl;
      who = refl;
      socks = socks-set_current s (record (current s) { room_id = (s.rooms i).id }) refl;
    }

pub connect-SameSockets :
    (s : Server) (buffer name : Bytes) → Ensures (Keeps s) (handle_connect buffer s name)
unfolding handle_connect
connect-SameSockets s buffer name =
    Ensures-if (Keeps s) (name_in_use s name) _ _
      (λ _.
        Ensures-bind (Keeps s) (write_connection_refused buffer _) _
          λ _. record { count = refl; who = refl; socks = λ k. refl })
      (λ _. Ensures-bind (Keeps s) (guard (ltb (length name) buf_size)) _ λ _.
        Ensures-map (Keeps named) (Keeps s) (welcome buffer named seat)
          (welcome-SameSockets named buffer seat)
          (λ r same. record {
            count = same.count;
            who = same.who;
            socks =
                λ k. same.socks k ∙ socks-set_current s (record (current s) { name = name }) refl k;
          }))
  where
    named : Server
    named = set_current s (record (current s) { name = name })

    seat : Option (ℕ × ℕ)
    seat = find_seat named name (pos_part named.nb_rooms) 0
