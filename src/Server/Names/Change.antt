-- ===== src/Server/Names/Change.antt =====
-- Where the names of the clients change: `handle_connect` of server/src/protocol.c, and the clients that
-- come and go in server/src/server.c.
use awale_online.Prelude.{
  ℕ, ◌+◌, ◌-◌, ◌<◌, ◌≡◌, ◌≢◌, refl, sym, ap, ◌∙◌, inl, inr, Bool, true, false, Option, none, some,
  List, [], ◌==◌, ltb, leb, if◌then◌else◌, arith, Bool-cases, ==_iff, update, update_self,
  update_ne, Option-cases, guard, length, Ensures, Ensures-bind, Ensures-if, lt→ltb, ℤ,
}
use awale_online.Wire.{codes, Bytes, buf_size}
use awale_online.Server.State.{
  Client, Server, Send, Outcome, current, set_current, first, same_string, max_clients,
}
use awale_online.Server.Lookup.{first-none, same_string_iff}
use awale_online.Server.Writers.{write_connection_refused, write_connection_successful}
use awale_online.Server.Handlers.{
  handle_connect, name_in_use, reconnect, reconnect_message, welcome,
}
use awale_online.Server.Loop.{remove_client, accept_client}
use awale_online.Server.Names.{name_of, AreUnique, SameClients, SameClients-AreUnique, moved}

abbrev pub Unique : Server × List Send → Type 0
Unique r = AreUnique r.0

pub kept :
    (s : Server) (m : Outcome) → AreUnique s → Ensures (λ r. SameClients s r.0) m → Ensures Unique m
kept s none u h = tt
kept s (some r) u h = SameClients-AreUnique s r.0 h u

-- A name that is not in use is nobody's.
free_name :
    (s : Server) (name : Bytes)
    → name_in_use s name ≡ false
    → (i : ℕ) → i < s.nb_clients
    → name_of s i ≢ name
unfolding name_in_use
free_name s name free i hi e = elim (Option-cases (first test s.nb_clients 0)) [
  | inl miss ↦
      let differs = first-none test s.nb_clients 0 miss i (omega arith) (omega arith) in
      let same = (same_string_iff (name_of s i) name).1 e in cc
  | inr (j, found) ↦
      let hit : true ≡ false =
        ap (λ (o : Option ℕ). elim o [ none ↦ false | some i ↦ true ]) (sym found) ∙ free in
      cc
]
  where
    test : ℕ → Bool
    test j = same_string (s.clients j).name name

-- The current client takes a name that is nobody's.
named-AreUnique :
    (s : Server) (name : Bytes)
    → s.current_client < s.nb_clients
    → ((i : ℕ) → i < s.nb_clients → name_of s i ≢ name)
    → AreUnique s
    → AreUnique (set_current s (record (current s) { name = name }))
named-AreUnique s name here free u i j hi hj ne e = elim (Bool-cases (i == s.current_client)) [
  | inl i_here ↦ elim (Bool-cases (j == s.current_client)) [
    | inl j_here ↦ absurd (ground arith)
    | inr j_there ↦ absurd (
        free j hj
          (sym (other j j_there) ∙ sym e ∙ rw ((==_iff i s.current_client).0 i_here) changed))
  ]
  | inr i_there ↦ elim (Bool-cases (j == s.current_client)) [
    | inl j_here ↦
        absurd (
          free i hi (sym (other i i_there) ∙ e ∙ rw ((==_iff j s.current_client).0 j_here) changed))
    | inr j_there ↦ other i i_there ∙ u i j hi hj ne (sym (other i i_there) ∙ e ∙ other j j_there)
  ]
]
  where
    client : Client
    client = record (current s) { name = name }

    changed : name_of (set_current s client) s.current_client ≡ name
    changed = ap (λ (c : Client). c.name) (update_self s.clients s.current_client client)

    other :
        (k : ℕ) → (k == s.current_client) ≡ false → name_of (set_current s client) k ≡ name_of s k
    other k there =
        ap (λ (c : Client). c.name) (update_ne s.clients s.current_client k client (ground arith))

welcome-AreUnique :
    (buffer : Bytes) (s : Server) (seat : Option (ℕ × ℕ))
    → AreUnique s
    → Ensures Unique (welcome buffer s seat)
unfolding welcome reconnect
welcome-AreUnique buffer s none u =
    Ensures-bind Unique (write_connection_successful buffer) _ λ accepted. u
welcome-AreUnique buffer s (some (i, j)) u = kept s (reconnect s buffer i j) u (
    Ensures-bind (λ r. SameClients s r.0) (reconnect_message _ buffer _ j) _
      λ message.
        moved s _ (record (current s) { room_id = (s.rooms i).id }) refl refl refl refl refl)

pub connect-AreUnique :
    (buffer : Bytes) (s : Server) (name : Bytes)
    → s.current_client < s.nb_clients
    → AreUnique s
    → Ensures Unique (handle_connect buffer s name)
unfolding handle_connect
connect-AreUnique buffer s name here u =
    Ensures-if Unique (name_in_use s name) _ _
      (λ _.
        Ensures-bind Unique (write_connection_refused buffer (codes "Error: Name already in use."))
          _ λ refused. u)
      (λ free.
        Ensures-bind Unique (guard (ltb (length name) buf_size)) _
          λ _. welcome-AreUnique buffer _ _ (named-AreUnique s name here (free_name s name free) u))

-- The index before the removal of client `i` of the client that is at `k` after it.
abbrev behind : ℕ → ℕ → ℕ
behind i k = if leb i k then k + 1 else k

name_of-remove_client :
    (s : Server) (i k : ℕ)
    → k < s.nb_clients - 1
    → name_of (remove_client s i) k ≡ name_of s (behind i k)
unfolding remove_client
name_of-remove_client s i k hk = elim (Bool-cases (leb i k)) [
  | inl after ↦ rw (name_of, behind, after, lt→ltb (k + 1) s.nb_clients (omega arith)) refl
  | inr before ↦ rw (name_of, behind, before) refl
]

pub remove-AreUnique :
    (s : Server) (i : ℕ) → i < s.nb_clients → AreUnique s → AreUnique (remove_client s i)
unfolding remove_client
remove-AreUnique s i hi u j k hj hk ne e =
    let ej = name_of-remove_client s i j hj in
    let ek = name_of-remove_client s i k hk in
    ej ∙ u (behind i j) (behind i k) (ground arith) (ground arith) (ground arith) (sym ej ∙ e ∙ ek)

pub accept-AreUnique :
    (s : Server) (csock : ℤ) → AreUnique s → Ensures AreUnique (accept_client s csock)
unfolding accept_client
accept-AreUnique s csock u =
    Ensures-bind AreUnique (guard (ltb s.nb_clients max_clients)) _ λ _. accepted
  where
    client : Client
    client = record { sock = csock; name = []; room_id = 0; biography = [] }

    later : Server
    later = record s {
      current_client = s.nb_clients;
      clients = update s.clients s.nb_clients client;
      nb_clients = s.nb_clients + 1;
    }

    newest : name_of later s.nb_clients ≡ []
    newest = ap (λ (c : Client). c.name) (update_self s.clients s.nb_clients client)

    older : (k : ℕ) → (k == s.nb_clients) ≡ false → name_of later k ≡ name_of s k
    older k there =
        ap (λ (c : Client). c.name) (update_ne s.clients s.nb_clients k client (ground arith))

    accepted : AreUnique later
    accepted i j hi hj ne e = elim (Bool-cases (i == s.nb_clients)) [
      | inl i_new ↦ rw ((==_iff i s.nb_clients).0 i_new) newest
      | inr i_old ↦ elim (Bool-cases (j == s.nb_clients)) [
        | inl j_new ↦ e ∙ rw ((==_iff j s.nb_clients).0 j_new) newest
        | inr j_old ↦
            older i i_old
            ∙ u i j (ground arith) (ground arith) ne (sym (older i i_old) ∙ e ∙ older j j_old)
      ]
    ]
