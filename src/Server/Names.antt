-- ===== src/Server/Names.antt =====
-- No two clients of the server have the same name (`handle_connect` of server/src/protocol.c, and the
-- loop of server/src/server.c). A client that has not sent its name yet has the empty one.
pub mod Keep
pub mod Change
pub mod Step
use awale_online.Prelude.{
  ℕ, zero, suc, ◌+◌, ◌-◌, ◌≤◌, ◌<◌, ◌≡◌, ◌≢◌, refl, sym, ap, ◌∙◌, ◌⊎◌, inl, inr, Bool, true, false,
  Option, none, some, List, [], ◌∷◌, ◌==◌, if◌then◌else◌, arith, Bool-cases, ==_iff, update,
  update_self, update_ne, Option-cases, ◌>>=◌, Ensures, Ensures-bind, Ensures-then, Ensures-if,
  Ensures-some, ◌*◌, ◌/◌, pos, eq_ℤ, ltb, leb, ◌&&◌, not, guard, length, pos_part, ℤ,
}
use awale_online.Wire.{Bytes, buf_size}
use awale_online.Game.{GameState, not_ended, p1won, p2won, draw, game_is_ended}
use awale_online.Server.Writers.{
  write_room_creation_successful, write_join_room_refused, write_game_stopped,
  write_send_message_to_room,
}
use awale_online.Server.State.{
  find_room, find_player, find_spectator, room_play, max_rooms, Client, Room, room_add_player,
  room_init, Server, Send, current, set_current, set_room, delete_room,
}
use awale_online.Server.Lookup.{first-none, same_string_iff}
use awale_online.Server.Handlers.{
  handle_connect, join_at, room_full, announce_start, new_player, handle_create_room,
  handle_join_room, name_in_use, find_seat, reconnect, enter_room, start_when_full, free_slot,
  write_room,
}
use awale_online.Server.Moves.{
  play_at, leave_at, room_index, report, side_of, remove_spectator, handle_play, handle_leave_room,
  handle_send_message, handle_set_biography, disconnect_user, disconnect_at, play_in_room, finish,
  stop_game, disconnect_from, drop_spectators,
}

abbrev pub name_of : Server → ℕ → Bytes
name_of s i = (s.clients i).name

abbrev pub sock_of : Server → ℕ → ℤ
sock_of s i = (s.clients i).sock

-- Two clients of one name have not sent it yet.
abbrev pub AreUnique : Server → Type 0
AreUnique s =
    (i j : ℕ)
    → i < s.nb_clients
    → j < s.nb_clients
    → i ≢ j
    → name_of s i ≡ name_of s j
    → name_of s i ≡ []

-- The clients, their names and their sockets are as they were.
pub record SameClients (s s' : Server) : Type 0 where
  pub count : s'.nb_clients ≡ s.nb_clients
  pub who : s'.current_client ≡ s.current_client
  pub names : (i : ℕ) → name_of s' i ≡ name_of s i
  pub socks : (i : ℕ) → sock_of s' i ≡ sock_of s i

pub SameClients-AreUnique : (s s' : Server) → SameClients s s' → AreUnique s → AreUnique s'
SameClients-AreUnique s s' same u i j hi hj ne e =
    same.names i
    ∙ u i j (omega (arith, same.count)) (omega (arith, same.count)) ne
        (sym (same.names i) ∙ e ∙ same.names j)

pub SameClients-refl : (s : Server) → SameClients s s
SameClients-refl s = record { count = refl; who = refl; names = λ i. refl; socks = λ i. refl }

-- A write to the current client that leaves a field of it.
kept_by :
    {A : Type 0} (field : Client → A) (s : Server) (client : Client)
    → field client ≡ field (current s)
    → (i : ℕ) → field ((set_current s client).clients i) ≡ field (s.clients i)
kept_by field s client e i = elim (Bool-cases (i == s.current_client)) [
  | inl here ↦
      rw ((==_iff i s.current_client).0 here)
        (ap field (update_self s.clients s.current_client client) ∙ e)
  | inr there ↦ ap field (update_ne s.clients s.current_client i client (ground arith))
]

pub socks-set_current :
    (s : Server) (client : Client)
    → client.sock ≡ (current s).sock
    → (i : ℕ) → sock_of (set_current s client) i ≡ sock_of s i
socks-set_current s client e = kept_by (λ c. c.sock) s client e

-- A write to the current client that leaves its name and its socket.
pub SameClients-set_current :
    (s : Server) (client : Client)
    → client.name ≡ (current s).name
    → client.sock ≡ (current s).sock
    → SameClients s (set_current s client)
SameClients-set_current s client e e' = record {
  count = refl;
  who = refl;
  names = kept_by (λ c. c.name) s client e;
  socks = socks-set_current s client e';
}

module _ (s : Server) where
  -- What a handler that leaves the names gives.
  abbrev pub Keeps : Server × List Send → Type 0
  Keeps r = SameClients s r.0

  pub keep :
      (s1 s2 : Server)
      → SameClients s s1
      → s2.nb_clients ≡ s1.nb_clients
      → s2.current_client ≡ s1.current_client
      → s2.clients ≡ s1.clients
      → SameClients s s2
  keep s1 s2 same n c cl = record {
    count = n ∙ same.count;
    who = c ∙ same.who;
    names = λ i. ap (λ (f : ℕ → Client). (f i).name) cl ∙ same.names i;
    socks = λ i. ap (λ (f : ℕ → Client). (f i).sock) cl ∙ same.socks i;
  }

  -- The current client in another room, whatever becomes of the rooms.
  pub moved :
      (s2 : Server) (client : Client)
      → client.name ≡ (current s).name
      → client.sock ≡ (current s).sock
      → s2.nb_clients ≡ s.nb_clients
      → s2.current_client ≡ s.current_client
      → s2.clients ≡ update s.clients s.current_client client
      → SameClients s s2
  moved s2 client e e' n c cl =
      keep (set_current s client) s2 (SameClients-set_current s client e e') n c cl
