-- ===== src/Server/Connect.antt =====
-- What `handle_connect` of server/src/protocol.c answers.
use awale_online.Prelude.{
  ℕ, zero, suc, ◌+◌, ◌≤◌, ◌<◌, ◌≡◌, ◌≢◌, refl, ap, sym, inl, inr, Bool, true, false, Option, none,
  some, [], ◌∷◌, ◌++◌, length, lt→ltb, arith, Bool-cases, pos_part, update_self, Option-cases,
}
use awale_online.Wire.{codes, Bytes, buf_size, u16_bytes, terminated}
use awale_online.Wire.Laws.{write_bare-Frames, write_text-Frames}
use awale_online.Server.Writers.{write_connection_successful, write_connection_refused}
use awale_online.Server.State.{
  Client, Server, write_client, current, set_current, first, same_string,
}
use awale_online.Server.Lookup.{first-none, same_string_iff}
use awale_online.Server.Handlers.{handle_connect, welcome, name_in_use, find_seat}
use awale_online.Server.Names.{name_of}

-- A loop that breaks at no index.
first-missing :
    (test : ℕ → Bool) (k i : ℕ)
    → ((j : ℕ) → i ≤ j → j < i + k → test j ≡ false)
    → first test k i ≡ none
unfolding first
first-missing test zero i h = refl
first-missing test (suc k) i h =
    rw (h i (omega arith) (omega arith))
      (first-missing test k (i + 1) (λ j lo hi. h j (omega arith) (omega arith)))

same_string-false : (a b : Bytes) → a ≢ b → same_string a b ≡ false
same_string-false a b h = elim (Bool-cases (same_string a b)) [
  | inl same ↦ absurd (h ((same_string_iff a b).0 same))
  | inr other ↦ other
]

find_seat-none :
    (s : Server) (name : Bytes) (k i : ℕ)
    → ((r j : ℕ)
        → r < i + k
        → j < (s.rooms r).game.nb_players
        → ((s.rooms r).game.players j).name ≢ name)
    → find_seat s name k i ≡ none
unfolding find_seat
find_seat-none s name zero i h = refl
find_seat-none s name (suc k) i h =
    rw
      (
        find_seat,
        first-missing (λ j. same_string name ((s.rooms i).game.players j).name)
            (s.rooms i).game.nb_players 0
            (λ j lo hi.
              same_string-false name ((s.rooms i).game.players j).name
                (λ e. h i j (omega arith) (omega arith) (sym e))),
      )
      (find_seat-none s name k (i + 1) (λ r j hr hj. h r j (omega arith) hj))

name_taken :
    (s : Server) (name : Bytes) (i : ℕ)
    → i < s.nb_clients
    → name_of s i ≡ name
    → name_in_use s name ≡ true
unfolding name_in_use
name_taken s name i hi e = elim (Option-cases (first test s.nb_clients 0)) [
  | inl miss ↦
      let differs = first-none test s.nb_clients 0 miss i (omega arith) (omega arith) in
      let same = (same_string_iff (name_of s i) name).1 e in absurd cc
  | inr (j, found) ↦ ap (λ (o : Option ℕ). elim o [ none ↦ false | some i ↦ true ]) found
]
  where
    test : ℕ → Bool
    test j = same_string (s.clients j).name name

name_free :
    (s : Server) (name : Bytes)
    → ((i : ℕ) → i < s.nb_clients → name_of s i ≢ name)
    → name_in_use s name ≡ false
unfolding name_in_use
name_free s name h =
    rw
      (
        name_in_use,
        first-missing (λ i. same_string (s.clients i).name name) s.nb_clients 0
            (λ j lo hi. same_string-false (name_of s j) name (h j (omega arith))),
      )
      refl

-- The payload that tells of a name in use: the kind, and the text.
abbrev pub refusal : Bytes
refusal = 1 ∷ terminated (codes "Error: Name already in use.")

-- If a client has the name already, `handle_connect` changes nothing and the current client gets a
-- refusal, whoever has the name.
pub connect_refused :
    (s : Server) (name buffer : Bytes) (i : ℕ)
    → length buffer ≡ buf_size
    → i < s.nb_clients
    → name_of s i ≡ name
    → handle_connect buffer s name
      ≡ some (
        s,
        write_client (current s).sock (length refusal + 2, u16_bytes (length refusal) ++ refusal),
      )
unfolding handle_connect write_connection_refused write_client
connect_refused s name buffer i room hi e =
    let (written, told, framed) =
      write_text-Frames 1 buffer (codes "Error: Name already in use.") (omega (arith, room))
        (omega arith) in
    rw (name_taken s name i hi e, told, framed) refl

-- If no client has the name, and no player in a room, and it fits its array, then `handle_connect` does
-- not fault: the current client takes the name, nothing else changes, and the client gets the message
-- that it is connected.
pub connect_accepted :
    (s : Server) (name buffer : Bytes)
    → length buffer ≡ buf_size
    → ((i : ℕ) → i < s.nb_clients → name_of s i ≢ name)
    → ((r j : ℕ)
        → r < pos_part s.nb_rooms
        → j < (s.rooms r).game.nb_players
        → ((s.rooms r).game.players j).name ≢ name)
    → length name < buf_size
    → handle_connect buffer s name
      ≡ some (
        set_current s (record (current s) { name = name }),
        write_client (current s).sock (3, u16_bytes 1 ++ 0 ∷ []),
      )
unfolding handle_connect write_connection_successful write_client welcome
connect_accepted s name buffer room free no_player fits =
    let (written, told, framed) = write_bare-Frames 0 buffer (omega arith) in
    let client : Client = record (current s) { name = name } in
    let named = set_current s client in
    let no_seat : find_seat named name (pos_part s.nb_rooms) 0 ≡ none =
      find_seat-none named name (pos_part s.nb_rooms) 0
        (λ r j hr hj. no_player r j (omega arith) hj) in
    rw (name_free s name free, lt→ltb (length name) buf_size fits, no_seat, told, framed)
      (ap (λ (c : Client). some (named, write_client c.sock (3, u16_bytes 1 ++ 0 ∷ [])))
        (update_self s.clients s.current_client client))
