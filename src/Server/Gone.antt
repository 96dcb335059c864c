-- ===== src/Server/Gone.antt =====
-- A spectator whose connection is gone (`disconnect_user` of server/src/protocol.c).
use awale_online.Prelude.{
  ℕ, zero, suc, ◌+◌, ◌≤◌, ◌<◌, ◌≡◌, refl, inl, inr, false, none, some, arith, eq_ℤ, ltb, lt→ltb,
  Bool-cases, ◌==◌, pos_part,
}
use awale_online.Server.State.{Server, current, max_rooms, find_player}
use awale_online.Server.Moves.{drop_spectators, disconnect_at, disconnect_from, disconnect_user}

module _ (s : Server)
    (elsewhere : (m : ℕ)
      → m < max_rooms
      → eq_ℤ ((s.rooms m).game.players (2 + m)).id (current s).sock ≡ false) where
  drop_spectators-same : (i k j : ℕ) → j + k ≤ max_rooms → drop_spectators s i k j ≡ some s
  unfolding drop_spectators
  drop_spectators-same i zero j small = refl
  drop_spectators-same i (suc k) j small =
      elim (Bool-cases (ltb j (s.rooms i).game.nb_spectators)) [
        | inl inside ↦
            rw
              (
                inside,
                lt→ltb j max_rooms (omega (arith, small)),
                elsewhere j (omega (arith, small)),
              )
              (drop_spectators-same i k (j + 1) (omega (arith, small)))
        | inr done ↦ rw done refl
      ]

  disconnect_from-same :
      (k i : ℕ)
      → ((m : ℕ) → i ≤ m → m < i + k → find_player (s.rooms m).game (current s).sock ≡ none)
      → ((m : ℕ) → i ≤ m → m < i + k → (s.rooms m).game.nb_spectators ≤ max_rooms)
      → disconnect_from s k i ≡ some s
  unfolding disconnect_from disconnect_at
  disconnect_from-same zero i no_seat few = refl
  disconnect_from-same (suc k) i no_seat few =
      let later : disconnect_from s k (i + 1) ≡ some s =
        disconnect_from-same k (i + 1) (λ m lo hi. no_seat m (omega arith) (omega arith))
          (λ m lo hi. few m (omega arith) (omega arith)) in
      elim (Bool-cases ((current s).room_id == (s.rooms i).id)) [
        | inl here ↦
            rw
              (
                here,
                no_seat i (omega arith) (omega arith),
                drop_spectators-same i (s.rooms i).game.nb_spectators 0
                    (omega (arith, few i (omega arith) (omega arith))),
              )
              later
        | inr there ↦ rw there later
      ]

-- When a client disconnects that is no player, `disconnect_user` changes nothing, and does not fault: a
-- spectator stays in its room. The rooms have at most 200 spectators each, and the client is not, for
-- any `m`, spectator `m` of room `m`, both counted from 0.
pub disconnect_user-same :
    (s : Server)
    → ((m : ℕ) → m < pos_part s.nb_rooms → find_player (s.rooms m).game (current s).sock ≡ none)
    → ((m : ℕ) → m < pos_part s.nb_rooms → (s.rooms m).game.nb_spectators ≤ max_rooms)
    → ((m : ℕ)
        → m < max_rooms
        → eq_ℤ ((s.rooms m).game.players (2 + m)).id (current s).sock ≡ false)
    → disconnect_user s ≡ some s
unfolding disconnect_user
disconnect_user-same s no_seat few elsewhere =
    disconnect_from-same s elsewhere (pos_part s.nb_rooms) 0
      (λ m lo hi. no_seat m (omega (arith, hi))) (λ m lo hi. few m (omega (arith, hi)))
