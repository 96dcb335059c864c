-- ===== src/Server/Sound.antt =====
-- The games in the rooms of the server (server/src/server.c) are sound whatever its handlers do: what
-- a write to a room and the deletion of one keep.
pub mod Keep
pub mod Leave
pub mod Played
pub mod Step
use awale_online.Prelude.{
  ℕ, zero, suc, ◌+◌, ◌-◌, ◌≤◌, ◌<◌, ◌≡◌, ◌≢◌, refl, sym, ap, ◌∙◌, inl, inr, Bool, true, false,
  Option, none, some, List, ◌==◌, if◌then◌else◌, arith, Bool-cases, ==_iff, update, ◌*◌,
  update_self, update_ne, Ensures, pos, negsuc, ltb, leb, ◌&&◌, pos_part, ℤ, pred_ℤ, subst,
}
use awale_online.Game.{Game}
use awale_online.Game.Sound.{IsSound}
use awale_online.Server.State.{Room, Server, Send, set_room, delete_room, find_room}
use awale_online.Server.Lookup.{first-some}
use awale_online.Server.Removal.{move_up_lem}

abbrev pub game_of : Server → ℕ → Game
game_of s i = (s.rooms i).game

abbrev pub AllSound : Server → Type 0
AllSound s = (i : ℕ) → i < pos_part s.nb_rooms → IsSound (game_of s i)

-- The same but for room `i`.
abbrev pub OthersSound : Server → ℕ → Type 0
OthersSound s i = (k : ℕ) → k < pos_part s.nb_rooms → k ≢ i → IsSound (game_of s k)

-- What a handler gives.
abbrev pub Sound : Server × List Send → Type 0
Sound r = AllSound r.0

pub set_room-AllSound :
    (s : Server) (i : ℕ) (room : Room)
    → IsSound room.game
    → OthersSound s i
    → AllSound (set_room s i room)
set_room-AllSound s i room v others k hk = elim (Bool-cases (k == i)) [
  | inl here ↦
      rw ((==_iff k i).0 here)
        (subst (λ (r : Room). IsSound r.game) (sym (update_self s.rooms i room)) v)
  | inr there ↦
      subst (λ (r : Room). IsSound r.game) (sym (update_ne s.rooms i k room (ground arith)))
        (others k hk (ground arith))
]

pub set_room-OthersSound :
    (s : Server) (i : ℕ) (room : Room) → OthersSound s i → OthersSound (set_room s i room) i
set_room-OthersSound s i room others k hk ne =
    subst (λ (r : Room). IsSound r.game) (sym (update_ne s.rooms i k room (λ e. ne (sym e))))
      (others k hk ne)

pred_le : (z : ℤ) (k : ℕ) → k < pos_part (pred_ℤ z) → k + 1 < pos_part z
pred_le (pos zero) k h = absurd (omega arith)
pred_le (pos (suc n)) k h = omega arith
pred_le (negsuc n) k h = absurd (omega arith)

-- Whatever index is deleted, and however many rooms there are; the room that goes need not be sound.
pub delete_room-AllSound : (s : Server) (i : ℕ) → OthersSound s i → AllSound (delete_room s i)
unfolding delete_room
delete_room-AllSound s i others k hk =
    let n = pos_part (pred_ℤ s.nb_rooms) in
    elim (Bool-cases (leb i k && ltb k (i + (n - i)))) [
      | inl behind ↦
          moved (k + 1) (pred_le s.nb_rooms k hk) (ground arith)
            (rw (move_up_lem s.rooms (n - i) i k, behind) refl)
      | inr before ↦
          moved k (omega (arith, pred_le s.nb_rooms k hk)) (ground (arith, hk))
            (rw (move_up_lem s.rooms (n - i) i k, before) refl)
    ]
  where
    moved :
        (j : ℕ)
        → j < pos_part s.nb_rooms
        → j ≢ i
        → (delete_room s i).rooms k ≡ s.rooms j
        → IsSound (game_of (delete_room s i) k)
    moved j hj ne e = subst (λ (r : Room). IsSound r.game) (sym e) (others j hj ne)

-- What becomes of the game in one room.
pub change-AllSound :
    (s : Server) (i : ℕ) (room : Room)
    → (IsSound (game_of s i) → IsSound room.game)
    → AllSound s
    → AllSound (set_room s i room)
change-AllSound s i room keeps all k hk = elim (Bool-cases (k == i)) [
  | inl here ↦
      let same = (==_iff k i).0 here in
      set_room-AllSound s i room (keeps (rw same at (all k hk))) (λ j hj ne. all j hj) k hk
  | inr there ↦
      subst (λ (r : Room). IsSound r.game) (sym (update_ne s.rooms i k room (ground arith)))
        (all k hk)
]

-- A room that the search finds is one of the rooms.
pub find_room-lt :
    (s : Server) (room_id i : ℕ) → find_room s room_id ≡ some i → i < pos_part s.nb_rooms
unfolding find_room
find_room-lt s room_id i found =
    let (_, inside, _, _) =
      first-some (λ j. (s.rooms j).id == room_id) (pos_part s.nb_rooms) 0 i found in
    omega (arith, inside)
