-- ===== src/Server/Removal.antt =====
-- The loops of server/src/server.c and server/src/protocol.c that delete an element of an array by
-- moving up what is behind it, against the deletion from a list.
use awale_online.Prelude.{
  ℕ, zero, suc, ◌+◌, ◌-◌, ◌≤◌, ◌<◌, ◌≡◌, refl, ◌&&◌, List, [], ◌∷◌, if◌then◌else◌, ltb, leb, arith,
  ℤ, pos, negsuc, update, pos_part, pred_ℤ,
}
use awale_online.Server.State.{Client, Room, Server, move_up, delete_room}
use awale_online.Server.Loop.{remove_client}

module _ {A : Type 0} where
  -- The `n` elements of an array from `k` on.
  unfoldable pub slice : (ℕ → A) → ℕ → ℕ → List A
  slice f zero k = []
  slice f (suc n) k = f k ∷ slice f n (k + 1)

  -- A list without its element `i`.
  unfoldable pub remove_at : ℕ → List A → List A
  remove_at i [] = []
  remove_at zero (x ∷ xs) = xs
  remove_at (suc i) (x ∷ xs) = x ∷ remove_at i xs

  -- The array after the loop.
  abbrev moved_up : (ℕ → A) → ℕ → ℕ → ℕ → A
  moved_up f i n k = if leb i k && ltb (k + 1) n then f (k + 1) else f k

  slice-shift :
      (f g : ℕ → A) (n k : ℕ)
      → ((m : ℕ) → k ≤ m → m < k + n → g m ≡ f (m + 1))
      → slice g n k ≡ slice f n (k + 1)
  unfolding slice
  slice-shift f g zero k h = refl
  slice-shift f g (suc n) k h =
      rw
        (
          h k (omega arith) (omega arith),
          slice-shift f g n (k + 1) (λ m lo hi. h m (omega arith) (omega arith)),
        )
        refl

  slice-remove_at :
      (f g : ℕ → A) (n k i : ℕ)
      → i ≤ n
      → ((m : ℕ) → k ≤ m → m < k + i → g m ≡ f m)
      → ((m : ℕ) → k + i ≤ m → m < k + n → g m ≡ f (m + 1))
      → slice g n k ≡ remove_at i (slice f (suc n) k)
  unfolding slice remove_at
  slice-remove_at f g n k zero hi before after =
      slice-shift f g n k (λ m lo hi'. after m (omega arith) hi')
  slice-remove_at f g zero k (suc i) hi before after = absurd (omega arith)
  slice-remove_at f g (suc n) k (suc i) hi before after =
      rw
        (
          before k (omega arith) (omega arith),
          slice-remove_at f g n (k + 1) i (omega arith)
              (λ m lo hi'. before m (omega arith) (omega arith))
              (λ m lo hi'. after m (omega arith) (omega arith)),
        )
        refl

  moved_up-remove_at :
      (f : ℕ → A) (n i : ℕ) → i < n → slice (moved_up f i n) (n - 1) 0 ≡ remove_at i (slice f n 0)
  moved_up-remove_at f zero i hi = absurd (omega arith)
  moved_up-remove_at f (suc n) i hi =
      let less : suc n - 1 ≡ n = omega arith in
      rw less (
        slice-remove_at f (moved_up f i (suc n)) n 0 i (omega arith) (λ m lo hi'. ground arith)
          (λ m lo hi'. ground arith))

  -- What the loop leaves at an index.
  pub move_up_lem :
      (f : ℕ → A) (rounds k j : ℕ)
      → move_up f rounds k j ≡ (if leb k j && ltb j (k + rounds) then f (j + 1) else f j)
  unfolding move_up update
  move_up_lem f zero k j = ground arith
  move_up_lem f (suc rounds) k j =
      rw (move_up_lem (update f k (f (k + 1))) rounds (k + 1) j) (ground arith)

  move_up-remove_at :
      (f : ℕ → A) (n i : ℕ)
      → i < n
      → slice (move_up f (n - 1 - i) i) (n - 1) 0 ≡ remove_at i (slice f n 0)
  move_up-remove_at f zero i hi = absurd (omega arith)
  move_up-remove_at f (suc n) i hi =
      let less : suc n - 1 ≡ n = omega arith in
      rw less (
        slice-remove_at f (move_up f (n - i) i) n 0 i (omega arith)
          (λ m lo hi'. rw (move_up_lem f (n - i) i m) (ground arith))
          (λ m lo hi'. rw (move_up_lem f (n - i) i m) (ground arith)))

abbrev pub clients_of : Server → List Client
clients_of s = slice s.clients s.nb_clients 0

abbrev pub rooms_of : Server → List Room
rooms_of s = slice s.rooms (pos_part s.nb_rooms) 0

-- `remove_client` deletes one client of the array and keeps the order of the others.
pub remove_client-remove_at :
    (s : Server) (i : ℕ)
    → i < s.nb_clients
    → clients_of (remove_client s i) ≡ remove_at i (clients_of s)
unfolding remove_client
remove_client-remove_at s i hi = moved_up-remove_at s.clients s.nb_clients i hi

pos_part-pred_ℤ : (z : ℤ) → 0 < pos_part z → pos_part (pred_ℤ z) ≡ pos_part z - 1
pos_part-pred_ℤ (pos zero) h = absurd (omega (arith, h))
pos_part-pred_ℤ (pos (suc n)) h = omega arith
pos_part-pred_ℤ (negsuc n) h = absurd (omega (arith, h))

-- The deletion of a room deletes this room of the array and keeps the order of the others.
pub delete_room-remove_at :
    (s : Server) (i : ℕ)
    → i < pos_part s.nb_rooms
    → rooms_of (delete_room s i) ≡ remove_at i (rooms_of s)
unfolding delete_room
delete_room-remove_at s i h =
    rw (pos_part-pred_ℤ s.nb_rooms (omega (arith, h)))
      (move_up-remove_at s.rooms (pos_part s.nb_rooms) i h)
