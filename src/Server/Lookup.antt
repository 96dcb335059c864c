-- ===== src/Server/Lookup.antt =====
-- The searches of server/src/protocol.c: a loop that breaks at the first hit.
use awale_online.Prelude.{
  ℕ, zero, suc, ◌+◌, ◌≤◌, ◌<◌, ◌≡◌, ◌↔◌, refl, inl, inr, Bool, true, false, none, some, List, [],
  ◌∷◌, ◌==◌, arith, Bool-cases, ==_iff,
}
use awale_online.Server.State.{Server, find_room, first, same_string}
use awale_online.Server.Moves.{room_index}

-- Nothing is found exactly where no index passes.
pub first-none :
    (test : ℕ → Bool) (k i : ℕ)
    → first test k i ≡ none
    → (j : ℕ) → i ≤ j
    → j < i + k
    → test j ≡ false
unfolding first
first-none test zero i e j lo hi = absurd (omega arith)
first-none test (suc k) i e j lo hi = elim (Bool-cases (test i)) [
  | inl hit ↦ absurd (ground (arith, hit))
  | inr miss ↦ elim (Bool-cases (j == i)) [
    | inl here ↦ rw ((==_iff j i).0 here) miss
    | inr there ↦ first-none test k (i + 1) (ground (arith, miss)) j (ground arith) (omega arith)
  ]
]

-- What is found passes, and is the first that does.
pub first-some :
    (test : ℕ → Bool) (k i j : ℕ)
    → first test k i ≡ some j
    → (i ≤ j) × (j < i + k) × (test j ≡ true) × ((m : ℕ) → i ≤ m → m < j → test m ≡ false)
unfolding first
first-some test zero i j e = cc
first-some test (suc k) i j e = elim (Bool-cases (test i)) [
  | inl hit ↦
      let same : i ≡ j = ground (arith, hit) in
      (omega arith, omega arith, rw (← same) hit, λ m lo hi. absurd (omega arith))
  | inr miss ↦
      let (lo, hi, hit, before) = first-some test k (i + 1) j (ground (arith, miss)) in
      (
        omega arith,
        omega arith,
        hit,
        λ m lo' hi'. elim (Bool-cases (m == i)) [
          | inl here ↦ rw ((==_iff m i).0 here) miss
          | inr there ↦ before m (ground arith) hi'
        ],
      )
]

-- `strcmp` tells equal strings.
pub same_string_iff : (a b : List ℕ) → (same_string a b ≡ true) ↔ (a ≡ b)
unfolding same_string
same_string_iff [] [] = ((λ e. refl), λ e. refl)
same_string_iff [] (y ∷ ys) = ((λ e. cc), λ e. cc)
same_string_iff (x ∷ xs) [] = ((λ e. cc), λ e. cc)
same_string_iff (x ∷ xs) (y ∷ ys) =
    let rest = same_string_iff xs ys in ((λ e. ground (arith, rest.0)), λ e. ground (arith, rest.1))

-- A search without a hit.
pub first-misses :
    (test : ℕ → Bool) (k i : ℕ)
    → ((j : ℕ) → i ≤ j → j < i + k → test j ≡ false)
    → first test k i ≡ none
unfolding first
first-misses test zero i miss = refl
first-misses test (suc k) i miss =
    rw
      (
        miss i (omega arith) (omega arith),
        first-misses test k (i + 1) (λ j lo hi. miss j (omega arith) (omega arith)),
      )
      refl

pub room_index-found :
    (s : Server) (room_id r : ℕ) → find_room s room_id ≡ some r → room_index s room_id ≡ r
unfolding room_index
room_index-found s room_id r found = rw (room_index, found) refl
