-- ===== src/Game/Slam.antt =====
-- `game_board_can_capture` (server/src/game.c): when a move may capture at all. The loop reads one
-- entry past the six houses of the opposite side: house 6 for side 0, and the byte behind the board
-- for side 1, which is the lowest one of `nb_players`.
use awale_online.Prelude.{
  ℕ, zero, suc, ◌+◌, ◌≤◌, ◌<◌, ◌≡◌, ◌≢◌, refl, inl, inr, true, false, Bool, some, List, length,
  get_or, get_elem?, ◌==◌, ltb, leb, ◌&&◌, ◌||◌, ◌↔◌, ◌*◌, length-append, arith, Bool-cases, ==_iff,
  get_elem?-append_left, append-nil, [],
}
use awale_online.Game.{is_safe, any_safe, game_board_can_capture, board_memory}

-- A house that no capture empties, and that is not empty.
abbrev pub IsSafe : ℕ → Type 0
IsSafe seeds = (seeds ≢ 0) × (seeds ≢ 2) × (seeds ≢ 3)

-- What the scan of `k` entries from `offset` on answers.
abbrev Scanned : List ℕ → ℕ → ℕ → Bool → Type 0
Scanned mem offset k true = (j : ℕ) × (offset ≤ j) × (j < offset + k) × IsSafe (get_or mem j 0)
Scanned mem offset k false = (j : ℕ) → offset ≤ j → j < offset + k → ¬ IsSafe (get_or mem j 0)

get_elem?-in : (mem : List ℕ) (i : ℕ) → i < length mem → get_elem? mem i ≡ some (get_or mem i 0)
get_elem?-in mem i h = rw append-nil at (get_elem?-append_left mem [] i 0 h)

any_safe-Scanned :
    (mem : List ℕ) (offset k : ℕ)
    → offset + k ≤ length mem
    → (b : Bool) × (any_safe mem offset k ≡ some b) × Scanned mem offset k b
unfolding any_safe
any_safe-Scanned mem offset zero room = (false, refl, λ j a b. absurd (omega arith))
any_safe-Scanned mem offset (suc k) room =
    rw (get_elem?-in mem (offset + k) (omega arith))
      (elim (Bool-cases (is_safe (get_or mem (offset + k) 0))) [
        | inl safe ↦ (true, rw safe, (offset + k, omega arith, omega arith, ground arith))
        | inr unsafe ↦ rw unsafe (extend (any_safe-Scanned mem offset k (omega arith)) unsafe)
      ])
  where
    last :
        (j : ℕ)
        → j ≡ offset + k
        → is_safe (get_or mem (offset + k) 0) ≡ false
        → ¬ IsSafe (get_or mem j 0)
    last j e u = rw e (ground arith)

    extend :
        (b : Bool) × (any_safe mem offset k ≡ some b) × Scanned mem offset k b
        → is_safe (get_or mem (offset + k) 0) ≡ false
        → (b : Bool) × (any_safe mem offset k ≡ some b) × Scanned mem offset (suc k) b
    extend (true, e, (j, lo, hi, s)) u = (true, e, (j, lo, omega arith, s))
    extend (false, e, all) u = (
      false,
      e,
      λ j lo hi. elim (Bool-cases (j == offset + k)) [
        | inl at ↦ last j ((==_iff j (offset + k)).0 at) u
        | inr below ↦ all j lo (ground arith)
      ],
    )

-- The move ends on the opposite side, and some entry that the loop reads is safe.
abbrev pub MayCapture : List ℕ → ℕ → ℕ → ℕ → Type 0
MayCapture board nb_players other last =
    (6 * other ≤ last)
    × (last < 6 * other + 6)
    × ((j : ℕ) × (6 * other ≤ j)
        × (j < 6 * other + 7)
        × IsSafe (get_or (board_memory board nb_players) j 0))

length-board_memory : (board : List ℕ) (n : ℕ) → length (board_memory board n) ≡ length board + 4
unfolding board_memory
length-board_memory board n = length-append board _

-- On a board of twelve houses, the test never reads outside the game, and it allows a capture exactly
-- when the last seed fell on the opposite side and one of the seven entries that it reads, the six
-- houses of that side and the entry behind them, holds neither 0 nor 2 nor 3.
pub can_capture_iff :
    (board : List ℕ) (nb_players other last : ℕ)
    → length board ≡ 12
    → other < 2
    → last < 12
    → (b : Bool) × (game_board_can_capture (board_memory board nb_players) other last ≡ some b)
      × ((b ≡ true) ↔ MayCapture board nb_players other last)
unfolding game_board_can_capture
can_capture_iff board n other last len ho hl =
    elim (Bool-cases ((other == 1 && ltb last 6) || (other == 0 && leb 6 last))) [
      | inl away ↦ (false, rw away, ((λ e. cc), λ m. absurd (ground arith)))
      | inr there ↦ scanned (ground arith) (ground arith) (
          any_safe-Scanned (board_memory board n) (6 * other) 7
            (omega (arith, length-board_memory board n)))
    ]
  where
    scanned :
        (6 * other ≤ last)
        → (last < 6 * other + 6)
        → (b : Bool) × (any_safe (board_memory board n) (6 * other) 7 ≡ some b)
          × Scanned (board_memory board n) (6 * other) 7 b
        → (b : Bool) × (game_board_can_capture (board_memory board n) other last ≡ some b)
          × ((b ≡ true) ↔ MayCapture board n other last)
    scanned lo hi (true, e, s) = (true, ground arith, ((λ _. (lo, hi, s)), λ _. refl))
    scanned lo hi (false, e, all) =
        (false, ground arith, ((λ f. cc), λ m. absurd (all m.2.0 m.2.1 m.2.2 m.2.3)))
