-- ===== src/Game/Feeding.antt =====
-- Whether a capture can leave the other side without a seed (`game_board_can_capture` and
-- `game_play` of server/src/game.c). The test reads one entry past the six houses of that side. For
-- side 0 this is the byte behind the board, which is 2 in a running game and so never safe; for side
-- 1 it is house 6, a house of its own.
use mathlib.Core.Path.{subst}
use awale_online.Prelude.{
  ℕ, zero, suc, ◌+◌, ◌-◌, ◌/◌, ◌%◌, ◌≤◌, ◌<◌, ◌≡◌, refl, ◌∙◌, ◌⊎◌, inl, inr, some, List, [], ◌∷◌,
  length, get_or, pos, arith, Bool-cases, ltb, ltb→lt, ◌==◌, ==_iff, ◌++◌,
}
use awale_online.Game.{Game, valid_play, game_play, board_memory}
use awale_online.Game.Play.{IsValid, IsOwn, Played, Outcome, game_play-Played}
use awale_online.Game.Capture.{Captured, IsPrey}
use awale_online.Game.Slam.{IsSafe}

get_or-append_left :
    (xs ys : List ℕ) (i : ℕ) → i < length xs → get_or (xs ++ ys) i 0 ≡ get_or xs i 0
get_or-append_left [] ys i h = absurd (omega arith)
get_or-append_left (x ∷ xs) ys zero h = refl
get_or-append_left (x ∷ xs) ys (suc i) h = get_or-append_left xs ys i (omega arith)

get_or-append_at : (xs ys : List ℕ) (y : ℕ) → get_or (xs ++ y ∷ ys) (length xs) 0 ≡ y
get_or-append_at [] ys y = refl
get_or-append_at (x ∷ xs) ys y = get_or-append_at xs ys y

pub board_memory-house :
    (board : List ℕ) (n i : ℕ)
    → i < length board
    → get_or (board_memory board n) i 0 ≡ get_or board i 0
unfolding board_memory
board_memory-house board n i h = get_or-append_left board _ i h

pub board_memory-behind :
    (board : List ℕ) (n : ℕ) → length board ≡ 12 → get_or (board_memory board n) 12 0 ≡ n % 256
unfolding board_memory
board_memory-behind board n h = rw (← h) (get_or-append_at board _ (n % 256))

-- A safe house is never in the captured run.
kept_safe :
    {offset k : ℕ} {board : List ℕ} {captured n : ℕ} {after : List ℕ} {score : ℕ}
    → Captured offset k board captured n after score
    → (j : ℕ) → IsSafe (get_or board j 0)
    → get_or after j 0 ≡ get_or board j 0
kept_safe {offset} {k} {board} {n} c j safe = elim (Bool-cases (ltb (j + n) (offset + k))) [
  | inl below ↦ c.kept_below j (ltb→lt _ _ below)
  | inr reaches ↦ elim (Bool-cases (ltb j (offset + k))) [
    | inl inside ↦ absurd (not_prey (c.taken j (ground arith) (ltb→lt _ _ inside)).1)
    | inr outside ↦ c.kept_above j (ground arith)
  ]
]
  where
    not_prey : ¬ IsPrey (get_or board j 0)
    not_prey (inl two) = safe.1 two
    not_prey (inr three) = safe.2 three

-- A run of prey that fills the whole range is taken whole.
take_all :
    {offset k : ℕ} {board : List ℕ} {captured n : ℕ} {after : List ℕ} {score : ℕ}
    → Captured offset k board captured n after score
    → ((j : ℕ) → offset ≤ j → j < offset + k → IsPrey (get_or board j 0))
    → (j : ℕ) → offset ≤ j
    → j < offset + k
    → get_or after j 0 ≡ 0
take_all {offset} {k} {n} c prey j lo hi = elim (Bool-cases (ltb n k)) [
  | inl short ↦ absurd (
      c.maximal (k - n - 1) (ground arith)
        (prey (offset + (k - n - 1)) (omega arith) (ground arith)))
  | inr whole ↦ (c.taken j (ground arith) hi).0
]

-- In a room of two players side 0 never takes the other side's last seeds: after a move of its own
-- either its score is what it was, or some house of side 1 still holds a seed.
pub feeding_side0 :
    (g : Game) (house : ℕ)
    → IsValid g
    → g.nb_players ≡ 2
    → IsOwn 0 house
    → 0 < get_or g.board house 0
    → (g' : Game) × (game_play g (pos house) 0 ≡ some (valid_play, g'))
      × (((g'.players 0).captured ≡ (g.players 0).captured)
          ⊎ ((j : ℕ) × (6 ≤ j) × (j < 12) × (0 < get_or g'.board j 0)))
feeding_side0 g house v two own full =
    let (g', run, p) = game_play-Played g house 0 v (omega arith) own full in
    (g', run, fed g' p p.outcome)
  where
    behind : (sown : List ℕ) → length sown ≡ 12 → get_or (board_memory sown g.nb_players) 12 0 ≡ 2
    behind sown len = rw (two) (board_memory-behind sown 2 len)

    fed :
        (g' : Game) (p : Played g house 0 g')
        → Outcome g 0 p.sown p.last g'
        → ((g'.players 0).captured ≡ (g.players 0).captured)
          ⊎ ((j : ℕ) × (6 ≤ j) × (j < 12) × (0 < get_or g'.board j 0))
    fed g' p (inl (_, _, same)) = inl same
    fed g' p (inr ((_, _, (j, lo, hi, safe)), (n, c))) = elim (Bool-cases (j == 12)) [
      | inl at ↦ absurd (safe.1 (rw ((==_iff j 12).0 at) (behind p.sown p.sowing.width)))
      | inr here ↦
          let seen : IsSafe (get_or p.sown j 0) =
            rw (board_memory-house p.sown g.nb_players j (ground (arith, p.sowing.width))) at
              safe in
          inr (j, lo, ground arith, ground (arith, kept_safe c j seen, seen.0))
    ]

-- Side 1 can: when house 11 holds six seeds, the six houses of side 0 hold one or two each, and its
-- own house 6 holds neither 0, 2 nor 3, sowing house 11 takes every seed of side 0.
pub starving_side1 :
    (g : Game)
    → IsValid g
    → get_or g.board 11 0 ≡ 6
    → ((j : ℕ) → j < 6 → (get_or g.board j 0 ≡ 1) ⊎ (get_or g.board j 0 ≡ 2))
    → IsSafe (get_or g.board 6 0)
    → (g' : Game) × (game_play g (pos 11) 1 ≡ some (valid_play, g'))
      × ((j : ℕ) → j < 6 → get_or g'.board j 0 ≡ 0)
starving_side1 g v six small safe =
    let (g', run, p) = game_play-Played g 11 1 v (omega arith) (omega arith) (omega arith) in
    (g', run, starved g' p p.outcome)
  where
    ends : (g' : Game) (p : Played g 11 1 g') → p.last ≡ 5
    ends g' p = rw p.sowing.ends (rw six)

    wrap : (j : ℕ) → j < 6 → (11 + (j + 1)) % 12 ≡ j
    wrap j h = omega arith

    own : (g' : Game) (p : Played g 11 1 g') → get_or p.sown 6 0 ≡ get_or g.board 6 0
    own g' p = p.sowing.houses 7 (omega arith) (omega arith) ∙ ground (arith, six)

    prey : (g' : Game) (p : Played g 11 1 g') (j : ℕ) → j < 6 → IsPrey (get_or p.sown j 0)
    prey g' p j h =
        let more : get_or p.sown j 0
            ≡ get_or g.board j 0 + (get_or g.board 11 0 + 11 - (j + 1)) / 11 =
          subst
            (λ i.
              get_or p.sown i 0 ≡ get_or g.board i 0 + (get_or g.board 11 0 + 11 - (j + 1)) / 11)
            (wrap j h) (p.sowing.houses (j + 1) (omega arith) (omega arith)) in
        ground (arith, more, small j h, six)

    starved :
        (g' : Game) (p : Played g 11 1 g')
        → Outcome g 1 p.sown p.last g'
        → (j : ℕ) → j < 6
        → get_or g'.board j 0 ≡ 0
    starved g' p (inl (never, _, _)) j h = absurd (
        never (
          omega arith,
          omega (arith, ends g' p),
          (
            6,
            omega arith,
            omega arith,
            rw (board_memory-house p.sown g.nb_players 6 (omega (arith, p.sowing.width)), own g' p)
                safe,
          ),
        ))
    starved g' p (inr (_, (n, c))) j h =
        take_all c (λ i lo hi. prey g' p i (omega (arith, ends g' p))) j (omega arith)
          (omega (arith, ends g' p))
