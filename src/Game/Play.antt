-- ===== src/Game/Play.antt =====
-- `game_play` (server/src/game.c) as a whole.
use awale_online.Prelude.{
  ℕ, zero, suc, update_self, update_ne, ◌+◌, ◌-◌, ◌*◌, ◌%◌, ◌≤◌, ◌<◌, ◌≡◌, ◌↔◌, refl, ap, ◌∙◌, ◌⊎◌,
  inl, inr, true, false, Bool, some, List, length, get_or, sum, ℤ, pos, negsuc, arith,
}
use awale_online.Game.{
  Game, Player, valid_play, out_of_bounds, empty_house, settle, opposite, game_play, play_house,
}
use awale_online.Game.Sow.{Sowing, sow_lem}
use awale_online.Game.Capture.{Captured, capture-Captured}
use awale_online.Game.Slam.{MayCapture, can_capture_iff}

-- Twelve houses, and 48 seeds on the board and in the two scores together.
pub record IsValid (g : Game) : Type 0 where
  pub width : length g.board ≡ 12
  pub seeds : sum g.board + (g.players 0).captured + (g.players 1).captured ≡ 48
  pub seated : g.nb_players ≤ 2
  pub turns : g.turn < 2

-- What a captured run does to the board `sown` and to the score of the side that moves.
abbrev pub Outcome : Game → ℕ → List ℕ → ℕ → Game → Type 0
Outcome g side sown last g' =
    ((¬ MayCapture sown g.nb_players (1 - side) last)
      × (g'.board ≡ sown)
      × ((g'.players side).captured ≡ (g.players side).captured))
    ⊎ (MayCapture sown g.nb_players (1 - side) last
        × ((n : ℕ) × Captured (6 * (1 - side)) (last + 1 - 6 * (1 - side)) sown
              (g.players side).captured n g'.board (g'.players side).captured))

-- A move of `side` from `house`.
pub record Played (g : Game) (house side : ℕ) (g' : Game) : Type 0 where
  pub sown : List ℕ
  pub last : ℕ
  pub sowing : Sowing g.board house sown last
  pub outcome : Outcome g side sown last g'
  pub turn : g'.turn + g.turn ≡ 1
  pub opponent : g'.players (1 - side) ≡ g.players (1 - side)
  pub started : g'.is_started ≡ g.is_started
  pub seats : (g'.nb_players ≡ g.nb_players) × (g'.nb_spectators ≡ g.nb_spectators)

-- All the seeds, the score of the side that moves first.
abbrev total_for : Game → ℕ → ℕ
total_for g side = sum g.board + (g.players side).captured + (g.players (1 - side)).captured

seeds_by_side :
    (g : Game)
    → sum g.board + (g.players 0).captured + (g.players 1).captured ≡ 48
    → (side : ℕ) → side < 2
    → total_for g side ≡ 48
seeds_by_side g h zero hs = h
seeds_by_side g h (suc zero) hs = omega arith
seeds_by_side g h (suc (suc n)) hs = absurd (omega arith)

seeds_of_side :
    (g : Game) (side : ℕ)
    → side < 2
    → total_for g side ≡ 48
    → sum g.board + (g.players 0).captured + (g.players 1).captured ≡ 48
seeds_of_side g zero hs h = h
seeds_of_side g (suc zero) hs h = omega arith
seeds_of_side g (suc (suc n)) hs h = absurd (omega arith)

pub opposite_lem : (side : ℕ) → side < 2 → opposite side ≡ some (1 - side)
unfolding opposite
opposite_lem zero h = refl
opposite_lem (suc zero) h = refl
opposite_lem (suc (suc n)) h = absurd (omega arith)

module _ (g : Game) (v : IsValid g) (house side : ℕ) (hs : side < 2) (sown : List ℕ) (last : ℕ)
    (sowing : Sowing g.board house sown last) where
  settle-Outcome :
      (b : Bool)
      → (b ≡ true) ↔ MayCapture sown g.nb_players (1 - side) last
      → Outcome g side sown last (settle g side (1 - side) sown last b)
  unfolding settle
  settle-Outcome false h =
      inl ((λ m. cc (h.1 m)), refl, ap (λ (p : Player). p.captured) (update_self g.players side _))
  settle-Outcome true h = inr (
    h.0 refl,
    rw (update_self g.players side) (
        capture-Captured (6 * (1 - side)) (last + 1 - 6 * (1 - side)) sown (g.players side).captured
          (omega (arith, sowing.width, h.0 refl))
          (omega (arith, sowing.total, seeds_by_side g v.seeds side hs))),
  )

  settle-Played :
      (b : Bool)
      → (b ≡ true) ↔ MayCapture sown g.nb_players (1 - side) last
      → Played g house side (settle g side (1 - side) sown last b)
  unfolding settle
  settle-Played b h = record {
    sown = sown;
    last = last;
    sowing = sowing;
    outcome = settle-Outcome b h;
    turn = ground (arith, v.turns);
    opponent = update_ne g.players side (1 - side) _ (omega arith);
    started = refl;
    seats = (refl, refl);
  }

play_house-Played :
    {g : Game} (house side : ℕ)
    → IsValid g
    → side < 2
    → house < 12
    → 0 < get_or g.board house 0
    → (g' : Game) × (play_house g house side ≡ some (valid_play, g')) × Played g house side g'
unfolding play_house
play_house-Played {g} house side v hs hh some_seeds =
    let (i, sown, run, s) = sow_lem g.board house v.width (omega (arith, v.seeds)) hh some_seeds in
    let (b, test, may) =
      can_capture_iff sown g.nb_players (1 - side) ((i - 1) % 12) s.width (omega arith)
        (omega arith) in
    (
      settle g side (1 - side) sown ((i - 1) % 12) b,
      rw (opposite_lem side hs, run, test),
      settle-Played g v house side hs sown ((i - 1) % 12) s b may,
    )

Outcome-total :
    (g : Game) (side : ℕ) (sown : List ℕ) (last : ℕ) (g' : Game)
    → length sown ≡ 12
    → Outcome g side sown last g'
    → (length g'.board ≡ 12)
      × (sum g'.board + (g'.players side).captured ≡ sum sown + (g.players side).captured)
Outcome-total g side sown last g' len (inl (_, e, s)) = (rw e len, rw (e, s))
Outcome-total g side sown last g' len (inr (_, (n, c))) = (c.width ∙ len, c.total)

pub Played-IsValid :
    (g g' : Game) (house side : ℕ) → side < 2 → IsValid g → Played g house side g' → IsValid g'
Played-IsValid g g' house side hs v p =
    let (width, kept) = Outcome-total g side p.sown p.last g' p.sowing.width p.outcome in
    record {
      width = width;
      seeds = seeds_of_side g' side hs (
          omega (
            arith,
            kept,
            p.sowing.total,
            seeds_by_side g v.seeds side hs,
            ap (λ (q : Player). q.captured) p.opponent,
          ));
      seated = omega (arith, p.seats.0, v.seated);
      turns = omega (arith, p.turn);
    }

-- The house is one of the mover's own six.
abbrev pub IsOwn : ℕ → ℕ → Type 0
IsOwn side house = (6 * side ≤ house) × (house < 6 * side + 6)

-- A move from an own house that holds seeds is valid, and never faults: the seeds are sown, the
-- longest run of twos and threes that ends at the last of them is taken if the test allows it, the
-- turn passes, and the other player and the seats stay as they were.
pub game_play-Played :
    (g : Game) (house side : ℕ)
    → IsValid g
    → side < 2
    → IsOwn side house
    → 0 < get_or g.board house 0
    → (g' : Game) × (game_play g (pos house) side ≡ some (valid_play, g')) × Played g house side g'
unfolding game_play
game_play-Played g house side v hs own some_seeds =
    let (g', run, p) = play_house-Played house side v hs (omega arith) some_seeds in
    (g', ground (arith, run), p)

-- The same of a C `int`, which is no house where it is negative.
abbrev pub IsOwnPos : ℕ → ℤ → Type 0
IsOwnPos side (pos house) = IsOwn side house
IsOwnPos side (negsuc n) = ⊥

-- A move of either side from a position that is not one of its own houses is refused as out of
-- bounds, a move from an own house without seeds as empty, and in both cases the game stays as it
-- was.
pub game_play_refused :
    (g : Game) (side : ℕ)
    → side < 2
    → ((house : ℤ) → ¬ IsOwnPos side house → game_play g house side ≡ some (out_of_bounds, g))
      × ((house : ℕ)
          → IsOwn side house
          → get_or g.board house 0 ≡ 0
          → game_play g (pos house) side ≡ some (empty_house, g))
unfolding game_play
game_play_refused g side hs = (
  elim [ negsuc n ↦ λ out. refl | pos house ↦ λ out. ground (arith, out) ],
  λ house own empty. ground arith,
)
