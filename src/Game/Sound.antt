-- ===== src/Game/Sound.antt =====
-- What holds of a game in a room before and after its second player comes, under the calls of
-- server/src/game.c. A spectator may move for the side of the player who is missing.
use awale_online.Prelude.{
  ℕ, zero, suc, update_self, ◌+◌, ◌-◌, ◌*◌, ◌%◌, ◌≤◌, ◌<◌, ◌≡◌, refl, ap, ◌∙◌, inl, inr, true,
  false, Bool, some, List, length, get_or, set, sum, pos, arith, [], ◌∷◌, if◌then◌else◌, ◌==◌, leb,
  ltb, ◌&&◌, ◌||◌, Bool-cases, length-set, ==_iff, update,
}
use awale_online.Game.{
  Game, Player, PlayResult, valid_play, out_of_bounds, empty_house, settle, capture, game_play,
  play_house, max_game_players, game_is_ended, not_ended,
}
use awale_online.Game.Sow.{sow_lem}
use awale_online.Game.Slam.{can_capture_iff}
use awale_online.Game.Play.{opposite_lem}

-- The score of seat 1 counts once a second player sits there: `game_add_player` sets it to 0.
abbrev pub seat1_score : Game → ℕ
seat1_score g = if g.is_started then (g.players 1).captured else 0

-- Nobody has more than half of the seeds, and not both players have half of them.
abbrev pub IsGoing : Game → Type 0
IsGoing g =
    ((g.players 0).captured ≤ 24)
    × (seat1_score g ≤ 24)
    × ((g.players 0).captured + seat1_score g < 48)

-- Twelve houses, no more seeds than a game starts with, one player or two started ones, spectators who
-- have a seat, the turn of a side, and a game that is not over.
pub record IsSound (g : Game) : Type 0 where
  pub width : length g.board ≡ 12
  pub seeds : sum g.board + (g.players 0).captured + seat1_score g ≤ 48
  pub seats : g.nb_players ≡ (if g.is_started then 2 else 1)
  pub watched : 2 + g.nb_spectators ≤ max_game_players
  pub turns : g.turn < 2
  pub going : IsGoing g

-- A started game that is sound has not ended.
pub IsSound-not_ended : (g : Game) → IsSound g → g.is_started ≡ true → game_is_ended g ≡ not_ended
unfolding game_is_ended
IsSound-not_ended g v on =
    let (first, second, both) = v.going in
    let score : (g.players 1).captured ≤ 24 = rw on at second in
    let undecided : (g.players 0).captured + (g.players 1).captured < 48 = rw on at both in
    ground arith

not_ended-IsGoing :
    (g : Game)
    → sum g.board + (g.players 0).captured + seat1_score g ≤ 48
    → game_is_ended g ≡ not_ended
    → IsGoing g
unfolding game_is_ended
not_ended-IsGoing g seeds going = elim (Bool-cases g.is_started) [
  | inl on ↦
      let total : sum g.board + (g.players 0).captured + (g.players 1).captured ≤ 48 =
        rw on at seeds in
      rw on (ground arith, ground arith, ground arith)
  | inr off ↦
      let total : sum g.board + (g.players 0).captured + 0 ≤ 48 = rw off at seeds in
      rw off (ground arith, omega arith, ground arith)
]

-- Emptying a house takes its seeds off the board.
sum-emptied : (board : List ℕ) (i : ℕ) → sum (set board i 0) + get_or board i 0 ≤ sum board
sum-emptied [] i = omega arith
sum-emptied (x ∷ xs) zero = omega arith
sum-emptied (x ∷ xs) (suc i) = omega (arith, sum-emptied xs i)

-- Whatever score it starts from, the capturing loop keeps the houses and makes no seeds.
capture-le :
    (offset k : ℕ) (board : List ℕ) (captured : ℕ)
    → (length (capture offset k board captured).0 ≡ length board)
      × (sum (capture offset k board captured).0 ≤ sum board)
      × (sum (capture offset k board captured).0 + (capture offset k board captured).1
          ≤ sum board + captured)
unfolding capture
capture-le offset zero board captured = (refl, omega arith, omega arith)
capture-le offset (suc k) board captured =
    let seeds = get_or board (offset + k) 0 in
    elim (Bool-cases (seeds == 2 || seeds == 3)) [
      | inl prey ↦
          let (width, fewer, total) =
            capture-le offset k (set board (offset + k) 0) ((captured + seeds) % 256) in
          rw prey (
            width ∙ length-set board (offset + k) 0,
            omega (arith, fewer, sum-emptied board (offset + k)),
            omega (arith, total, sum-emptied board (offset + k)),
          )
      | inr stop ↦ rw stop (refl, omega arith, omega arith)
    ]

-- A move for seat 1, whose score counts or does not.
seat1_bound :
    (counts : Bool) (seeds seeds' other score score' : ℕ)
    → seeds + other + (if counts then score else 0) ≤ 48
    → seeds' ≤ seeds
    → seeds' + score' ≤ seeds + score
    → seeds' + other + (if counts then score' else 0) ≤ 48
seat1_bound true seeds seeds' other score score' bound fewer total = omega arith
seat1_bound false seeds seeds' other score score' bound fewer total = omega arith

module _ (g : Game) (v : IsSound g) (sown : List ℕ) (last : ℕ) (len : length sown ≡ 12)
    (same : sum sown ≡ sum g.board) where
  settle-width : (b : Bool) (side other : ℕ) → length (settle g side other sown last b).board ≡ 12
  unfolding settle
  settle-width true side other =
      (capture-le (6 * other) (last + 1 - 6 * other) sown (g.players side).captured).0 ∙ len
  settle-width false side other = len

  settle-seeds :
      (b : Bool) (side : ℕ)
      → side < 2
      → sum (settle g side (1 - side) sown last b).board
          + ((settle g side (1 - side) sown last b).players 0).captured
          + seat1_score (settle g side (1 - side) sown last b)
        ≤ 48
  unfolding settle update
  settle-seeds true zero hs =
      let (_, _, total) = capture-le 6 (last + 1 - 6) sown (g.players 0).captured in
      omega (arith, total, v.seeds, same)
  settle-seeds false zero hs = omega (arith, v.seeds, same)
  settle-seeds true (suc zero) hs =
      let (_, fewer, total) =
        capture-le (6 * (1 - 1)) (last + 1 - 6 * (1 - 1)) sown (g.players 1).captured in
      let (left, score) =
        capture (6 * (1 - 1)) (last + 1 - 6 * (1 - 1)) sown (g.players 1).captured in
      seat1_bound g.is_started (sum g.board) (sum left) (g.players 0).captured
        (g.players 1).captured score v.seeds (omega (arith, fewer, same))
        (omega (arith, total, same))
  settle-seeds false (suc zero) hs =
      seat1_bound g.is_started (sum g.board) _ (g.players 0).captured (g.players 1).captured _
        v.seeds (omega (arith, same)) (omega (arith, same))
  settle-seeds b (suc (suc n)) hs = absurd (omega arith)

  settle-kept :
      (b : Bool) (side other : ℕ)
      → ((settle g side other sown last b).nb_players ≡ g.nb_players)
        × ((j : ℕ) → ((settle g side other sown last b).players j).name ≡ (g.players j).name)
        × ((settle g side other sown last b).nb_spectators ≡ g.nb_spectators)
  unfolding settle update
  settle-kept b side other = (
    refl,
    (λ j. elim (Bool-cases (j == side)) [
      | inl here ↦
          rw ((==_iff j side).0 here) (ap (λ (q : Player). q.name) (update_self g.players side _))
      | inr there ↦ rw there refl
    ]),
    refl,
  )

  -- The end of a move whose seeds are sown.
  settle-IsSound :
      (b : Bool) (side : ℕ)
      → side < 2
      → game_is_ended (settle g side (1 - side) sown last b) ≡ not_ended
      → IsSound (settle g side (1 - side) sown last b)
  unfolding settle
  settle-IsSound b side hs undecided = record {
    width = settle-width b side (1 - side);
    seeds = settle-seeds b side hs;
    seats = v.seats;
    watched = v.watched;
    turns = ground arith;
    going =
        not_ended-IsGoing (settle g side (1 - side) sown last b) (settle-seeds b side hs) undecided;
  }

-- A move of either side from any position gives an answer without a fault, and what it leaves, unless
-- the game has ended, is sound, with as many players and spectators and the
-- same names.
pub game_play-IsSound :
    (g : Game) (house side : ℕ)
    → IsSound g
    → side < 2
    → (r : PlayResult) × (g' : Game) × (game_play g (pos house) side ≡ some (r, g'))
      × (game_is_ended g' ≡ not_ended → IsSound g')
      × (g'.nb_players ≡ g.nb_players)
      × ((j : ℕ) → (g'.players j).name ≡ (g.players j).name)
      × (g'.nb_spectators ≡ g.nb_spectators)
unfolding game_play play_house
game_play-IsSound g house side v hs =
    elim (Bool-cases (leb 12 house || ((side == 0 && leb 6 house) || (side == 1 && ltb house 6)))) [
      | inl out ↦ rw out (out_of_bounds, g, refl, (λ e. v), refl, (λ j. refl), refl)
      | inr own ↦ rw own (elim (Bool-cases (get_or g.board house 0 == 0)) [
        | inl empty ↦ rw empty (empty_house, g, refl, (λ e. v), refl, (λ j. refl), refl)
        | inr full ↦ rw full (played (ground arith) (ground arith))
      ])
    ]
  where
    played :
        house < 12
        → 0 < get_or g.board house 0
        → (r : PlayResult) × (g' : Game) × (play_house g house side ≡ some (r, g'))
          × (game_is_ended g' ≡ not_ended → IsSound g')
          × (g'.nb_players ≡ g.nb_players)
          × ((j : ℕ) → (g'.players j).name ≡ (g.players j).name)
          × (g'.nb_spectators ≡ g.nb_spectators)
    played inside some_seeds =
        let (i, sown, run, s) =
          sow_lem g.board house v.width (omega (arith, v.seeds)) inside some_seeds in
        let (b, test, may) =
          can_capture_iff sown g.nb_players (1 - side) ((i - 1) % 12) s.width (omega arith)
            (omega arith) in
        let kept = settle-kept g v sown ((i - 1) % 12) s.width s.total b side (1 - side) in
        (
          valid_play,
          settle g side (1 - side) sown ((i - 1) % 12) b,
          rw (opposite_lem side hs, run, test),
          settle-IsSound g v sown ((i - 1) % 12) s.width s.total b side hs,
          kept.0,
          kept.1,
          kept.2,
        )
