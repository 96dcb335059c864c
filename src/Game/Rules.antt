-- ===== src/Game/Rules.antt =====
-- What the rules of server/src/game.c promise over whole games: the seeds, the end of a game, the
-- first position, and captures that would leave the other side without seeds.
use awale_online.Prelude.{
  ℕ, ◌+◌, ◌*◌, ◌<◌, ◌≡◌, ◌↔◌, refl, ◌⊎◌, inl, inr, Option, some, get_or, sum, ◌==◌, ltb, leb, ℤ,
  pos, negsuc, arith, Bool-cases, ==_iff, ◌>>=◌, ◌&&◌, replicate, update,
}
use awale_online.Game.{
  Game, Player, PlayResult, valid_play, out_of_bounds, empty_house, game_play, p1won, p2won, draw,
  not_ended, game_is_ended, game_init, game_add_player,
}
use awale_online.Game.Play.{IsValid, IsOwn, Played-IsValid, game_play-Played, game_play_refused}

IsOwn-cases : (side house : ℕ) → (IsOwn side house) ⊎ (¬ IsOwn side house)
IsOwn-cases side house = elim (Bool-cases (leb (6 * side) house && ltb house (6 * side + 6))) [
  | inl y ↦ inl (ground arith)
  | inr n ↦ inr (λ own. ground arith)
]

-- A move of either side, from any position, gives an answer without a fault, and keeps the twelve
-- houses, the 48 seeds and the two seats.
pub game_play-IsValid :
    (g : Game) (house : ℤ) (side : ℕ)
    → IsValid g
    → side < 2
    → (r : PlayResult) × (g' : Game) × (game_play g house side ≡ some (r, g')) × IsValid g'
game_play-IsValid g (negsuc n) side v hs =
    (out_of_bounds, g, (game_play_refused g side hs).0 (negsuc n) (λ h. h), v)
game_play-IsValid g (pos house) side v hs = elim (IsOwn-cases side house) [
  | inr out ↦ (out_of_bounds, g, (game_play_refused g side hs).0 (pos house) out, v)
  | inl own ↦ elim (Bool-cases (get_or g.board house 0 == 0)) [
    | inl e ↦ (empty_house, g, (game_play_refused g side hs).1 house own ((==_iff _ 0).0 e), v)
    | inr full ↦
        let (g', run, p) = game_play-Played g house side v hs own (ground arith) in
        (valid_play, g', run, Played-IsValid g g' house side hs v p)
  ]
]

-- In a valid game the end is told apart exactly: a player has won who holds more than half of the
-- seeds, a draw is half for each, with none on the board, and until one of these there are seeds left
-- to play.
pub game_is_ended_iff :
    (g : Game)
    → IsValid g
    → ((game_is_ended g ≡ p1won) ↔ (24 < (g.players 0).captured))
      × ((game_is_ended g ≡ p2won) ↔ (24 < (g.players 1).captured))
      × ((game_is_ended g ≡ draw) ↔ (((g.players 0).captured ≡ 24) × ((g.players 1).captured ≡ 24)))
      × (game_is_ended g ≡ draw → sum g.board ≡ 0)
      × (game_is_ended g ≡ not_ended → 0 < sum g.board)
unfolding game_is_ended
game_is_ended_iff g v = (
  (ground arith, ground arith),
  (ground arith, ground arith),
  (ground arith, ground arith),
  ground arith,
  ground arith,
)

-- The room's two calls that lead to a game.
abbrev pub start : Game → Player → Player → Option Game
start g p q = game_add_player (game_init g) p 0 >>= λ g1. game_add_player g1 q 0

-- Whatever the game held before, after `game_init` and two players the game is valid, not ended, with
-- four seeds in each house and side 0 to move, and the players sit in the order of their coming.
pub start-IsValid :
    (g : Game) (p q : Player)
    → (g' : Game) × (start g p q ≡ some g')
      × IsValid g'
      × (game_is_ended g' ≡ not_ended)
      × (g'.board ≡ replicate 12 4)
      × (g'.turn ≡ 0)
      × (g'.nb_players ≡ 2)
      × (g'.players 0 ≡ record p { captured = 0 })
      × (g'.players 1 ≡ record q { captured = 0 })
unfolding game_init game_add_player game_is_ended
start-IsValid g p q = (
  record (game_init g) {
    players = update (update g.players 0 (record p { captured = 0 })) 1 (record q { captured = 0 });
    nb_players = 2;
  },
  refl,
  record { width = refl; seeds = refl; seated = omega arith; turns = omega arith },
  refl,
  refl,
  refl,
  refl,
  refl,
  refl,
)
