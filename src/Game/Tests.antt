-- ===== src/Game/Tests.antt =====
-- Runs of the functions of server/src/game.c, and the theorems about them at concrete games.
use awale_online.Prelude.{
  ℕ, ◌-◌, ◌%◌, ◌≤◌, ◌<◌, ◌≡◌, ◌↔◌, refl, ◌⊎◌, some, List, [], ◌∷◌, ℤ, pos, get_or, set, sum,
  replicate, update, Bool, true, ◌==◌, if◌then◌else◌, arith,
}
use awale_online.Game.{
  Player, Game, p1won, p2won, draw, not_ended, PlayResult, valid_play, out_of_bounds, empty_house,
  game_is_ended, game_play, play_house, settle, sow, bump, capture, opposite, board_memory,
  game_board_can_capture, any_safe,
}
use awale_online.Game.Sow.{Sowing, sow_lem}
use awale_online.Game.Capture.{Captured, capture-Captured}
use awale_online.Game.Slam.{MayCapture, can_capture_iff}
use awale_online.Game.Play.{IsValid, IsOwn, IsOwnPos, Played, game_play-Played, game_play_refused}
use awale_online.Game.Rules.{game_play-IsValid, game_is_ended_iff}
use awale_online.Game.Feeding.{feeding_side0}

abbrev player : ℤ → ℕ → Player
player id score = record { id = id; name = []; captured = score; client_index = 0 }

abbrev game : List ℕ → ℕ → ℕ → Game
game board mine theirs = record {
  board = board;
  nb_players = 2;
  nb_spectators = 0;
  players = λ j. if j == 0 then player (pos 4) mine else player (pos 5) theirs;
  is_started = true;
  turn = 0;
}

abbrev opening : Game
opening = game (replicate 12 4) 0 0

-- Side 0 has 13 seeds in house 0: more than a lap.
abbrev full_house : List ℕ
full_house = 13 ∷ 0 ∷ 0 ∷ 0 ∷ 0 ∷ 0 ∷ 5 ∷ 0 ∷ 0 ∷ 0 ∷ 0 ∷ 0 ∷ []

-- Side 0 takes house 7 by playing house 5.
abbrev raid : List ℕ
raid = 1 ∷ 0 ∷ 0 ∷ 0 ∷ 0 ∷ 2 ∷ 1 ∷ 2 ∷ 4 ∷ 0 ∷ 0 ∷ 0 ∷ []

sow_more_than_a_lap :
    sow 26 0 1 13 (set full_house 0 0)
    ≡ some (15, 0 ∷ 2 ∷ 2 ∷ 1 ∷ 1 ∷ 1 ∷ 6 ∷ 1 ∷ 1 ∷ 1 ∷ 1 ∷ 1 ∷ [])
unfolding sow bump
sow_more_than_a_lap = refl

play_raid :
    (r : PlayResult) × (g : Game) × (game_play (game raid 20 18) (pos 5) 0 ≡ some (r, g))
    × (g.board ≡ 1 ∷ 0 ∷ 0 ∷ 0 ∷ 0 ∷ 0 ∷ 0 ∷ 0 ∷ 4 ∷ 0 ∷ 0 ∷ 0 ∷ [])
    × ((g.players 0).captured ≡ 25)
    × (game_is_ended g ≡ p1won)
unfolding game_play play_house settle sow bump opposite board_memory game_board_can_capture any_safe
    game_is_ended capture update
play_raid = (valid_play, _, refl, refl, refl, refl)

opening-IsValid : IsValid opening
opening-IsValid = record { width = refl; seeds = refl; seated = omega arith; turns = omega arith }

raid-IsValid : IsValid (game raid 20 18)
raid-IsValid = record { width = refl; seeds = refl; seated = omega arith; turns = omega arith }

sow_lem_example :
    (i : ℕ) × (after : List ℕ) × (sow 26 0 1 13 (set full_house 0 0) ≡ some (i, after))
    × Sowing full_house 0 after ((i - 1) % 12)
sow_lem_example = sow_lem full_house 0 refl (omega arith) (omega arith) (omega arith)

capture-Captured_example :
    (n : ℕ) × Captured 6 2 raid 20 n (capture 6 2 raid 20).0 (capture 6 2 raid 20).1
capture-Captured_example = capture-Captured 6 2 raid 20 (omega arith) (omega arith)

can_capture_iff_example :
    (b : Bool) × (game_board_can_capture (board_memory raid 2) 1 7 ≡ some b)
    × ((b ≡ true) ↔ MayCapture raid 2 1 7)
can_capture_iff_example = can_capture_iff raid 2 1 7 refl (omega arith) (omega arith)

game_play-Played_example :
    (g' : Game) × (game_play (game raid 20 18) (pos 5) 0 ≡ some (valid_play, g'))
    × Played (game raid 20 18) 5 0 g'
game_play-Played_example =
    game_play-Played (game raid 20 18) 5 0 raid-IsValid (omega arith) (omega arith) (omega arith)

game_play_refused_example :
    ((house : ℤ) → ¬ IsOwnPos 0 house → game_play opening house 0 ≡ some (out_of_bounds, opening))
    × ((house : ℕ)
        → IsOwn 0 house
        → get_or opening.board house 0 ≡ 0
        → game_play opening (pos house) 0 ≡ some (empty_house, opening))
game_play_refused_example = game_play_refused opening 0 (omega arith)

game_play-IsValid_example :
    (r : PlayResult) × (g' : Game) × (game_play opening (pos 14) 1 ≡ some (r, g')) × IsValid g'
game_play-IsValid_example = game_play-IsValid opening (pos 14) 1 opening-IsValid (omega arith)

game_is_ended_iff_example :
    ((game_is_ended opening ≡ p1won) ↔ (24 < (opening.players 0).captured))
    × ((game_is_ended opening ≡ p2won) ↔ (24 < (opening.players 1).captured))
    × ((game_is_ended opening ≡ draw)
        ↔ (((opening.players 0).captured ≡ 24) × ((opening.players 1).captured ≡ 24)))
    × (game_is_ended opening ≡ draw → sum opening.board ≡ 0)
    × (game_is_ended opening ≡ not_ended → 0 < sum opening.board)
game_is_ended_iff_example = game_is_ended_iff opening opening-IsValid

feeding_side0_example :
    (g' : Game) × (game_play (game raid 20 18) (pos 5) 0 ≡ some (valid_play, g'))
    × (((g'.players 0).captured ≡ 20) ⊎ ((j : ℕ) × (6 ≤ j) × (j < 12) × (0 < get_or g'.board j 0)))
feeding_side0_example =
    feeding_side0 (game raid 20 18) 5 raid-IsValid refl (omega arith) (omega arith)
