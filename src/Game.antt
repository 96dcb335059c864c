-- ===== src/Game.antt =====
-- server/src/game.c and server/include/game.h: the board, the seats and the rules.
-- A `uint8_t` house and an `int8_t` score are bit patterns below 256. `none` is an access outside
-- an object, which C leaves undefined.
mod Tests
pub mod Capture
pub mod Play
pub mod Rules
pub mod Feeding
pub mod Seats
pub mod Turns
pub mod Slam
pub mod Sound
pub mod Sow
use awale_online.Prelude.{
  ℕ, zero, suc, ◌+◌, ◌-◌, ◌*◌, ◌/◌, ◌%◌, ◌^◌, Bool, true, false, not, ◌&&◌, ◌||◌, Option, none,
  some, List, [], ◌∷◌, ◌++◌, ltb, leb, ◌==◌, if◌then◌else◌, ℤ, pos, negsuc, get_elem?, get_or, set,
  replicate, update, ◌>>=◌, ◌>>◌, guard,
}

abbrev pub board_size : ℕ
board_size = 12

abbrev pub max_game_players : ℕ
max_game_players = 1024

abbrev pub initial_seed : ℕ
initial_seed = 4

pub data GameState : Type 0 where
  not_ended p1won p2won draw : GameState

pub data PlayResult : Type 0 where
  valid_play out_of_bounds empty_house : PlayResult

-- `id` is a socket, or -1 for a player whose connection is gone.
pub record Player : Type 0 where
  pub id : ℤ
  pub name : List ℕ
  pub captured : ℕ
  pub client_index : ℕ

pub record Game : Type 0 where
  pub board : List ℕ
  pub nb_players : ℕ
  pub nb_spectators : ℕ
  pub players : ℕ → Player
  pub is_started : Bool
  pub turn : ℕ

-- `game_init`: the seats keep what they held.
unfoldable pub game_init : Game → Game
game_init g = record g {
  board = replicate board_size initial_seed;
  nb_players = 0;
  nb_spectators = 0;
  is_started = false;
  turn = 0;
}

-- `game_add_player`: players sit from seat 0 on, spectators from seat 2 on.
unfoldable pub game_add_player : Game → Player → ℕ → Option Game
unfolding update
game_add_player g player spectate = do
  let index = if spectate == 0 then g.nb_players else 2 + g.nb_spectators
  guard (ltb index max_game_players)
  let seated = record g { players = update g.players index (record player { captured = 0 }) }
  some (
      if spectate == 0
      then record seated { nb_players = g.nb_players + 1 }
      else record seated { nb_spectators = g.nb_spectators + 1 })

-- `board[i] != 0 && board[i] != 2 && board[i] != 3`
abbrev pub is_safe : ℕ → Bool
is_safe seeds = not (seeds == 0) && (not (seeds == 2) && not (seeds == 3))

-- The loop of `game_board_can_capture`, with `k` rounds left: the next index is `offset + k - 1`.
-- `mem` is the memory that starts at `board`.
unfoldable pub any_safe : List ℕ → ℕ → ℕ → Option Bool
any_safe mem offset zero = some false
any_safe mem offset (suc k) = do
  seeds ← get_elem? mem (offset + k)
  if is_safe seeds then some true else any_safe mem offset k

-- The loop runs over `BOARD_SIZE / 2 + 1` indices, from `BOARD_SIZE / 2 + offset` down to `offset`.
unfoldable pub game_board_can_capture : List ℕ → ℕ → ℕ → Option Bool
game_board_can_capture mem opposite_side last_pos =
    if (opposite_side == 1 && ltb last_pos 6) || (opposite_side == 0 && leb 6 last_pos)
    then some false
    else any_safe mem (6 * opposite_side) 7

-- `captured > BOARD_SIZE * 2` on a signed byte: a pattern from 128 on is negative.
abbrev pub above_half : ℕ → Bool
above_half captured = ltb (board_size * 2) captured && ltb captured 128

unfoldable pub game_is_ended : Game → GameState
game_is_ended g =
    if above_half (g.players 0).captured
    then p1won
    else if above_half (g.players 1).captured
    then p2won
    else if (g.players 0).captured == board_size * 2 && (g.players 1).captured == board_size * 2
    then draw
    else not_ended

-- `++board[i]` on a `uint8_t`
unfoldable pub bump : List ℕ → ℕ → List ℕ
bump board i = set board i ((get_or board i 0 + 1) % 256)

-- The sowing loop: the index after the last round, and the board. `none` is the end of the fuel.
unfoldable pub sow : ℕ → ℕ → ℕ → ℕ → List ℕ → Option (ℕ × List ℕ)
sow fuel house i zero board = some (i, board)
sow zero house i (suc seeds) board = none
sow (suc fuel) house i (suc seeds) board = elim (i % board_size == house) [
  | true ↦ sow fuel house (i + 1) (suc seeds) board
  | false ↦ sow fuel house (i + 1) seeds (bump board (i % board_size))
]

-- The capturing loop, with `k` indices left: the next is `offset + k - 1`.
unfoldable pub capture : ℕ → ℕ → List ℕ → ℕ → List ℕ × ℕ
capture offset zero board captured = (board, captured)
capture offset (suc k) board captured =
    let seeds = get_or board (offset + k) 0 in
    if seeds == 2 || seeds == 3
    then capture offset k (set board (offset + k) 0) ((captured + seeds) % 256)
    else (board, captured)

-- `1 - side`, which indexes an array: a negative index is a fault.
unfoldable pub opposite : ℕ → Option ℕ
opposite zero = some 1
opposite (suc zero) = some 0
opposite (suc (suc n)) = none

-- What stands in memory from `game->board` on: `int nb_players` follows the twelve houses with no
-- padding, lowest byte first.
unfoldable pub board_memory : List ℕ → ℕ → List ℕ
board_memory board nb_players =
    board
    ++ nb_players % 256
      ∷ nb_players / 256 % 256
      ∷ nb_players / 2 ^ 16 % 256
      ∷ nb_players / 2 ^ 24 % 256
      ∷ []

-- The end of `game_play`: the capture, if there is one, and the turn.
unfoldable pub settle : Game → ℕ → ℕ → List ℕ → ℕ → Bool → Game
unfolding capture update
settle g side other sown last capturing =
    let player = g.players side in
    let taken =
      if capturing
      then capture (6 * other) (last + 1 - 6 * other) sown player.captured
      else (sown, player.captured) in
    record g {
      board = taken.0;
      players = update g.players side (record player { captured = taken.1 });
      turn = if g.turn == 0 then 1 else 0;
    }

-- The part of `game_play` after its guards. A lap takes twelve rounds and sows eleven seeds, so two
-- rounds a seed are fuel enough.
unfoldable pub play_house : Game → ℕ → ℕ → Option (PlayResult × Game)
play_house g house side = do
  other ← opposite side
  let seeds_to_sow = get_or g.board house 0
  (i, sown) ← sow (2 * seeds_to_sow) house (house + 1) seeds_to_sow (set g.board house 0)
  let last = (i - 1) % board_size
  capturing ← game_board_can_capture (board_memory sown g.nb_players) other last
  some (valid_play, settle g side other sown last capturing)

unfoldable pub game_play : Game → ℤ → ℕ → Option (PlayResult × Game)
game_play g (negsuc n) side = some (out_of_bounds, g)
game_play g (pos house) side =
    if leb board_size house || ((side == 0 && leb 6 house) || (side == 1 && ltb house 6))
    then some (out_of_bounds, g)
    else if get_or g.board house 0 == 0
    then some (empty_house, g)
    else play_house g house side
