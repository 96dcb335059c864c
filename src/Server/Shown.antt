-- ===== src/Server/Shown.antt =====
-- The boards that `handle_play` of server/src/protocol.c sends to the players and the spectators.
use awale_online.Prelude.{
  ltb, true, ℕ, zero, suc, ◌+◌, ◌-◌, ◌≤◌, ◌<◌, ◌≡◌, refl, ◌∙◌, some, List, [], ◌∷◌, ◌++◌, length,
  arith, ℤ, Ensures, Ensures-bind, Ensures-then, Ensures-some,
}
use awale_online.Wire.{Bytes, buf_size, u16_bytes, write_header}
use awale_online.Wire.Lengths.{stored, write_header-length}
use awale_online.Game.{Game, board_size, opposite, max_game_players}
use awale_online.Protocol.{server_byte, played}
use awale_online.Protocol.ToClient.Payloads.{played-Frames}
use awale_online.Server.Writers.{write_played, seen_board}
use awale_online.Server.State.{Send, write_client}
use awale_online.Server.Moves.{show_players, show_spectators}

-- The payload of a board as a side sees it, and the frame of it.
abbrev pub seen : Game → ℕ → Bytes
seen game side =
    6
    ∷ (game.players side).captured
    ∷ (game.players (1 - side)).captured
    ∷ seen_board board_size 0 side game.board

abbrev pub board_frame : Game → ℕ → ℕ × Bytes
board_frame game side =
    (length (seen game side) + 2, u16_bytes (length (seen game side)) ++ seen game side)

write_played-length :
    (buf : Bytes) (side : ℕ) (game : Game)
    → Ensures (λ r. length r.1 ≡ length buf) (write_played buf side game)
unfolding write_played
write_played-length buf side game =
    Ensures-then kept (λ b. length b ≡ length buf) (write_header buf 15 (server_byte played)) _
      (write_header-length (length buf) buf 15 (server_byte played) refl)
      (λ headed e. Ensures-bind kept (opposite side) _ λ other.
        stored kept (length buf) headed 3 ((game.players side).captured ∷ []) _ e (λ mine e1.
          stored kept (length buf) mine 4 ((game.players other).captured ∷ []) _ e1 (λ theirs e2.
            stored kept (length buf) theirs 5 (seen_board board_size 0 side game.board) _ e2
              (λ written e3. e3))))
  where
    kept : ℕ × Bytes → Type 0
    kept r = length r.1 ≡ length buf

-- A board that is written: the buffer stays as long, and starts with the frame.
shown :
    (buf : Bytes) (side : ℕ) (game : Game)
    → length buf ≡ buf_size
    → side < 2
    → (written : Bytes) × (length written ≡ buf_size)
      × (write_played buf side game ≡ some (length (seen game side) + 2, written))
      × ((sock : ℤ)
          → write_client sock (length (seen game side) + 2, written)
            ≡ write_client sock (board_frame game side))
unfolding write_client seen_board
shown buf side game room hs =
    let (written, told, framed) = played-Frames buf side game room hs in
    (
      written,
      Ensures-some (λ r. length r.1 ≡ length buf) (write_played buf side game)
            (write_played-length buf side game) told
          ∙ room,
      told,
      λ sock. rw framed refl,
    )

-- Each of the `k` players from seat `j` on is sent the board from its side.
abbrev pub to_players : Game → ℕ → ℕ → List Send
to_players game zero j = []
to_players game (suc k) j =
    write_client (game.players j).id (board_frame game j) ++ to_players game k (j + 1)

-- Each of the `k` spectators from `j` on is sent it from side 0.
abbrev pub to_spectators : Game → ℕ → ℕ → List Send
to_spectators game zero j = []
to_spectators game (suc k) j =
    write_client (game.players (2 + j)).id (board_frame game 0) ++ to_spectators game k (j + 1)

pub show_players_lem :
    (buf : Bytes) (game : Game) (k j : ℕ)
    → length buf ≡ buf_size
    → j + k ≤ 2
    → (buf' : Bytes) × (length buf' ≡ buf_size)
      × (show_players buf game k j ≡ some (buf', to_players game k j))
unfolding show_players
show_players_lem buf game zero j room h = (buf, room, refl)
show_players_lem buf game (suc k) j room h =
    let (written, same, told, sent) = shown buf j game room (omega arith) in
    let (buf', room', rest) = show_players_lem written game k (j + 1) same (omega arith) in
    (buf', room', rw (told, rest, sent (game.players j).id) refl)

pub show_spectators_lem :
    (buf : Bytes) (game : Game) (k j : ℕ)
    → length buf ≡ buf_size
    → 2 + j + k ≤ max_game_players
    → (buf' : Bytes) × (length buf' ≡ buf_size)
      × (show_spectators buf game k j ≡ some (buf', to_spectators game k j))
unfolding show_spectators
show_spectators_lem buf game zero j room h = (buf, room, refl)
show_spectators_lem buf game (suc k) j room h =
    let inside : ltb (2 + j) max_game_players ≡ true = ground arith in
    let (written, same, told, sent) = shown buf 0 game room (omega arith) in
    let (buf', room', rest) = show_spectators_lem written game k (j + 1) same (omega arith) in
    (buf', room', rw (inside, told, rest, sent (game.players (2 + j)).id) refl)
