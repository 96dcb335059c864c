-- ===== src/Game/Turns.antt =====
-- Whose turn it is, which `game_play` of server/src/game.c keeps and does not look at.
use awale_online.Prelude.{
  ℕ, ◌+◌, ◌-◌, ◌*◌, ◌%◌, ◌≡◌, refl, inl, inr, Option, some, List, get_or, set, ℤ, pos, negsuc, leb,
  ltb, ◌==◌, ◌&&◌, ◌||◌, ◌>>=◌, Bool-cases, Option-cases,
}
use awale_online.Game.{
  Game, Player, PlayResult, settle, sow, opposite, game_board_can_capture, board_memory, game_play,
  play_house,
}

-- What a move does, but for the turn.
abbrev pub effect : Option (PlayResult × Game) → Option (PlayResult × List ℕ × (ℕ → Player))
effect move = move >>= λ (result, g). some (result, g.board, g.players)

-- A move has the same result, and leaves the same board and the same scores, whichever side has the
-- turn: a player may move when it is not its turn, and twice in a row.
pub game_play-turn :
    (g : Game) (house : ℤ) (side turn : ℕ)
    → effect (game_play (record g { turn = turn }) house side) ≡ effect (game_play g house side)
unfolding game_play play_house settle
game_play-turn g (negsuc n) side turn = refl
game_play-turn g (pos house) side turn =
    elim (Bool-cases (leb 12 house || ((side == 0 && leb 6 house) || (side == 1 && ltb house 6)))) [
      | inl out ↦ rw out refl
      | inr own ↦ rw own (elim (Bool-cases (get_or g.board house 0 == 0)) [
        | inl empty ↦ rw empty refl
        | inr full ↦ rw full moved
      ])
    ]
  where
    moved :
        effect (play_house (record g { turn = turn }) house side) ≡ effect (play_house g house side)
    moved = elim (Option-cases (opposite side)) [
      | inl miss ↦ rw miss refl
      | inr (other, e) ↦
          rw e
            (elim (Option-cases (
              sow (2 * get_or g.board house 0) house (house + 1) (get_or g.board house 0)
                (set g.board house 0))) [
                  | inl endless ↦ rw endless refl
                  | inr ((i, sown), e1) ↦
                      rw e1
                        (elim (Option-cases (
                          game_board_can_capture (board_memory sown g.nb_players) other
                            ((i - 1) % 12))) [
                              | inl fault ↦ rw fault refl
                              | inr (b, e2) ↦ rw e2 refl
                            ])
                ])
    ]
