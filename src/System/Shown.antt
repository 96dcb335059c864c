-- ===== src/System/Shown.antt =====
-- A position on the server, to the board that a client shows (server/src/protocol.c,
-- client/src/state.c, client/src/actions.c).
use awale_online.Prelude.{
  ℕ, zero, suc, ◌+◌, ◌-◌, ◌*◌, ◌≤◌, ◌<◌, ◌≡◌, refl, ◌∙◌, some, List, [], ◌∷◌, ◌++◌, length, take,
  drop, arith, sum, sum-append, sum-take, sum-drop, length-take, get_or-append, get_or-le-sum,
  length-append, length-drop, replicate,
}
use awale_online.Wire.{Bytes, buf_size, u16_bytes}
use awale_online.Wire.Laws.{Frames}
use awale_online.Game.{Game}
use awale_online.Game.Play.{IsValid}
use awale_online.Protocol.ToClient.{played, write, seen_from}
use awale_online.Client.State.{
  printed, in_game, waiting_play_input, waiting_play_ack, spectating, action_play,
  set_current_state, enter,
}
use awale_online.Client.Board.{action_show_board}
use awale_online.Client.Board.Numbers.{numbers}
use awale_online.Client.Board.Picture.{picture, picture-append, show_board-numbers}
use awale_online.Client.Board.Width.{widths}
use awale_online.Client.Board.Aligned.{AreSmall, show_board-widths}
use awale_online.Client.Handlers.{show_then, handle_played, client_handlers}
use awale_online.Client.Loop.{receives, runs, app_step}
use awale_online.Client.Delivery.{left, app_step-server_write}

-- Six houses have at most the seeds of the board.
six : (n : ℕ) (board : List ℕ) → sum (take 6 (drop n board)) ≤ sum board
six n board = omega (arith, sum-take 6 (drop n board), sum-drop n board)

length-six : (n : ℕ) (board : List ℕ) → n + 6 ≤ length board → length (take 6 (drop n board)) ≡ 6
length-six n board h = length-take 6 (drop n board) (omega (arith, length-drop n board))

pub score-small : (g : Game) → IsValid g → (side : ℕ) → side < 2 → (g.players side).captured < 256
score-small g v zero h = omega (arith, v.seeds)
score-small g v (suc zero) h = omega (arith, v.seeds)
score-small g v (suc (suc n)) h = absurd (omega arith)

module _ (g : Game) (v : IsValid g) (side : ℕ) (hs : side < 2) where
  length-seen_from : length (seen_from side g.board) ≡ 12
  length-seen_from = omega (
    arith,
    length-append (take 6 (drop (6 * side) g.board)) (take 6 (drop (6 * (1 - side)) g.board)),
    length-six (6 * side) g.board (omega (arith, v.width)),
    length-six (6 * (1 - side)) g.board (omega (arith, v.width)),
  )

  sum-seen_from : sum (seen_from side g.board) ≤ 96
  sum-seen_from = omega (
    arith,
    sum-append (take 6 (drop (6 * side) g.board)) (take 6 (drop (6 * (1 - side)) g.board)),
    six (6 * side) g.board,
    six (6 * (1 - side)) g.board,
    v.seeds,
  )

  pub seen_from-AreSmall : (rest : Bytes) → AreSmall (seen_from side g.board ++ rest)
  seen_from-AreSmall rest = (
    omega (arith, length-append (seen_from side g.board) rest, length-seen_from),
    λ i h. omega (
      arith,
      get_or-append (seen_from side g.board) rest i 0 (omega (arith, length-seen_from)),
      get_or-le-sum (seen_from side g.board) i,
      sum-seen_from,
    ),
  )

-- The text shows the game from a side: read from the top, the other side's score and houses, then the
-- side's own houses and score.
abbrev pub Pictures : Game → ℕ → Bytes → Type 0
Pictures g side text =
    numbers text
    ≡ picture (g.players side).captured (g.players (1 - side)).captured (seen_from side g.board)

module _ (g : Game) (v : IsValid g) (side : ℕ) (hs : side < 2) (rest : Bytes) where
  pub board_shown :
      (text : Bytes) × (action_show_board
          (g.players side).captured
          (g.players (1 - side)).captured
          (seen_from side g.board ++ rest)
        ≡ some text)
      × (widths text ≡ 0 ∷ (replicate 9 25 ++ 0 ∷ []))
      × Pictures g side text
  board_shown =
      let small = seen_from-AreSmall g v side hs rest in
      let own = score-small g v side hs in
      let other = score-small g v (1 - side) (omega arith) in
      let (text, shown, aligned) =
        show_board-widths (g.players side).captured (g.players (1 - side)).captured
          (seen_from side g.board ++ rest) own other small in
      (
        text,
        shown,
        aligned,
        show_board-numbers (g.players side).captured (g.players (1 - side)).captured
              (seen_from side g.board ++ rest) text own other small shown
            ∙ picture-append (seen_from side g.board) rest
                (omega (arith, length-seen_from g v side hs)) (g.players side).captured
                (g.players (1 - side)).captured,
      )

-- A position that the server sends is shown, aligned, to the client that gets it. The numbers in the
-- text, read from the top, are the score and the houses of the other side, from its last house on, and
-- then the houses and the score of the side that is told, from its first house on. Its user is asked for a move when the other side has moved, waits when the move was
-- its own, and goes on watching as a spectator. The game is valid, and the side is 0 or 1.
pub played_shown :
    (g : Game) (side : ℕ) (server_buf inner buf buffer : Bytes)
    → IsValid g
    → side < 2
    → length server_buf ≡ buf_size
    → length buffer ≡ buf_size
    → (payload : Bytes) × (text : Bytes) × (buffer' : Bytes) × Frames
        (write (played side g) server_buf)
        payload
      × (widths text ≡ 0 ∷ (replicate 9 25 ++ 0 ∷ []))
      × Pictures g side text
      × (app_step inner buf in_game buffer
            (receives (some (u16_bytes (length payload))) (some payload))
          ≡ some (runs waiting_play_input buffer' (printed text ∷ action_play)))
      × (app_step inner buf waiting_play_ack buffer
            (receives (some (u16_bytes (length payload))) (some payload))
          ≡ some (runs in_game buffer' (printed text ∷ [])))
      × (app_step inner buf spectating buffer
            (receives (some (u16_bytes (length payload))) (some payload))
          ≡ some (runs spectating buffer' (printed text ∷ [])))
unfolding handle_played show_then enter set_current_state client_handlers
played_shown g side server_buf inner buf buffer v hs space room =
    let (payload, frames, round) =
      app_step-server_write (played side g) server_buf inner buf buffer space (hs, v.width) room in
    let (text, shown, aligned, pictured) = board_shown g v side hs (0 ∷ left buffer payload) in
    (
      payload,
      text,
      payload ++ 0 ∷ left buffer payload,
      frames,
      aligned,
      pictured,
      round in_game ∙ rw shown refl,
      round waiting_play_ack ∙ rw shown refl,
      round spectating ∙ rw shown refl,
    )
