-- ===== src/Protocol/ToClient/Payloads.antt =====
-- The payloads of the writers of server/src/protocol.c that are not one string or nothing.
use awale_online.Prelude.{
  ℕ, suc, ◌+◌, ◌-◌, ◌%◌, ◌^◌, ◌≤◌, ◌<◌, ◌≡◌, refl, [], ◌∷◌, ◌++◌, length, drop, length-drop, arith,
  append_assoc, length-append, take_append, ◌==◌, if◌then◌else◌, Bool-cases, inl, inr,
}
use awale_online.Wire.{Bytes, buf_size, store, u16_bytes, u32_bytes, terminated, write_header}
use awale_online.Wire.Laws.{Frames, write_header_lem, store_front_lem, store_lem, length-terminated}
use awale_online.Game.{Game, board_size}
use awale_online.Game.Play.{opposite_lem}
use awale_online.Server.Writers.{
  write_room_creation_successful, write_played, write_game_start, write_game_stopped,
  write_send_message_to_room, seen_board,
}

module _ (buf : Bytes) (room : length buf ≡ buf_size) where
  pub room_creation_successful-Frames :
      (room_id : ℕ) → Frames (write_room_creation_successful buf room_id) (2 ∷ u32_bytes room_id)
  unfolding write_room_creation_successful store
  room_creation_successful-Frames room_id = (
    u16_bytes 5 ++ 2 ∷ u32_bytes room_id ++ drop 4 (drop 3 buf),
    rw (
      write_header_lem buf 5 2 (omega arith),
      store_front_lem (drop 3 buf) (u32_bytes room_id) (omega (arith, length-drop 3 buf)),
    ),
    refl,
  )

  pub game_start-Frames : (side : ℕ) → Frames (write_game_start buf side) (7 ∷ side ∷ [])
  unfolding write_game_start store
  game_start-Frames side = (
    u16_bytes 2 ++ 7 ∷ side ∷ drop 1 (drop 3 buf),
    rw (
      write_header_lem buf 2 7 (omega arith),
      store_front_lem (drop 3 buf) (side ∷ []) (omega (arith, length-drop 3 buf)),
    ),
    refl,
  )

  pub message-Frames :
      (username text : Bytes)
      → length username + length text + 5 ≤ buf_size
      → Frames
          (write_send_message_to_room buf username text)
          (11 ∷ terminated username ++ terminated text)
  unfolding write_send_message_to_room
  message-Frames username text fits = (
    u16_bytes size
        ++ 11 ∷ (terminated username ++ (terminated text ++ drop (length (terminated text)) rest)),
    rw
        (
          write_header_lem buf size 11 (omega arith),
          store_lem (u16_bytes size ++ 11 ∷ []) (drop 3 buf) (terminated username) 3 refl
              (omega (arith, length-drop 3 buf, length-terminated username)),
          store_lem (u16_bytes size ++ 11 ∷ terminated username) rest (terminated text)
              (3 + length username + 1) (omega (arith, length-terminated username))
              (omega (
                arith,
                length-drop 3 buf,
                length-drop (length (terminated username)) (drop 3 buf),
                length-terminated username,
                length-terminated text,
              )),
        )
        (rw count),
    rw (
      count,
      ← append_assoc (terminated username) (terminated text) left,
      take_append (terminated username ++ terminated text) left,
    ),
  )
    where
      size : ℕ
      size = (length text + length username + 3) % 2 ^ 16

      rest : Bytes
      rest = drop (length (terminated username)) (drop 3 buf)

      left : Bytes
      left = drop (length (terminated text)) rest

      count : size ≡ suc (length (terminated username ++ terminated text))
      count = omega (
        arith,
        length-append (terminated username) (terminated text),
        length-terminated username,
        length-terminated text,
      )

pub played-Frames :
    (buf : Bytes) (side : ℕ) (game : Game)
    → length buf ≡ buf_size
    → side < 2
    → Frames (write_played buf side game) (
        6
        ∷ (game.players side).captured
        ∷ (game.players (1 - side)).captured
        ∷ seen_board board_size 0 side game.board)
unfolding write_played store write_header seen_board
played-Frames (a ∷ b ∷ c ∷ d ∷ e ∷ buf) side game room hs = (
  u16_bytes 15
      ++ 6
        ∷ (game.players side).captured
        ∷ (game.players (1 - side)).captured
        ∷ (seen_board board_size 0 side game.board ++ drop 12 buf),
  rw (
    opposite_lem side hs,
    store_front_lem buf (seen_board board_size 0 side game.board) (omega arith),
  ),
  refl,
)
played-Frames _ side game room hs = absurd (omega arith)

pub game_stopped-Frames :
    (buf : Bytes) (draw : ℕ) (winner : Bytes)
    → length buf ≡ buf_size
    → length winner + 5 ≤ buf_size
    → Frames
        (write_game_stopped buf draw winner)
        (10 ∷ draw ∷ (if draw == 0 then terminated winner else []))
unfolding write_game_stopped store write_header
game_stopped-Frames (a ∷ b ∷ c ∷ d ∷ buf) draw winner room fits = elim (Bool-cases (draw == 0)) [
  | inl won ↦ (
    u16_bytes size ++ 10 ∷ draw ∷ (terminated winner ++ left),
    rw (won, store_front_lem buf (terminated winner) (omega (arith, length-terminated winner)))
        (rw count),
    rw won (rw (count, take_append (terminated winner) left)),
  )
  | inr drawn ↦ (u16_bytes 2 ++ 10 ∷ draw ∷ buf, rw drawn, rw drawn)
]
  where
    size : ℕ
    size = (2 + (1 + length winner)) % 2 ^ 16

    left : Bytes
    left = drop (length (terminated winner)) buf

    count : size ≡ suc (suc (length (terminated winner)))
    count = omega (arith, length-terminated winner)
game_stopped-Frames _ draw winner room fits = absurd (omega arith)
