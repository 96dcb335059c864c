-- ===== src/System/Start.antt =====
-- A game starts: the second player joins on the server, and both clients hear of it
-- (`handle_join_room` of server/src/protocol.c, the handlers of client/src/state.c).
use awale_online.Prelude.{
  ℕ, ◌+◌, ◌≤◌, ◌<◌, ◌≡◌, refl, subst, ◌∙◌, false, some, List, [], ◌∷◌, ◌++◌, length, arith,
}
use awale_online.Wire.{Bytes, buf_size}
use awale_online.Protocol.ToClient.Room.{AreStrings}
use awale_online.Server.State.{Server, current, find_room, set_room}
use awale_online.Server.Handlers.{seat_names, seat_bios, handle_join_room}
use awale_online.Server.Start.{full_room, listing, length-seat_names, started, join_starts}
use awale_online.Client.State.{
  Output, waiting_play_input, in_game, in_room, waiting_join_room_response, action_play,
}
use awale_online.Client.Loop.{runs, app_step}
use awale_online.Client.Delivery.{left}
use awale_online.System.Sent.{frame, gets, IsOpen, write_client-frame}
use awale_online.System.Joined.{
  length-left, started_at, starts_first, starts_second, list_payload, Joins, joins,
}

-- The texts in the list of the room are strings.
abbrev pub IsListable : Server → ℕ → Type 0
IsListable s i =
    let game = (full_room s i).game in
    AreStrings (seat_names game 2 0)
    × AreStrings (seat_bios (set_room s i (full_room s i)) game 2 0)
    × AreStrings (seat_names game game.nb_spectators 2)

listing-Joins :
    (s : Server) (i : ℕ) (inner buf buffer : Bytes)
    → length buffer ≡ buf_size
    → IsListable s i
    → length (listing s i) + 2 ≤ buf_size
    → Joins inner buf buffer (listing s i)
unfolding seat_names seat_bios
listing-Joins s i inner buf buffer room (hu, hb, hs) fits =
    let game = (full_room s i).game in
    let users = seat_names game 2 0 in
    let bios = seat_bios (set_room s i (full_room s i)) game 2 0 in
    let spectators = seat_names game game.nb_spectators 2 in
    subst (λ (k : ℕ). Joins inner buf buffer (list_payload 2 k users bios spectators))
      (length-seat_names game game.nb_spectators 2)
      (joins inner buf buffer users bios spectators room hu hb hs refl (omega arith)
        (omega (arith, fits)))

-- When a second player joins, the game starts with one player to move: the server sends the newcomer the
-- list of the room and side 1, and the player who waits there side 0. A client that gets these messages
-- in its room asks its user for a move, when it was there first, or waits for the other's move, when it
-- has just joined. The room is found and has one player, its game has not started, fewer than 256 watch
-- it, both sockets are open, and the list is of strings and fits the buffer.
pub game_starts :
    (s : Server) (room_id i : ℕ) (scratch inner buf creator_buffer joiner_buffer : Bytes)
    → length scratch ≡ buf_size
    → length creator_buffer ≡ buf_size
    → length joiner_buffer ≡ buf_size
    → find_room s room_id ≡ some i
    → (s.rooms i).game.nb_players ≡ 1
    → (s.rooms i).game.is_started ≡ false
    → (s.rooms i).game.nb_spectators < 256
    → IsOpen (current s).sock
    → IsOpen ((s.rooms i).game.players 0).id
    → IsListable s i
    → length (listing s i) + 2 ≤ buf_size
    → (list first second : Bytes) × (listed : List Output) × (buffer0 buffer1 buffer2 : Bytes)
      × (handle_join_room scratch s room_id 0
          ≡ some (
            started s i room_id,
            ((current s).sock, list)
                ∷ (((s.rooms i).game.players 0).id, first)
                ∷ ((current s).sock, second)
                ∷ [],
          ))
      × (app_step inner buf in_room creator_buffer (gets first)
          ≡ some (runs waiting_play_input buffer0 (started_at 0 ++ action_play)))
      × (app_step inner buf waiting_join_room_response joiner_buffer (gets list)
          ≡ some (runs in_room buffer1 listed))
      × (app_step inner buf in_room buffer1 (gets second)
          ≡ some (runs in_game buffer2 (started_at 1)))
game_starts s room_id i scratch inner buf creator_buffer joiner_buffer space room room' found one
      waits watched open_sock open_first strings fits =
    let (listed, joined) = listing-Joins s i inner buf joiner_buffer room' strings fits in
    let buffer1 = listing s i ++ 0 ∷ left joiner_buffer (listing s i) in
    (
      frame (listing s i),
      frame (7 ∷ 0 ∷ []),
      frame (7 ∷ 1 ∷ []),
      listed,
      _,
      buffer1,
      _,
      join_starts s scratch room_id i space found one waits watched fits
          ∙ rw
              (
                write_client-frame (listing s i) (current s).sock open_sock,
                write_client-frame (7 ∷ 0 ∷ []) ((s.rooms i).game.players 0).id open_first,
                write_client-frame (7 ∷ 1 ∷ []) (current s).sock open_sock,
              )
              refl,
      starts_first inner buf creator_buffer room,
      joined,
      starts_second inner buf buffer1 (length-left joiner_buffer (listing s i) room' fits),
    )
