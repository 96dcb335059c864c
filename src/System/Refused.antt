-- ===== src/System/Refused.antt =====
-- A room that the server does not find, for the user who asked for it (`handle_join_room` of
-- server/src/protocol.c, `handle_join_room_refused` of client/src/state.c).
use awale_online.Prelude.{ℕ, ◌≡◌, refl, none, some, [], ◌∷◌, ◌++◌, length, arith}
use awale_online.Wire.{Bytes, buf_size, codes}
use awale_online.Protocol.ToClient.{join_room_refused, write}
use awale_online.Server.State.{Server, current, find_room}
use awale_online.Server.Handlers.{join_at, handle_join_room}
use awale_online.Client.State.{
  connected, waiting_join_room_response, waiting_spectate_room_response, action_choose,
  set_current_state, enter,
}
use awale_online.Client.Handlers.{print_about, handle_join_room_refused, client_handlers}
use awale_online.Client.Loop.{runs, app_step}
use awale_online.Client.Delivery.{left, app_step-server_write}
use awale_online.System.Sent.{frame, gets, IsOpen, write_client-Frames}

-- The id of no room is refused, and nothing changes on the server. A client that wants to play tells its
-- user and shows the menu again; a client that wants to watch prints nothing and goes on waiting.
pub room_not_found :
    (s : Server) (room_id spectate : ℕ) (scratch inner buf buffer : Bytes)
    → find_room s room_id ≡ none
    → IsOpen (current s).sock
    → length scratch ≡ buf_size
    → length buffer ≡ buf_size
    → (sent : Bytes) × (buffer' : Bytes) × (handle_join_room scratch s room_id spectate
        ≡ some (s, ((current s).sock, sent) ∷ []))
      × (app_step inner buf waiting_join_room_response buffer (gets sent)
          ≡ some (
              runs connected buffer' (
                print_about
                  (codes "Could not join room : ")
                  (codes "Error: Room not found.")
                  (codes "\n")
                ++ action_choose)))
      × (app_step inner buf waiting_spectate_room_response buffer (gets sent)
          ≡ some (runs waiting_spectate_room_response buffer' []))
unfolding handle_join_room join_at handle_join_room_refused enter set_current_state client_handlers
room_not_found s room_id spectate scratch inner buf buffer missing opened space room =
    let (payload, frames, round) =
      app_step-server_write (join_room_refused (codes "Error: Room not found.")) scratch inner buf
        buffer space (omega arith) room in
    let (written, told, out) =
      write_client-Frames (write (join_room_refused (codes "Error: Room not found.")) scratch)
        payload (current s).sock frames opened in
    (
      frame payload,
      payload ++ 0 ∷ left buffer payload,
      rw (missing, told, out) refl,
      round waiting_join_room_response,
      round waiting_spectate_room_response,
    )
