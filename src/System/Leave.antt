-- ===== src/System/Leave.antt =====
-- A player leaves: from the keyboard to the other player's menu (`handle_user_input` of
-- client/src/state.c, `handle_leave_room` of server/src/protocol.c, `handle_game_stopped`).
use awale_online.Prelude.{Bool, true, false}
use awale_online.Server.State.{Server}
use awale_online.Client.State.{State, in_room, in_game, waiting_play_input, spectating}

-- The states in which a client is in a room.
abbrev pub is_inside : State → Bool
is_inside in_room = true
is_inside in_game = true
is_inside spectating = true
is_inside waiting_play_input = true
is_inside state = false
