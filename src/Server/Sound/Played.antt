-- ===== src/Server/Sound/Played.antt =====
-- A move on the server (`handle_play` of server/src/protocol.c) in the states that its loop gets to.
use awale_online.Game.{Game}
use awale_online.Server.State.{Server}
