-- ===== src/Server/Sound/Step.antt =====
-- The games in the rooms over the rounds of the server's loop (server/src/server.c).
use awale_online.Prelude.{
  ℕ, ◌<◌, some, [], ◌==◌, ltb, arith, Ensures, Ensures-bind, Ensures-then, Ensures-if, Ensures-some,
  guard, pos_part, ap, ℤ,
}
use awale_online.Wire.{Bytes}
use awale_online.Server.State.{Server, max_clients}
use awale_online.Server.Reader.{client_server_protocol_read}
use awale_online.Server.Moves.{disconnect_user}
use awale_online.Server.Loop.{
  handlers_init, read_client, accept_client, remove_client, Event, connects, talks, serve, step,
  Reachable, start, round,
}
use awale_online.Game.Sound.{IsSound}
use awale_online.Server.Names.Step.{dispatched}
use awale_online.Server.Sound.{game_of, AllSound, Sound}
use awale_online.Server.Sound.Keep.{create_room-AllSound, join_room-AllSound, play-AllSound}
use awale_online.Server.Sound.Leave.{
  connect-AllSound, leave_room-AllSound, send_message-AllSound, set_biography-AllSound,
  disconnect_user-AllSound,
}

serve-AllSound :
    (s : Server) (i n : ℕ) (buffer scratch : Bytes) (rand : ℕ)
    → AllSound s
    → Ensures Sound (serve s i n buffer scratch rand)
unfolding serve handlers_init remove_client
serve-AllSound s i n buffer scratch rand all =
    Ensures-if Sound (n == 0) _ _
      (λ _.
        Ensures-then Sound AllSound (disconnect_user s) _ (disconnect_user-AllSound s all)
          λ left sound. sound)
      (λ _.
        Ensures-then Sound (λ h. Ensures Sound (h s)) (client_server_protocol_read buffer _ _) _
          (dispatched (λ h. Ensures Sound (h s)) (handlers_init scratch rand) (λ t. some (t, []))
            buffer (λ name. connect-AllSound s scratch name all)
            (create_room-AllSound s all rand scratch)
            (λ room_id spectate. join_room-AllSound s all scratch room_id spectate)
            (λ position. play-AllSound s all scratch position) (leave_room-AllSound s all scratch)
            (λ text. send_message-AllSound s all scratch text)
            (λ biography. set_biography-AllSound s all biography) all)
          (λ h done. done))

accept-AllSound : (s : Server) (csock : ℤ) → AllSound s → Ensures AllSound (accept_client s csock)
unfolding accept_client
accept-AllSound s csock all =
    Ensures-bind AllSound (guard (ltb s.nb_clients max_clients)) _ λ _. all

step-AllSound :
    (s : Server) (buffer : Bytes) (event : Event)
    → AllSound s
    → Ensures (λ r. AllSound r.0) (step s buffer event)
unfolding step
step-AllSound s buffer (connects csock) all =
    Ensures-then (λ r. AllSound r.0) AllSound (accept_client s csock) _
      (accept-AllSound s csock all) (λ s' sound. sound)
step-AllSound s buffer (talks i header body scratch rand) all =
    Ensures-if (λ r. AllSound r.0) (ltb i s.nb_clients) _ (some (s, buffer, []))
      (λ inside.
        Ensures-bind (λ r. AllSound r.0) (read_client buffer header body) _
          λ (n, filled).
            Ensures-then (λ r. AllSound r.0) Sound
              (serve (record s { current_client = i }) i n filled scratch rand) _
              (serve-AllSound (record s { current_client = i }) i n filled scratch rand all)
              (λ r sound. sound))
      (λ _. all)

-- However the server's loop gets to a state, from no clients and no rooms, over connections, payloads
-- of any bytes and clients that go, the game in each of its rooms has twelve houses, at most 48 seeds on
-- the board and in the scores of its players, one player until it is started and two from then on, at
-- most as many spectators as there are seats, and the turn of side 0 or 1, and it is not over: no player
-- has more than half of the seeds, and not both have half of them.
pub Reachable-IsSound :
    (s : Server) (buffer : Bytes) (i : ℕ)
    → Reachable s buffer
    → i < pos_part s.nb_rooms
    → IsSound (game_of s i)
Reachable-IsSound s buffer i reached = from reached i
  where
    from : {t : Server} {b : Bytes} → Reachable t b → AllSound t
    from {t} (start _ _ none_yet no_rooms) =
        λ k hk. absurd (omega (arith, ap pos_part no_rooms, hk))
    from (round s _ buffer _ event sends before done) =
        Ensures-some (λ r. AllSound r.0) (step s buffer event)
          (step-AllSound s buffer event (from before)) done
