-- ===== src/Client/Answers.antt =====
-- No reaction of the client (client/src/state.c) sends or awaits a move that nothing asks for.
use awale_online.Prelude.{
  ℕ, suc, Option, none, some, [], ◌∷◌, arith, get_elem?, drop, length, Ensures, Ensures-bind,
}
use awale_online.Wire.{Bytes, c_string, load32}
use awale_online.Client.State.{State, Reaction}
use awale_online.Client.Handlers.{client_handlers, ignore}
use awale_online.Protocol.{
  ServerClientProtocol, server_kind, connection_successful, connection_refused,
  room_creation_successful, room_creation_refused, join_room_successful, join_room_refused, played,
  game_start, player_joined_room, spectator_joined_room, game_stopped, message, invalid_play,
}
use awale_online.Client.Reader.{read_users, read_spectators, read_kind, server_client_protocol_read}
use awale_online.Client.Asked.{Fair}
use awale_online.Client.Reactions.{
  connection_refused-Fair, connection_successful-Fair, game_start-Fair, game_stopped-Fair,
  invalid_play-Fair, join_room_refused-Fair, join_room_successful-Fair, message-Fair, played-Fair,
  player_joined_room-Fair, room_creation_refused-Fair, room_creation_successful-Fair,
  spectator_joined_room-Fair,
}

-- The message of a kind asks for a move, or for one in place of another.
abbrev pub asks : ServerClientProtocol → ℕ
asks played = 1
asks game_start = 1
asks invalid_play = 1
asks kind = 0

abbrev pub asks_byte : Option ServerClientProtocol → ℕ
asks_byte none = 0
asks_byte (some kind) = asks kind

abbrev pub asks_payload : Bytes → ℕ
asks_payload [] = 0
asks_payload (type ∷ buf) = asks_byte (server_kind type)

-- What a payload makes of the state.
pub message-Fair_lem :
    (inner : Bytes) (state : State) (buf : Bytes)
    → Ensures
        (λ handler. Ensures (Fair state (asks_payload buf)) (handler state))
        (server_client_protocol_read buf (client_handlers inner) ignore)
unfolding server_client_protocol_read client_handlers
message-Fair_lem inner state [] = tt
message-Fair_lem inner state (type ∷ buf) = by_byte (server_kind type)
  where
    P : ℕ → (State → Reaction) → Type 0
    P asked handler = Ensures (Fair state asked) (handler state)

    of_kind :
        (kind : ServerClientProtocol)
        → Ensures (P (asks kind)) (read_kind kind buf (client_handlers inner))
    of_kind connection_successful = connection_successful-Fair inner state
    of_kind connection_refused =
        Ensures-bind (P 0) (c_string buf) _ (connection_refused-Fair inner state)
    of_kind room_creation_successful =
        Ensures-bind (P 0) (load32 buf) _ (room_creation_successful-Fair inner state)
    of_kind room_creation_refused =
        Ensures-bind (P 0) (c_string buf) _ (room_creation_refused-Fair inner state)
    of_kind join_room_successful = Ensures-bind (P 0) (get_elem? buf 0) _ λ m.
        Ensures-bind (P 0) (get_elem? buf 1) _ λ n.
          Ensures-bind (P 0) (read_users m 0 (drop 2 buf)) _ λ (users, bios, rest).
            Ensures-bind (P 0) (read_spectators n rest) _
              λ spectators. join_room_successful-Fair inner state m n users bios spectators
    of_kind join_room_refused =
        Ensures-bind (P 0) (c_string buf) _ (join_room_refused-Fair inner state)
    of_kind played = Ensures-bind (P 1) (get_elem? buf 0) _ λ s_score.
        Ensures-bind (P 1) (get_elem? buf 1) _
          λ o_score. played-Fair inner state s_score o_score (drop 2 buf)
    of_kind game_start = Ensures-bind (P 1) (get_elem? buf 0) _ (game_start-Fair inner state)
    of_kind player_joined_room =
        Ensures-bind (P 0) (c_string buf) _ (player_joined_room-Fair inner state)
    of_kind spectator_joined_room =
        Ensures-bind (P 0) (c_string buf) _ (spectator_joined_room-Fair inner state)
    of_kind game_stopped =
        Ensures-bind (P 0) (get_elem? buf 0) _
          λ draw. game_stopped-Fair inner state draw (drop 1 buf)
    of_kind message = Ensures-bind (P 0) (c_string buf) _ λ username.
        Ensures-bind (P 0) (c_string (drop (suc (length username)) buf)) _
          λ text. message-Fair inner state username text
    of_kind invalid_play = Ensures-bind (P 1) (c_string buf) _ (invalid_play-Fair inner state)

    by_byte :
        (o : Option ServerClientProtocol)
        → Ensures
            (P (asks_byte o))
            (elim o [ none ↦ some ignore | some kind ↦ read_kind kind buf (client_handlers inner) ])
    by_byte none = omega arith
    by_byte (some kind) = of_kind kind
