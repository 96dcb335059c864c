-- ===== src/Server/Reader.antt =====
-- `client_server_protocol_read` (server/src/protocol.c): a payload, to the handler that it calls.
use awale_online.Prelude.{ℕ, Option, none, some, [], ◌∷◌, get_elem?, ◌>>=◌}
use awale_online.Wire.{Bytes, load32, c_string}
use awale_online.Protocol.{
  ClientServerProtocol, client_kind, connect, create_room, join_room, play, leave_room,
  send_message, set_biography,
}

-- The table of function pointers; `R` is what a handler does.
pub record Handlers {ℓ} (R : Type ℓ) : Type ℓ where
  pub on_connect : Bytes → R
  pub on_create_room : R
  pub on_join_room : ℕ → ℕ → R
  pub on_play : ℕ → R
  pub on_leave_room : R
  pub on_send_message : Bytes → R
  pub on_set_biography : Bytes → R

module _ {ℓ} {R : Type ℓ} where
  -- The cases of the switch, at the bytes behind the kind.
  unfoldable pub read_kind : ClientServerProtocol → Bytes → Handlers R → Option R
  read_kind connect buf handlers = do name ← c_string buf; some (handlers.on_connect name)
  read_kind create_room buf handlers = some handlers.on_create_room
  read_kind join_room buf handlers = do
    room_id ← load32 buf
    spectate ← get_elem? buf 4
    some (handlers.on_join_room room_id spectate)
  read_kind play buf handlers = do position ← get_elem? buf 0; some (handlers.on_play position)
  read_kind leave_room buf handlers = some handlers.on_leave_room
  read_kind send_message buf handlers = do text ← c_string buf; some (handlers.on_send_message text)
  read_kind set_biography buf handlers = do
    biography ← c_string buf
    some (handlers.on_set_biography biography)

  -- A byte that is no kind calls no handler: `skip` is what happens then.
  unfoldable pub client_server_protocol_read : Bytes → Handlers R → R → Option R
  unfolding read_kind
  client_server_protocol_read [] handlers skip = none
  client_server_protocol_read (type ∷ buf) handlers skip = elim (client_kind type) [
    | none ↦ some skip
    | some kind ↦ read_kind kind buf handlers
  ]
