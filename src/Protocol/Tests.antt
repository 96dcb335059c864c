-- ===== src/Protocol/Tests.antt =====
-- The two protocols at concrete messages.
use awale_online.Prelude.{◌+◌, ◌<◌, ◌≤◌, ◌≡◌, some, [], ◌∷◌, ◌++◌, length, arith}
use awale_online.Wire.{Bytes, buf_size}
use awale_online.Wire.Laws.{Frames}
use awale_online.Wire.Samples.{scratch, scratch-length, bob}
use awale_online.Server.Reader.{client_server_protocol_read, Handlers as ServerHandlers}
use awale_online.Client.Reader.{server_client_protocol_read, Handlers as ClientHandlers}
use awale_online.Protocol.ToServer
use awale_online.Protocol.ToServer.{server_read-client_write}
use awale_online.Protocol.ToClient
use awale_online.Protocol.ToClient.RoundTrip.{client_read-server_write, Fits}

-- "hi"
abbrev hi : Bytes
hi = b'h' ∷ b'i' ∷ []

server_read-client_write_example :
    (payload : Bytes) × Frames (ToServer.write (ToServer.connect bob) scratch) payload
    × (0 < length payload)
    × (length payload + 2 ≤ buf_size)
    × ((R : Type 0) (handlers : ServerHandlers R) (skip : R) (rest : Bytes)
        → client_server_protocol_read (payload ++ rest) handlers skip
          ≡ some (handlers.on_connect bob))
server_read-client_write_example =
    server_read-client_write (ToServer.connect bob) scratch scratch-length (omega arith)

client_read-server_write_example :
    (payload : Bytes) × Frames
      (ToClient.write (ToClient.join_room_successful (bob ∷ []) (hi ∷ []) (hi ∷ hi ∷ [])) scratch)
      payload
    × Fits payload
    × ((R : Type 0) (handlers : ClientHandlers R) (skip : R) (rest : Bytes)
        → server_client_protocol_read (payload ++ rest) handlers skip
          ≡ some (handlers.on_join_room_successful 1 2 (bob ∷ []) (hi ∷ []) (hi ∷ hi ∷ [])))
client_read-server_write_example =
    client_read-server_write (ToClient.join_room_successful (bob ∷ []) (hi ∷ []) (hi ∷ hi ∷ []))
      scratch scratch-length (omega arith)
