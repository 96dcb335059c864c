-- ===== src/System/Sent.antt =====
-- What the server sends to a client (`write_client` of server/src/server.c), as the client gets it.
use awale_online.Prelude.{
  ℕ, suc, ◌+◌, ◌≡◌, refl, false, Option, some, [], ◌∷◌, ◌++◌, length, take, take-length, drop,
  arith, ℤ, negsuc, eq_ℤ,
}
use awale_online.Wire.{Bytes, u16_bytes}
use awale_online.Wire.Laws.{Frames}
use awale_online.Server.State.{write_client}
use awale_online.Client.Loop.{Event, receives}

-- The size of a payload, then the payload.
abbrev pub frame : Bytes → Bytes
frame payload = u16_bytes (length payload) ++ payload

-- The client gets the two parts of a frame.
abbrev pub gets : Bytes → Event
gets sent = receives (some (take 2 sent)) (some (drop 2 sent))

-- A socket that is not -1.
abbrev pub IsOpen : ℤ → Type 0
IsOpen sock = eq_ℤ sock (negsuc 0) ≡ false

-- What a writer leaves goes out as one frame.
pub write_client-Frames :
    (out : Option (ℕ × Bytes)) (payload : Bytes) (sock : ℤ)
    → Frames out payload
    → IsOpen sock
    → (written : ℕ × Bytes) × (out ≡ some written)
      × (write_client sock written ≡ (sock, frame payload) ∷ [])
unfolding write_client
write_client-Frames out payload sock (buf, told, framed) opened =
    let two : length payload + 2 ≡ suc (suc (length payload)) = omega arith in
    ((length payload + 2, buf), told, rw (opened, two, framed) refl)

pub write_client-frame :
    (payload : Bytes) (sock : ℤ)
    → IsOpen sock
    → write_client sock (length payload + 2, u16_bytes (length payload) ++ payload)
      ≡ (sock, frame payload) ∷ []
unfolding write_client
write_client-frame payload sock opened =
    let two : length payload + 2 ≡ suc (suc (length payload)) = omega arith in
    rw (opened, two, take-length payload) refl
