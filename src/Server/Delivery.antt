-- ===== src/Server/Delivery.antt =====
-- What a client writes, through `read_client` and the loop of server/src/server.c, to the handler of
-- server/src/protocol.c.
use awale_online.Prelude.{
  ℕ, ◌+◌, ◌≤◌, ◌<◌, ◌≡◌, refl, false, some, [], ◌∷◌, ◌++◌, ◌==◌, length, drop, lt→ltb, arith, ◌>>=◌,
  length-drop, take-length,
}
use awale_online.Wire.{Bytes, buf_size, store, u16_bytes}
use awale_online.Wire.Laws.{Frames, store_front_lem, store_lem, load16-u16_bytes}
use awale_online.Protocol.ToServer.{
  ClientMessage, write, call, IsSendable, server_read-client_write,
}
use awale_online.Server.State.{Server, Outcome}
use awale_online.Server.Reader.{client_server_protocol_read}
use awale_online.Server.Loop.{handlers_init, recv, read_client, talks, serve, step}

module _ (buffer payload : Bytes) where
  -- The buffer once the size has come in, and what the payload and its NUL leave of it.
  abbrev sized : Bytes
  sized = u16_bytes (length payload) ++ drop 2 buffer

  abbrev pub rest : Bytes
  rest = drop 1 (drop (length payload) sized)

  -- A frame that comes in whole is read as its payload, which a NUL ends.
  read_client-frame :
      length buffer ≡ buf_size
      → length payload + 2 ≤ buf_size
      → read_client buffer (some (u16_bytes (length payload))) (some payload)
        ≡ some (length payload, payload ++ 0 ∷ rest)
  unfolding read_client recv store
  read_client-frame room fits =
      rw
        (
          store_front_lem buffer (u16_bytes (length payload)) (omega arith),
          load16-u16_bytes (length payload) (drop 2 buffer) (omega arith),
          take-length payload,
          store_front_lem sized payload (omega (arith, length-drop 2 buffer)),
          store_lem payload (drop (length payload) sized) (0 ∷ []) (length payload) refl
              (omega (arith, length-drop 2 buffer, length-drop (length payload) sized)),
        )
        refl

-- What a payload with a handler makes of a round.
pub step-payload :
    (s : Server) (i : ℕ) (buffer payload scratch : Bytes) (rand : ℕ) (h : Server → Outcome)
    → i < s.nb_clients
    → length buffer ≡ buf_size
    → 0 < length payload
    → length payload + 2 ≤ buf_size
    → ((end : Bytes)
        → client_server_protocol_read
            (payload ++ end)
            (handlers_init scratch rand)
            (λ t. some (t, []))
          ≡ some h)
    → step s buffer (talks i (some (u16_bytes (length payload))) (some payload) scratch rand) ≡ (
        h (record s { current_client = i }) >>= λ (s', sends).
        some (s', payload ++ 0 ∷ rest buffer payload, sends))
unfolding step serve
step-payload s i buffer payload scratch rand h inside room pos fits found =
    let some_bytes : (length payload == 0) ≡ false = ground arith in
    rw
      (
        lt→ltb i s.nb_clients inside,
        read_client-frame buffer payload room fits,
        some_bytes,
        found (0 ∷ rest buffer payload),
      )
      refl

-- A message of a client reaches its handler: the client's writer stays inside its buffer and fills a
-- frame, and when `read_client` gets the size and the payload of this frame, the round of the server's
-- loop runs the message's handler at its arguments, for the client that wrote.
pub step-client_write :
    (m : ClientMessage) (buf : Bytes) (s : Server) (i : ℕ) (buffer scratch : Bytes) (rand : ℕ)
    → length buf ≡ buf_size
    → IsSendable m
    → i < s.nb_clients
    → length buffer ≡ buf_size
    → (payload : Bytes) × Frames (write m buf) payload
      × (step s buffer (talks i (some (u16_bytes (length payload))) (some payload) scratch rand) ≡ (
          call m (handlers_init scratch rand) (record s { current_client = i }) >>= λ (s', sends).
          some (s', payload ++ 0 ∷ rest buffer payload, sends)))
step-client_write m buf s i buffer scratch rand room ok inside room' =
    let (payload, frames, filled, fits, reads) = server_read-client_write m buf room ok in
    (
      payload,
      frames,
      step-payload s i buffer payload scratch rand (call m (handlers_init scratch rand)) inside
          room' filled fits
          (λ end. reads (Server → Outcome) (handlers_init scratch rand) (λ t. some (t, [])) end),
    )
