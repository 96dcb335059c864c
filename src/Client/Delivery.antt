-- ===== src/Client/Delivery.antt =====
-- What the server writes, through `read_server` and the loop of client/src/app.c, to the handler of
-- client/src/state.c.
use awale_online.Prelude.{
  ◌+◌, ◌≤◌, ◌<◌, ◌≡◌, refl, false, some, [], ◌∷◌, ◌++◌, ◌==◌, length, drop, arith, ◌>>=◌,
  length-drop, take-length,
}
use awale_online.Wire.{Bytes, buf_size, store, u16_bytes}
use awale_online.Wire.Laws.{Frames, store_front_lem, store_lem, load16-u16_bytes}
use awale_online.Protocol.ToClient.{ServerMessage, write, call, IsSendable}
use awale_online.Protocol.ToClient.RoundTrip.{client_read-server_write}
use awale_online.Client.State.{State, Reaction}
use awale_online.Client.Reader.{server_client_protocol_read}
use awale_online.Client.Handlers.{client_handlers, ignore}
use awale_online.Client.Loop.{read_server, receives, runs, on_message, app_step}

module _ (buffer payload : Bytes) where
  -- The buffer once the size has come in, and what the payload and its NUL leave of it.
  abbrev sized : Bytes
  sized = u16_bytes (length payload) ++ 0 ∷ drop 1 (drop 2 buffer)

  abbrev pub left : Bytes
  left = drop 1 (drop (length payload) sized)

  module _ (room : length buffer ≡ buf_size) (fits : length payload + 2 ≤ buf_size) where
    read_server-size : read_server buffer 2 (u16_bytes (length payload)) ≡ some (2, sized)
    unfolding read_server store
    read_server-size =
        rw
          (
            store_front_lem buffer (u16_bytes (length payload)) (omega arith),
            store_lem (u16_bytes (length payload)) (drop 2 buffer) (0 ∷ []) 2 refl
                (omega (arith, length-drop 2 buffer)),
          )
          refl

    read_server-payload :
        read_server sized (length payload) payload ≡ some (length payload, payload ++ 0 ∷ left)
    unfolding read_server store
    read_server-payload =
        rw
          (
            take-length payload,
            store_front_lem sized payload
                (omega (arith, length-drop 2 buffer, length-drop 1 (drop 2 buffer))),
            store_lem payload (drop (length payload) sized) (0 ∷ []) (length payload) refl (
                omega (
                  arith,
                  length-drop 2 buffer,
                  length-drop 1 (drop 2 buffer),
                  length-drop (length payload) sized,
                )),
          )
          refl

-- What a payload with a handler makes of a round.
pub app_step-payload :
    (inner buf : Bytes) (state : State) (buffer payload : Bytes) (h : State → Reaction)
    → length buffer ≡ buf_size
    → 0 < length payload
    → length payload + 2 ≤ buf_size
    → server_client_protocol_read
        (payload ++ 0 ∷ left buffer payload)
        (client_handlers inner)
        ignore
      ≡ some h
    → app_step inner buf state buffer (receives (some (u16_bytes (length payload))) (some payload))
      ≡ (h state >>= λ (state', outputs).
          some (runs state' (payload ++ 0 ∷ left buffer payload) outputs))
unfolding app_step on_message
app_step-payload inner buf state buffer payload h room pos fits found =
    let some_bytes : (length payload == 0) ≡ false = ground arith in
    rw
      (
        read_server-size buffer payload room fits,
        load16-u16_bytes (length payload) (0 ∷ drop 1 (drop 2 buffer)) (omega arith),
        read_server-payload buffer payload room fits,
        some_bytes,
        found,
      )
      refl

-- A message of the server reaches its handler: the server's writer stays inside its buffer and
-- fills a frame, and when the client's loop gets the size and the payload of this frame, its round
-- runs the message's handler at its arguments, in the state that the client is in. The message is
-- one of `IsSendable`, with fewer than 256 spectators in a list of users.
pub app_step-server_write :
    (m : ServerMessage) (server_buf inner buf buffer : Bytes)
    → length server_buf ≡ buf_size
    → IsSendable m
    → length buffer ≡ buf_size
    → (payload : Bytes) × Frames (write m server_buf) payload
      × ((state : State)
          → app_step inner buf state buffer
              (receives (some (u16_bytes (length payload))) (some payload))
            ≡ (call m (client_handlers inner) (0 ∷ left buffer payload) state
                >>= λ (state', outputs).
                    some (runs state' (payload ++ 0 ∷ left buffer payload) outputs)))
app_step-server_write m server_buf inner buf buffer room ok room' =
    let (payload, frames, (pos, fits), reads) = client_read-server_write m server_buf room ok in
    (
      payload,
      frames,
      λ state.
          app_step-payload inner buf state buffer payload
            (call m (client_handlers inner) (0 ∷ left buffer payload)) room' pos fits
            (reads (State → Reaction) (client_handlers inner) ignore (0 ∷ left buffer payload)),
    )
