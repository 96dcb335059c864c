-- ===== src/Server/Flood.antt =====
-- How much `read_client` of server/src/server.c lets in: a client says itself how many bytes follow, and
-- they go into `buffer[BUF_SIZE]`.
use awale_online.Prelude.{
  ℕ, ◌^◌, ◌≤◌, ◌<◌, ◌≡◌, ◌↔◌, refl, inl, inr, none, some, [], ◌∷◌, ◌++◌, length, drop, take, arith,
  length-drop, length-append, Bool-cases, ltb, ltb→lt, lt→ltb,
}
use awale_online.Wire.{Bytes, buf_size, store, u16_bytes}
use awale_online.Wire.Laws.{store_front_lem, store_lem, load16-u16_bytes}
use awale_online.Wire.Lengths.{store_front-short, store-short}
use awale_online.Server.State.{Server}
use awale_online.Server.Loop.{recv, read_client, talks, step}

module _ (buffer body : Bytes) (size : ℕ) (room : length buffer ≡ buf_size)
    (small : size < 2 ^ 16) where
  -- The buffer once the size has come in.
  abbrev announced : Bytes
  announced = u16_bytes size ++ drop 2 buffer

  length-announced : length announced ≡ buf_size
  length-announced = omega (arith, room, length-drop 2 buffer)

  -- What comes in of the body.
  abbrev taken : Bytes
  taken = take size body

  fits :
      length taken < buf_size
      → read_client buffer (some (u16_bytes size)) (some body)
        ≡ some (length taken, taken ++ 0 ∷ drop 1 (drop (length taken) announced))
  unfolding read_client recv store
  fits h =
      rw
        (
          store_front_lem buffer (u16_bytes size) (omega (arith, room)),
          load16-u16_bytes size (drop 2 buffer) small,
          store_front_lem announced taken (omega (arith, h, length-announced)),
          store_lem taken (drop (length taken) announced) (0 ∷ []) (length taken) refl
              (omega (arith, h, length-announced, length-drop (length taken) announced)),
        )
        refl

  floods : buf_size ≤ length taken → read_client buffer (some (u16_bytes size)) (some body) ≡ none
  unfolding read_client recv store
  floods h = elim (Bool-cases (ltb buf_size (length taken))) [
    | inl more ↦
        rw
          (
            store_front_lem buffer (u16_bytes size) (omega (arith, room)),
            load16-u16_bytes size (drop 2 buffer) small,
            store_front-short announced taken
                (omega (arith, length-announced, ltb→lt buf_size (length taken) more)),
          )
          refl
    | inr full ↦
        rw
          (
            store_front_lem buffer (u16_bytes size) (omega (arith, room)),
            load16-u16_bytes size (drop 2 buffer) small,
            store_front_lem announced taken (ground (arith, length-announced, full)),
            store-short (taken ++ drop (length taken) announced) (length taken) (0 ∷ []) (
                omega (
                  arith,
                  length-append taken (drop (length taken) announced),
                  length-drop (length taken) announced,
                  length-announced,
                  h,
                )),
          )
          refl
  ]

-- After a client has announced a size, `read_client` writes outside the buffer of the loop exactly when
-- `recv` then gives as many bytes as the buffer holds, or more: the size is compared with nothing, and
-- the NUL behind 1024 bytes has no place either. The size has sixteen bits, and `recv` gives at most
-- that many bytes of what the client has sent.
pub read_client_iff :
    (buffer body : Bytes) (size : ℕ)
    → length buffer ≡ buf_size
    → size < 2 ^ 16
    → (read_client buffer (some (u16_bytes size)) (some body) ≡ none)
      ↔ (buf_size ≤ length (take size body))
read_client_iff buffer body size room small = (
  λ fault. elim (Bool-cases (ltb (length (take size body)) buf_size)) [
    | inl short ↦
        let read =
          fits buffer body size room small (ltb→lt (length (take size body)) buf_size short) in
        cc
    | inr long ↦ ground (arith, long)
  ],
  floods buffer body size room small,
)

-- The round of the loop then has no result.
pub step-none :
    (s : Server) (i size : ℕ) (buffer body scratch : Bytes) (rand : ℕ)
    → i < s.nb_clients
    → length buffer ≡ buf_size
    → size < 2 ^ 16
    → buf_size ≤ length (take size body)
    → step s buffer (talks i (some (u16_bytes size)) (some body) scratch rand) ≡ none
unfolding step
step-none s i size buffer body scratch rand inside room small long =
    rw (lt→ltb i s.nb_clients inside, floods buffer body size room small long) refl
