-- ===== src/Wire/Laws.antt =====
-- Laws of the message memory: what a write leaves, and what a read finds of it.
use awale_online.Prelude.{
  append_assoc, ℕ, suc, ◌+◌, ◌%◌, ◌^◌, ◌≤◌, ◌<◌, ◌≡◌, refl, ap, Option, some, [], ◌∷◌, ◌++◌, length,
  drop, length-drop, take, take_append, arith, length-append,
}
use awale_online.Wire.{
  Bytes, store_front, store, u16_bytes, u32_bytes, load16, load32, c_string, terminated, IsString,
  write_header, write_bare, write_text,
}

pub store_front_lem :
    (buf bs : Bytes)
    → length bs ≤ length buf
    → store_front buf bs ≡ some (bs ++ drop (length bs) buf)
unfolding store_front
store_front_lem buf [] h = refl
store_front_lem [] (b ∷ bs) h = absurd (omega arith)
store_front_lem (x ∷ buf) (b ∷ bs) h = rw (store_front_lem buf bs (omega arith))

pub write_header_lem :
    (buf : Bytes) (size kind : ℕ)
    → 3 ≤ length buf
    → write_header buf size kind ≡ some (u16_bytes size ++ kind ∷ drop 3 buf)
unfolding write_header store
write_header_lem [] size kind h = absurd (omega arith)
write_header_lem (a ∷ []) size kind h = absurd (omega arith)
write_header_lem (a ∷ b ∷ []) size kind h = absurd (omega arith)
write_header_lem (a ∷ b ∷ c ∷ buf) size kind h = refl

pub load32-u32_bytes : (n : ℕ) (rest : Bytes) → n < 2 ^ 32 → load32 (u32_bytes n ++ rest) ≡ some n
unfolding load32
load32-u32_bytes n rest h = ap some (omega arith)

pub load16-u16_bytes : (n : ℕ) (rest : Bytes) → n < 2 ^ 16 → load16 (u16_bytes n ++ rest) ≡ some n
unfolding load16
load16-u16_bytes n rest h = ap some (omega arith)

-- A string is read back up to its NUL, whatever follows.
pub c_string-terminated : (s rest : Bytes) → IsString s → c_string (s ++ 0 ∷ rest) ≡ some s
unfolding c_string
c_string-terminated [] rest h = refl
c_string-terminated (b ∷ s) rest h = ground (arith, c_string-terminated s rest h.1)

pub length-terminated : (s : Bytes) → length (terminated s) ≡ length s + 1
length-terminated s = length-append s _

-- `str += strlen(str) + 1`
pub drop-terminated : (s rest : Bytes) → drop (suc (length s)) (s ++ 0 ∷ rest) ≡ rest
drop-terminated [] rest = refl
drop-terminated (b ∷ s) rest = drop-terminated s rest

-- What a writer leaves in the buffer, and returns: the size of the payload, then the payload.
abbrev pub Frames : Option (ℕ × Bytes) → Bytes → Type 0
Frames out payload =
    (buf : Bytes) × (out ≡ some (length payload + 2, buf))
    × (take (suc (suc (length payload))) buf ≡ u16_bytes (length payload) ++ payload)

pub write_bare-Frames :
    (kind : ℕ) (buf : Bytes) → 3 ≤ length buf → Frames (write_bare kind buf) (kind ∷ [])
unfolding write_bare
write_bare-Frames kind buf h =
    (u16_bytes 1 ++ kind ∷ drop 3 buf, rw (write_header_lem buf 1 kind h), refl)

pub write_text-Frames :
    (kind : ℕ) (buf text : Bytes)
    → length text + 4 ≤ length buf
    → length text + 2 < 2 ^ 16
    → Frames (write_text kind buf text) (kind ∷ terminated text)
unfolding write_text store
write_text-Frames kind buf text h k = (
  u16_bytes ((length text + 2) % 2 ^ 16) ++ kind ∷ (terminated text ++ left),
  rw
      (
        write_header_lem buf ((length text + 2) % 2 ^ 16) kind (omega arith),
        store_front_lem (drop 3 buf) (terminated text) room,
      )
      (rw size),
  rw (size, take_append (terminated text) left),
)
  where
    left : Bytes
    left = drop (length (terminated text)) (drop 3 buf)

    room : length (terminated text) ≤ length (drop 3 buf)
    room = omega (arith, length-terminated text, length-drop 3 buf)

    size : (length text + 2) % 2 ^ 16 ≡ suc (length (terminated text))
    size = omega (arith, length-terminated text)

store-append :
    (before buf bs : Bytes)
    → length bs ≤ length buf
    → store (before ++ buf) (length before) bs ≡ some (before ++ (bs ++ drop (length bs) buf))
unfolding store
store-append [] buf bs h = store_front_lem buf bs h
store-append (x ∷ before) buf bs h = rw (store-append before buf bs h)

-- A write right behind what is written already.
pub store_lem :
    (before buf bs : Bytes) (i : ℕ)
    → i ≡ length before
    → length bs ≤ length buf
    → store (before ++ buf) i bs ≡ some (before ++ (bs ++ drop (length bs) buf))
store_lem before buf bs i e h = rw e (store-append before buf bs h)

-- `c_string-terminated` and `drop-terminated` for a string that is followed by something.
pub c_string-front : (s rest : Bytes) → IsString s → c_string (terminated s ++ rest) ≡ some s
c_string-front s rest h = rw (append_assoc s (0 ∷ []) rest) (c_string-terminated s rest h)

pub drop-front : (s rest : Bytes) → drop (suc (length s)) (terminated s ++ rest) ≡ rest
drop-front s rest = rw (append_assoc s (0 ∷ []) rest) (drop-terminated s rest)
