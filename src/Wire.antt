-- ===== src/Wire.antt =====
-- The memory that both programs write messages into, and the C library's strings
-- (server/src/protocol.c, client/src/protocol.c): a buffer is the list of its bytes, a pointer into it
-- the list of the bytes from there on, and a `const char *` the bytes before its NUL. Numbers of
-- several bytes stand lowest byte first, as on the machines that the programs are built for.
pub mod Laws
pub mod Lengths
pub mod Samples
use Prim.Native.Char.{code}
use Prim.Native.String.{String}
use awale_online.Prelude.{
  ℕ, zero, suc, ◌+◌, ◌*◌, ◌/◌, ◌%◌, ◌^◌, ◌≢◌, Option, none, some, List, [], ◌∷◌, ◌++◌, ◌==◌,
  if◌then◌else◌, length, get_elem?, ◌>>=◌,
}

abbrev pub Bytes : Type 0
Bytes = List ℕ

-- `BUF_SIZE`, the room in every buffer.
abbrev pub buf_size : ℕ
buf_size = 1024

-- `a ∷ l`, where there is an `l`
abbrev pub prepend : ℕ → Option Bytes → Option Bytes
prepend a none = none
prepend a (some l) = some (a ∷ l)

-- Writes bytes at the start of a buffer. `none` is a write behind its end.
unfoldable pub store_front : Bytes → Bytes → Option Bytes
store_front buf [] = some buf
store_front [] (b ∷ bs) = none
store_front (x ∷ buf) (b ∷ bs) = prepend b (store_front buf bs)

-- Writes bytes at an index.
unfoldable pub store : Bytes → ℕ → Bytes → Option Bytes
unfolding store_front
store buf zero bs = store_front buf bs
store [] (suc i) bs = none
store (x ∷ buf) (suc i) bs = prepend x (store buf i bs)

-- A `uint16_t` and a `uint32_t` in memory.
abbrev pub u16_bytes : ℕ → Bytes
u16_bytes n = n % 256 ∷ n / 256 % 256 ∷ []

abbrev pub u32_bytes : ℕ → Bytes
u32_bytes n = n % 256 ∷ n / 256 % 256 ∷ n / 2 ^ 16 % 256 ∷ n / 2 ^ 24 % 256 ∷ []

-- `*(uint16_t *)p` and `*(uint32_t *)p`
unfoldable pub load16 : Bytes → Option ℕ
load16 buf = do a ← get_elem? buf 0; b ← get_elem? buf 1; some (a + 256 * b)

unfoldable pub load32 : Bytes → Option ℕ
load32 buf = do
  a ← get_elem? buf 0
  b ← get_elem? buf 1
  c ← get_elem? buf 2
  d ← get_elem? buf 3
  some (a + 256 * b + 2 ^ 16 * c + 2 ^ 24 * d)

-- The string at a pointer. `none` is a read behind the end of the buffer.
unfoldable pub c_string : Bytes → Option Bytes
c_string [] = none
c_string (b ∷ buf) = if b == 0 then some [] else prepend b (c_string buf)

-- What `strcpy` writes.
abbrev pub terminated : Bytes → Bytes
terminated s = s ++ 0 ∷ []

-- A C string holds no NUL.
abbrev pub IsString : Bytes → Type 0
IsString [] = Unit {0}
IsString (b ∷ s) = (b ≢ 0) × IsString s

-- Every message starts with a `uint16_t`, the size of what follows it, and a byte that tells its kind.
unfoldable pub write_header : Bytes → ℕ → ℕ → Option Bytes
write_header buf size kind = do buf' ← store buf 0 (u16_bytes size); store buf' 2 (kind ∷ [])

-- The functions that write a header alone.
unfoldable pub write_bare : ℕ → Bytes → Option (ℕ × Bytes)
write_bare kind buf = do
  let size : ℕ = 1
  written ← write_header buf size kind
  some (size + 2, written)

-- The functions that write a header and one string.
unfoldable pub write_text : ℕ → Bytes → Bytes → Option (ℕ × Bytes)
write_text kind buf text = do
  let size = (length text + 2) % 2 ^ 16
  headed ← write_header buf size kind
  written ← store headed 3 (terminated text)
  some (size + 2, written)

-- A text of the source: its bytes.
abbrev pub codes : String → Bytes
codes String.[] = []
codes (String.◌∷◌ c s) = code c ∷ codes s
