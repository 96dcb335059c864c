-- ===== src/Text.antt =====
-- What both programs use of the C library's conversions between text and numbers: `strtol` and `atoi`,
-- and `%d` and `%x` of `printf` for numbers that are not negative. A text is a list of bytes.
pub mod RoundTrip
use awale_online.Prelude.{
  ℕ, zero, suc, ◌+◌, ◌-◌, ◌*◌, ◌/◌, ◌%◌, ◌^◌, Bool, true, false, ◌&&◌, ◌||◌, Option, none, some,
  List, [], ◌∷◌, ℤ, pos, negsuc, ltb, leb, ◌==◌, if◌then◌else◌,
}
use awale_online.Wire.{Bytes}

-- `isspace`
abbrev pub is_space : ℕ → Bool
is_space c = c == b' ' || (leb 9 c && leb c 13)

unfoldable pub skip_space : Bytes → Bytes
skip_space [] = []
skip_space (c ∷ s) = if is_space c then skip_space s else c ∷ s

-- What a character is worth as a digit; 36 is none in any base.
abbrev pub worth : ℕ → ℕ
worth c =
    if leb b'0' c && leb c b'9'
    then c - b'0'
    else if leb b'a' c && leb c b'z'
    then c - b'a' + 10
    else if leb b'A' c && leb c b'Z'
    then c - b'A' + 10
    else 36

abbrev pub is_digit : ℕ → ℕ → Bool
is_digit base c = ltb (worth c) base

-- The digits at the front of a text, behind the number `n`, and the text behind them.
unfoldable pub scan : ℕ → ℕ → Bytes → ℕ × Bytes
scan base n [] = (n, [])
scan base n (c ∷ s) = if is_digit base c then scan base (n * base + worth c) s else (n, c ∷ s)

-- Whether there is a minus, and what follows the sign.
abbrev pub sign : Bytes → Bool × Bytes
sign [] = (false, [])
sign (c ∷ s) = if c == b'-' then (true, s) else if c == b'+' then (false, s) else (false, c ∷ s)

-- Base 16 lets a text have `0x` or `0X` before its first digit.
abbrev pub prefixed : Bytes → Bytes
prefixed (a ∷ x ∷ c ∷ s) =
    if a == b'0' && ((x == b'x' || x == b'X') && is_digit 16 c) then c ∷ s else a ∷ x ∷ c ∷ s
prefixed s = s

abbrev pub starts_with_digit : ℕ → Bytes → Bool
starts_with_digit base [] = false
starts_with_digit base (c ∷ s) = is_digit base c

-- A `long` of 64 bits: what lies outside is the nearest one.
abbrev pub to_long : Bool → ℕ → ℤ
to_long true zero = pos 0
to_long true (suc n) = if leb (2 ^ 63) n then negsuc (2 ^ 63 - 1) else negsuc n
to_long false n = if leb (2 ^ 63) n then pos (2 ^ 63 - 1) else pos n

-- `strtol(s, &end, base)`: the number, and the text at `end`. Without a digit this is the whole text.
unfoldable pub strtol : Bytes → ℕ → ℤ × Bytes
unfolding scan skip_space
strtol s base =
    let (minus, unsigned) = sign (skip_space s) in
    let number = if base == 16 then prefixed unsigned else unsigned in
    if starts_with_digit base number
    then (let (n, end) = scan base 0 number in (to_long minus n, end))
    else (pos 0, s)

-- The low `w` bits of a number, as in a conversion to `uint8_t` and `uint32_t`.
abbrev pub low_bits : ℕ → ℤ → ℕ
low_bits w (pos n) = n % 2 ^ w
low_bits w (negsuc n) = 2 ^ w - 1 - n % 2 ^ w

abbrev pub digit_char : ℕ → ℕ
digit_char d = if ltb d 10 then b'0' + d else b'a' + (d - 10)

-- The digits of `n` before `out`; `n` rounds are enough.
unfoldable pub digits : ℕ → ℕ → ℕ → Bytes → Bytes
digits base zero n out = digit_char n ∷ out
digits base (suc fuel) n out = elim (ltb n base) [
  | true ↦ digit_char n ∷ out
  | false ↦ digits base fuel (n / base) (digit_char (n % base) ∷ out)
]

-- `%d`
unfoldable pub decimal : ℕ → Bytes
unfolding digits
decimal n = digits 10 n n []

-- `%x`
unfoldable pub hex : ℕ → Bytes
unfolding digits
hex n = digits 16 n n []
