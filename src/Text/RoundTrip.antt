-- ===== src/Text/RoundTrip.antt =====
-- A number that `printf` writes is the number that `strtol` reads.
use awale_online.Prelude.{
  ℕ, zero, suc, ◌+◌, ◌*◌, ◌/◌, ◌%◌, ◌^◌, ◌≤◌, ◌<◌, ◌≡◌, refl, ap, Bool, true, false, ◌||◌, [], ◌∷◌,
  pos, ltb, leb, ◌==◌, if◌then◌else◌, arith, Bool-cases, inl, inr, ◌∙◌, lt→ltb, ltb→lt,
}
use awale_online.Wire.{Bytes}
use awale_online.Text.{
  worth, scan, digit_char, digits, decimal, hex, strtol, skip_space, sign, prefixed,
}

-- The characters of a text are digits of a base.
abbrev pub AreDigits : ℕ → Bytes → Type 0
AreDigits base [] = Unit {0}
AreDigits base (c ∷ s) = (worth c < base) × AreDigits base s

worth-digit_char : (d : ℕ) → d < 16 → worth (digit_char d) ≡ d
worth-digit_char d h = ground arith

scan-digit_char :
    (base n d : ℕ) (s : Bytes)
    → base ≤ 16
    → d < base
    → scan base n (digit_char d ∷ s) ≡ scan base (n * base + d) s
unfolding scan
scan-digit_char base n d s hb hd = rw (worth-digit_char d (omega arith), lt→ltb d base hd) refl

module _ (base : ℕ) (small : base ≤ 16) (below : (n : ℕ) → n % base < base)
    (split : (n : ℕ) → n / base * base + n % base ≡ n)
    (less : (n : ℕ) → base ≤ n → n / base < n) where
  scan-digits :
      (fuel n : ℕ) (out : Bytes) → n ≤ fuel → scan base 0 (digits base fuel n out) ≡ scan base n out
  unfolding digits
  scan-digits zero n out h =
      scan-digit_char base 0 n out small (omega (arith, below 0))
      ∙ ap (λ m. scan base m out) (omega arith)
  scan-digits (suc fuel) n out h = elim (Bool-cases (ltb n base)) [
    | inl last ↦
        rw (digits, last)
          (scan-digit_char base 0 n out small (ltb→lt n base last)
            ∙ ap (λ m. scan base m out) (omega arith))
    | inr more ↦
        rw (digits, more)
          (scan-digits fuel (n / base) (digit_char (n % base) ∷ out)
              (omega (arith, less n (ground (arith, more))))
            ∙ scan-digit_char base (n / base) (n % base) out small (below n)
            ∙ ap (λ m. scan base m out) (split n))
  ]

  digits-AreDigits :
      (fuel n : ℕ) (out : Bytes)
      → n ≤ fuel
      → AreDigits base out
      → AreDigits base (digits base fuel n out)
  unfolding digits
  digits-AreDigits zero n out h ds =
      (rw (worth-digit_char n (omega (arith, small, below 0))) (omega (arith, below 0)), ds)
  digits-AreDigits (suc fuel) n out h ds = elim (Bool-cases (ltb n base)) [
    | inl last ↦
        rw (digits, last)
          (
            rw (worth-digit_char n (omega (arith, small, ltb→lt n base last))) (ltb→lt n base last),
            ds,
          )
    | inr more ↦
        rw (digits, more)
          (digits-AreDigits fuel (n / base) (digit_char (n % base) ∷ out)
            (omega (arith, less n (ground (arith, more))))
            (rw (worth-digit_char (n % base) (omega (arith, small, below n))) (below n), ds))
  ]

digits-cons :
    (base fuel n : ℕ) (out : Bytes) → (c : ℕ) × (s : Bytes) × (digits base fuel n out ≡ c ∷ s)
unfolding digits
digits-cons base zero n out = (digit_char n, out, refl)
digits-cons base (suc fuel) n out = elim (Bool-cases (ltb n base)) [
  | inl last ↦ (digit_char n, out, rw (digits, last) refl)
  | inr more ↦
      let (c, s, e) = digits-cons base fuel (n / base) (digit_char (n % base) ∷ out) in
      (c, s, rw (digits, more) e)
]

skip_space-digit : (c : ℕ) (s : Bytes) → worth c < 16 → skip_space (c ∷ s) ≡ c ∷ s
unfolding skip_space
skip_space-digit c s h = ground arith

sign-digit : (c : ℕ) (s : Bytes) → worth c < 16 → sign (c ∷ s) ≡ (false, c ∷ s)
sign-digit c s h = ground arith

prefixed-AreDigits : (base : ℕ) (s : Bytes) → base ≤ 16 → AreDigits base s → prefixed s ≡ s
prefixed-AreDigits base [] small ds = refl
prefixed-AreDigits base (a ∷ []) small ds = refl
prefixed-AreDigits base (a ∷ x ∷ []) small ds = refl
prefixed-AreDigits base (a ∷ x ∷ c ∷ s) small (ha, (hx, hs)) =
    let no_x : (x == b'x' || x == b'X') ≡ false = ground arith in rw no_x (ground arith)

either_number : (b : Bool) {s t : Bytes} → t ≡ s → (if b then t else s) ≡ s
either_number true e = e
either_number false e = refl

-- A text of digits is read as the number that they spell.
strtol-AreDigits :
    (c : ℕ) (s : Bytes) (base n : ℕ)
    → base ≤ 16
    → AreDigits base (c ∷ s)
    → scan base 0 (c ∷ s) ≡ (n, [])
    → n < 2 ^ 63
    → strtol (c ∷ s) base ≡ (pos n, [])
unfolding strtol
strtol-AreDigits c s base n small (hc, hs) e h =
    let in_range : leb (2 ^ 63) n ≡ false = ground arith in
    rw
      (
        skip_space-digit c s (omega arith),
        sign-digit c s (omega arith),
        either_number (base == 16) (prefixed-AreDigits base (c ∷ s) small (hc, hs)),
        e,
        lt→ltb (worth c) base hc,
        in_range,
      )
      refl

pub decimal-AreDigits : (n : ℕ) → AreDigits 10 (digits 10 n n [])
decimal-AreDigits n =
    digits-AreDigits 10 (omega arith) (λ m. omega arith) (λ m. omega arith) (λ m h. omega arith) n n
      [] (omega arith) tt

hex-AreDigits : (n : ℕ) → AreDigits 16 (digits 16 n n [])
hex-AreDigits n =
    digits-AreDigits 16 (omega arith) (λ m. omega arith) (λ m. omega arith) (λ m h. omega arith) n n
      [] (omega arith) tt

pub scan-decimal : (n : ℕ) → scan 10 0 (decimal n) ≡ (n, [])
unfolding decimal scan
scan-decimal n =
    scan-digits 10 (omega arith) (λ m. omega arith) (λ m. omega arith) (λ m h. omega arith) n n []
      (omega arith)

scan-hex : (n : ℕ) → scan 16 0 (hex n) ≡ (n, [])
unfolding hex scan
scan-hex n =
    scan-digits 16 (omega arith) (λ m. omega arith) (λ m. omega arith) (λ m h. omega arith) n n []
      (omega arith)

-- The text of a number starts with a digit.
pub decimal-cons : (n : ℕ) → (c : ℕ) × (s : Bytes) × (decimal n ≡ c ∷ s) × (worth c < 10)
unfolding decimal
decimal-cons n =
    let (c, s, e) = digits-cons 10 n n [] in (c, s, e, (rw e at (decimal-AreDigits n)).0)

pub hex-cons : (n : ℕ) → (c : ℕ) × (s : Bytes) × (hex n ≡ c ∷ s) × (worth c < 16)
unfolding hex
hex-cons n = let (c, s, e) = digits-cons 16 n n [] in (c, s, e, (rw e at (hex-AreDigits n)).0)

-- `strtol` reads a decimal number that fits a `long` to its end.
pub strtol-decimal : (n : ℕ) → n < 2 ^ 63 → strtol (decimal n) 10 ≡ (pos n, [])
unfolding decimal
strtol-decimal n h =
    let (c, s, e) = digits-cons 10 n n [] in
    rw e (
      strtol-AreDigits c s 10 n (omega arith) (rw e at (decimal-AreDigits n))
        (rw e at (scan-decimal n)) h)

pub strtol-hex : (n : ℕ) → n < 2 ^ 63 → strtol (hex n) 16 ≡ (pos n, [])
unfolding hex
strtol-hex n h =
    let (c, s, e) = digits-cons 16 n n [] in
    rw e
      (strtol-AreDigits c s 16 n (omega arith) (rw e at (hex-AreDigits n)) (rw e at (scan-hex n)) h)
