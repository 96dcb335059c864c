-- ===== src/Client/Board/Lines.antt =====
-- The parts of the lines that `action_show_board` (client/src/actions.c) prints, and their widths.
use awale_online.Prelude.{
  ℕ, zero, suc, ◌+◌, ◌*◌, ◌/◌, ◌%◌, ◌≤◌, ◌<◌, ◌≡◌, refl, ap, false, some, [], ◌∷◌, ◌++◌, ltb,
  lt→ltb, ltb→lt, Bool-cases, inl, inr, length, take, get_elem?, get_or, arith,
}
use awale_online.Wire.{Bytes, codes}
use awale_online.Text.{digits, decimal, digit_char}
use awale_online.Text.RoundTrip.{decimal-AreDigits}
use awale_online.Client.Board.{
  horizontal, vertical, size_sub, repeated, small_number, separator_columns, score_line, cell,
}
use awale_online.Client.Board.Width.{
  widths_from, Fills, Ends, Fills-append, Ends-append, newline-Ends, box-Fills, plain-Fills,
  repeated-Fills, digits-Fills,
}

-- How long a number is.
module _ (out : Bytes) where
  one_digit : (fuel n : ℕ) → n < 10 → length (digits 10 fuel n out) ≡ suc (length out)
  unfolding digits
  one_digit zero n h = refl
  one_digit (suc fuel) n h = rw (digits, lt→ltb n 10 h) refl

pub more_digits :
    (fuel n : ℕ) (out : Bytes)
    → 10 ≤ n
    → digits 10 (suc fuel) n out ≡ digits 10 fuel (n / 10) (digit_char (n % 10) ∷ out)
unfolding digits
more_digits fuel n out h = let more : ltb n 10 ≡ false = ground arith in rw (digits, more) refl

pub two_digits : (fuel n : ℕ) → n ≤ fuel → 10 ≤ n → n < 100 → length (digits 10 fuel n []) ≡ 2
two_digits zero n f lo hi = absurd (omega arith)
two_digits (suc fuel) n f lo hi =
    rw (more_digits fuel n [] lo) (one_digit (digit_char (n % 10) ∷ []) fuel (n / 10) (omega arith))

pub three_digits : (fuel n : ℕ) → n ≤ fuel → 100 ≤ n → n < 256 → length (digits 10 fuel n []) ≡ 3
three_digits zero n f lo hi = absurd (omega arith)
three_digits (suc zero) n f lo hi = absurd (omega arith)
three_digits (suc (suc fuel)) n f lo hi =
    rw
      (
        more_digits (suc fuel) n [] (omega arith),
        more_digits fuel (n / 10) (digit_char (n % 10) ∷ []) (omega arith),
      )
      (one_digit (digit_char (n / 10 % 10) ∷ digit_char (n % 10) ∷ []) fuel (n / 10 / 10)
        (omega arith))

pub decimal-length :
    (n : ℕ)
    → n < 256
    → (0 < length (decimal n)) × (length (decimal n) ≤ 3) × (n < 100 → length (decimal n) ≤ 2)
unfolding decimal
decimal-length n h = elim (Bool-cases (ltb n 10)) [
  | inl one ↦
      let e = one_digit [] n n (ltb→lt n 10 one) in
      (omega (arith, e), omega (arith, e), λ few. omega (arith, e))
  | inr more ↦ elim (Bool-cases (ltb n 100)) [
    | inl two ↦
        let e = two_digits n n (omega arith) (ground (arith, more)) (ltb→lt n 100 two) in
        (omega (arith, e), omega (arith, e), λ few. omega (arith, e))
    | inr three ↦
        let lo : 100 ≤ n = ground (arith, three) in
        let e = three_digits n n (omega arith) lo h in
        (omega (arith, e), omega (arith, e), λ few. absurd (omega arith))
  ]
]

pub take-short : (k : ℕ) (s : Bytes) → length s ≤ k → take k s ≡ s
take-short zero [] h = refl
take-short zero (c ∷ s) h = absurd (omega arith)
take-short (suc k) [] h = refl
take-short (suc k) (c ∷ s) h = ap (λ t. c ∷ t) (take-short k s (omega arith))

-- A byte as text.
pub small_number-Fills : (n : ℕ) → n < 256 → Fills (length (small_number n)) (small_number n)
unfolding decimal
small_number-Fills n h =
    rw (take-short 3 (decimal n) (decimal-length n h).1)
      (digits-Fills (decimal n) (decimal-AreDigits n))

pub horizontals-Fills : (n : ℕ) → Fills n (repeated n horizontal)
horizontals-Fills n =
    repeated-Fills n horizontal
      (box-Fills 148 128 (omega arith) (omega arith) (omega arith) (omega arith))

pub vertical-Fills : Fills 1 vertical
vertical-Fills = box-Fills 148 130 (omega arith) (omega arith) (omega arith) (omega arith)

pub spaces-Fills : (n : ℕ) → Fills n (repeated n (codes " "))
spaces-Fills n = repeated-Fills n (codes " ") (plain-Fills b' ' (omega arith) (omega arith))

pub small_number-length :
    (n : ℕ)
    → n < 256
    → (0 < length (small_number n))
      × (length (small_number n) ≤ 3)
      × (n < 100 → length (small_number n) ≤ 2)
small_number-length n h = rw (take-short 3 (decimal n) (decimal-length n h).1) (decimal-length n h)

pub cell-Fills : (seeds : ℕ) → seeds < 100 → Fills 4 (cell seeds)
unfolding cell
cell-Fills seeds h =
    let byte : seeds < 256 = omega arith in
    let buf = small_number seeds in
    let (some_digit, at_most, few) = small_number-length seeds byte in
    let short = few h in
    Fills-append (size_sub 2 (length buf)) (length buf + 2) 4
      (repeated (size_sub 2 (length buf)) (codes " ")) (buf ++ (codes " " ++ vertical))
      (omega arith) (spaces-Fills (size_sub 2 (length buf)))
      (Fills-append (length buf) 2 (length buf + 2) buf (codes " " ++ vertical) refl
        (small_number-Fills seeds byte)
        (Fills-append 1 1 2 (codes " ") vertical (omega arith)
          (plain-Fills b' ' (omega arith) (omega arith)) vertical-Fills))

pub score-Fills : Fills 7 (codes "Score: ")
unfolding widths_from
score-Fills w s = ap (λ k. widths_from k s) (omega arith)

pub score_line-Ends : (points : ℕ) → points < 256 → Ends 25 (score_line points)
unfolding score_line
score_line-Ends points h =
    let buf = small_number points in
    let gap = size_sub (size_sub 23 7) (length buf) in
    let (some_digit, at_most, few) = small_number-length points h in
    Ends-append 1 24 25 vertical
      ((codes "Score: " ++ buf) ++ (repeated gap (codes " ") ++ (vertical ++ codes "\n")))
      (omega arith) vertical-Fills
      (Ends-append (7 + length buf) (gap + 1) 24 (codes "Score: " ++ buf)
        (repeated gap (codes " ") ++ (vertical ++ codes "\n")) (omega arith)
        (Fills-append 7 (length buf) (7 + length buf) (codes "Score: ") buf refl score-Fills
          (small_number-Fills points h))
        (Ends-append gap 1 (gap + 1) (repeated gap (codes " ")) (vertical ++ codes "\n") refl
          (spaces-Fills gap)
          (Ends-append 1 0 1 vertical (codes "\n") (omega arith) vertical-Fills newline-Ends)))

pub separator_columns-Fills :
    (k : ℕ) (middle : Bytes) → Fills 1 middle → Fills (4 * k + 3) (separator_columns k middle)
unfolding separator_columns
separator_columns-Fills zero middle h = horizontals-Fills 3
separator_columns-Fills (suc k) middle h =
    Fills-append 3 (4 * k + 4) (4 * suc k + 3) (repeated 3 horizontal)
      (middle ++ separator_columns k middle) (omega arith) (horizontals-Fills 3)
      (Fills-append 1 (4 * k + 3) (4 * k + 4) middle (separator_columns k middle) (omega arith) h
        (separator_columns-Fills k middle h))

-- A line of the box itself.
pub framed-Ends :
    (n : ℕ) (left inside right : Bytes)
    → Fills 1 left
    → Fills n inside
    → Fills 1 right
    → Ends (n + 2) (left ++ (inside ++ (right ++ codes "\n")))
framed-Ends n left inside right hl hi hr =
    Ends-append 1 (n + 1) (n + 2) left (inside ++ (right ++ codes "\n")) (omega arith) hl (
      Ends-append n 1 (n + 1) inside (right ++ codes "\n") refl hi
        (Ends-append 1 0 1 right (codes "\n") (omega arith) hr newline-Ends))

pub get_elem?_lem : (s : Bytes) (i : ℕ) → i < length s → get_elem? s i ≡ some (get_or s i 0)
get_elem?_lem [] i h = absurd (omega arith)
get_elem?_lem (c ∷ s) zero h = refl
get_elem?_lem (c ∷ s) (suc i) h = get_elem?_lem s i (omega arith)
