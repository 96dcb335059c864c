-- ===== src/Client/Board/Numbers.antt =====
-- The numbers that a text shows, for the board of client/src/actions.c: the scores and the seeds, in the
-- order in which they are read.
use awale_online.Prelude.{
  ℕ, zero, suc, ◌+◌, ◌*◌, ◌<◌, ◌≡◌, refl, ap, ◌∙◌, Option, none, some, List, [], ◌∷◌, ◌++◌,
  if◌then◌else◌, length, lt→ltb, append_assoc, arith,
}
use awale_online.Wire.{Bytes, codes}
use awale_online.Text.{worth, is_digit, scan, decimal}
use awale_online.Text.RoundTrip.{AreDigits, decimal-AreDigits, decimal-cons, scan-decimal}
use awale_online.Client.Board.{vertical, size_sub, repeated, small_number, score_line, cell}
use awale_online.Client.Board.Lines.{take-short, decimal-length}

-- The numbers of a text; `some n` is a number whose digits so far are worth `n`.
unfoldable pub numbers_from : Option ℕ → Bytes → List ℕ
numbers_from none [] = []
numbers_from (some n) [] = n ∷ []
numbers_from none (c ∷ s) =
    if is_digit 10 c then numbers_from (some (worth c)) s else numbers_from none s
numbers_from (some n) (c ∷ s) =
    if is_digit 10 c then numbers_from (some (n * 10 + worth c)) s else n ∷ numbers_from none s

abbrev pub numbers : Bytes → List ℕ
numbers s = numbers_from none s

-- A text that shows these numbers, whatever follows.
abbrev pub Shows : List ℕ → Bytes → Type 0
Shows ns t = (s : Bytes) → numbers_from none (t ++ s) ≡ ns ++ numbers_from none s

-- A text without a number that ends the one before it.
abbrev Closes : Bytes → Type 0
Closes t = (n : ℕ) (s : Bytes) → numbers_from (some n) (t ++ s) ≡ n ∷ numbers_from none s

pub Shows-append :
    (ns ms : List ℕ) (t u : Bytes) → Shows ns t → Shows ms u → Shows (ns ++ ms) (t ++ u)
Shows-append ns ms t u ht hu s =
    rw (append_assoc t u s, append_assoc ns ms (numbers_from none s))
      (ht (u ++ s) ∙ ap (λ l. ns ++ l) (hu s))

-- The digits of a number, and what ends it.
digits_end :
    (s u : Bytes) (n : ℕ)
    → AreDigits 10 s
    → Closes u
    → (more : Bytes)
    → numbers_from (some n) (s ++ (u ++ more)) ≡ (scan 10 n s).0 ∷ numbers_from none more
unfolding numbers_from scan
digits_end [] u n ds h more = h n more
digits_end (c ∷ s) u n (hc, hs) h more =
    rw (lt→ltb (worth c) 10 hc) (digits_end s u (n * 10 + worth c) hs h more)

small_number-Shows : (n : ℕ) (u : Bytes) → n < 256 → Closes u → Shows (n ∷ []) (small_number n ++ u)
unfolding numbers_from scan decimal
small_number-Shows n u h closes s =
    let (c, t, e, hc) = decimal-cons n in
    let (_, ds) = rw e at (decimal-AreDigits n) in
    let first_digit : worth c ≡ 0 * 10 + worth c = omega arith in
    let total : (scan 10 (worth c) t).0 ≡ n =
      ap (λ m. (scan 10 m t).0) first_digit
      ∙ rw (lt→ltb (worth c) 10 hc) at (rw e at (ap (λ r. r.0) (scan-decimal n))) in
    rw
      (
        take-short 3 (decimal n) (decimal-length n h).1,
        e,
        append_assoc t u s,
        lt→ltb (worth c) 10 hc,
      )
      (digits_end t u (worth c) ds closes s ∙ ap (λ m. m ∷ numbers_from none s) total)

spaces-Shows : (n : ℕ) → Shows [] (repeated n (codes " "))
unfolding repeated numbers_from
spaces-Shows zero s = refl
spaces-Shows (suc n) s = spaces-Shows n s

-- The right edge of a score.
gap-Closes : (n : ℕ) → Closes (repeated n (codes " ") ++ (vertical ++ codes "\n"))
unfolding repeated numbers_from
gap-Closes zero m s = refl
gap-Closes (suc n) m s =
    ap (λ l. m ∷ l)
      (Shows-append [] [] (repeated n (codes " ")) (vertical ++ codes "\n") (spaces-Shows n)
        (λ more. refl) s)

pub cell-Shows : (seeds : ℕ) → seeds < 100 → Shows (seeds ∷ []) (cell seeds)
unfolding cell numbers_from
cell-Shows seeds h =
    Shows-append [] (seeds ∷ []) (repeated (size_sub 2 (length (small_number seeds))) (codes " "))
      (small_number seeds ++ (codes " " ++ vertical))
      (spaces-Shows (size_sub 2 (length (small_number seeds))))
      (small_number-Shows seeds (codes " " ++ vertical) (omega arith) (λ n s. refl))

pub score_line-Shows : (points : ℕ) → points < 256 → Shows (points ∷ []) (score_line points)
unfolding score_line numbers_from
score_line-Shows points h s =
    let buf = small_number points in
    let gap = size_sub (size_sub 23 7) (length buf) in
    small_number-Shows points (repeated gap (codes " ") ++ (vertical ++ codes "\n")) h
      (gap-Closes gap) s
