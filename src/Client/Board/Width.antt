-- ===== src/Client/Board/Width.antt =====
-- The widths of the lines of a text, for the board of client/src/actions.c.
use awale_online.Prelude.{
  ℕ, zero, suc, ◌+◌, ◌≤◌, ◌<◌, ◌≡◌, ap, ◌∙◌, ◌&&◌, List, [], ◌∷◌, ◌++◌, ◌==◌, ltb, leb,
  if◌then◌else◌, length, arith, append_assoc,
}
use awale_online.Wire.{Bytes}
use awale_online.Text.RoundTrip.{AreDigits}
use awale_online.Client.Board.{repeated}

-- A byte that continues a character of several bytes takes no column.
abbrev column : ℕ → ℕ
column c = if leb 128 c && ltb c 192 then 0 else 1

-- The widths of the lines of a text, where the first has `w` columns already. What follows the last
-- newline is no line.
unfoldable pub widths_from : ℕ → Bytes → List ℕ
widths_from w [] = []
widths_from w (c ∷ s) = if c == b'\n' then w ∷ widths_from 0 s else widths_from (w + column c) s

abbrev pub widths : Bytes → List ℕ
widths s = widths_from 0 s

-- A text in a line, of `n` columns.
abbrev pub Fills : ℕ → Bytes → Type 0
Fills n t = (w : ℕ) (s : Bytes) → widths_from w (t ++ s) ≡ widths_from (w + n) s

-- The rest of a line, of `n` columns.
abbrev pub Ends : ℕ → Bytes → Type 0
Ends n t = (w : ℕ) (s : Bytes) → widths_from w (t ++ s) ≡ (w + n) ∷ widths_from 0 s

pub Fills-append : (a b n : ℕ) (t u : Bytes) → a + b ≡ n → Fills a t → Fills b u → Fills n (t ++ u)
Fills-append a b n t u e ht hu w s =
    rw (append_assoc t u s) (ht w (u ++ s) ∙ hu (w + a) s ∙ ap (λ k. widths_from k s) (omega arith))

pub Ends-append : (a b n : ℕ) (t u : Bytes) → a + b ≡ n → Fills a t → Ends b u → Ends n (t ++ u)
Ends-append a b n t u e ht hu w s =
    rw (append_assoc t u s)
      (ht w (u ++ s) ∙ hu (w + a) s ∙ ap (λ k. k ∷ widths_from 0 s) (omega arith))

pub newline-Ends : Ends 0 (b'\n' ∷ [])
unfolding widths_from
newline-Ends w s = ap (λ k. k ∷ widths_from 0 s) (omega arith)

pub nothing-Fills : Fills 0 []
nothing-Fills w s = ap (λ k. widths_from k s) (omega arith)

-- A character of the box.
pub box-Fills : (a b : ℕ) → 128 ≤ a → a < 192 → 128 ≤ b → b < 192 → Fills 1 (b'\xE2' ∷ a ∷ b ∷ [])
unfolding widths_from
box-Fills a b ha ha' hb hb' w s = ground arith

pub plain-Fills : (c : ℕ) → c < 128 → b'\n' < c → Fills 1 (c ∷ [])
unfolding widths_from
plain-Fills c h h' w s = ground arith

pub repeated-Fills : (n : ℕ) (t : Bytes) → Fills 1 t → Fills n (repeated n t)
unfolding repeated
repeated-Fills zero t h = nothing-Fills
repeated-Fills (suc n) t h =
    Fills-append 1 n (suc n) t (repeated n t) (omega arith) h (repeated-Fills n t h)

pub digits-Fills : (s : Bytes) → AreDigits 10 s → Fills (length s) s
digits-Fills [] ds = nothing-Fills
digits-Fills (c ∷ s) (hc, hs) =
    Fills-append 1 (length s) (suc (length s)) (c ∷ []) s (omega arith)
      (plain-Fills c (ground (arith, hc)) (ground (arith, hc))) (digits-Fills s hs)
