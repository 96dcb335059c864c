-- ===== src/Client/Board/Aligned.antt =====
-- The lines of the board that `action_show_board` (client/src/actions.c) prints have the same width.
use awale_online.Prelude.{
  ℕ, zero, suc, ◌+◌, ◌*◌, ◌≤◌, ◌<◌, ◌≡◌, refl, ap, ◌∙◌, some, List, [], ◌∷◌, ◌++◌, length, get_or,
  replicate, arith,
}
use awale_online.Wire.{Bytes, codes}
use awale_online.Client.Board.{
  horizontal, vertical, repeated, edge_line, separator_columns, separator_line, cell, cells_down,
  cells_up, concat, board_lines, action_show_board,
}
use awale_online.Client.Board.Width.{
  widths_from, widths, Fills, Ends, Fills-append, Ends-append, newline-Ends, nothing-Fills,
  box-Fills,
}
use awale_online.Client.Board.Lines.{
  cell-Fills, score_line-Ends, separator_columns-Fills, framed-Ends, get_elem?_lem, vertical-Fills,
  horizontals-Fills,
}

-- The houses that are shown are there, and have two digits at most.
abbrev pub AreSmall : Bytes → Type 0
AreSmall board = (12 ≤ length board) × ((i : ℕ) → i < 12 → get_or board i 0 < 100)

module _ (board : Bytes) (small : AreSmall board) where
  cells_down-Fills :
      (i : ℕ) → i ≤ 6 → (text : Bytes) × (cells_down board i ≡ some text) × Fills (4 * i) text
  unfolding cells_down
  cells_down-Fills zero h = ([], refl, nothing-Fills)
  cells_down-Fills (suc i) h =
      let (others, e, fills) = cells_down-Fills i (omega arith) in
      let seeds = get_or board (i + 6) 0 in
      (
        cell seeds ++ others,
        rw (get_elem?_lem board (i + 6) (omega (arith, small.0)), e) refl,
        Fills-append 4 (4 * i) (4 * suc i) (cell seeds) others (omega arith)
            (cell-Fills seeds (small.1 (i + 6) (omega arith))) fills,
      )

  cells_up-Fills :
      (k i : ℕ) → i + k ≤ 6 → (text : Bytes) × (cells_up board k i ≡ some text) × Fills (4 * k) text
  unfolding cells_up
  cells_up-Fills zero i h = ([], refl, nothing-Fills)
  cells_up-Fills (suc k) i h =
      let (others, e, fills) = cells_up-Fills k (i + 1) (omega arith) in
      let seeds = get_or board i 0 in
      (
        cell seeds ++ others,
        rw (get_elem?_lem board i (omega (arith, small.0)), e) refl,
        Fills-append 4 (4 * k) (4 * suc k) (cell seeds) others (omega arith)
            (cell-Fills seeds (small.1 i (omega arith))) fills,
      )

row-Ends : (cells : Bytes) → Fills 24 cells → Ends 25 (vertical ++ (cells ++ codes "\n"))
row-Ends cells h =
    Ends-append 1 24 25 vertical (cells ++ codes "\n") (omega arith) vertical-Fills
      (Ends-append 24 0 24 cells (codes "\n") (omega arith) h newline-Ends)

-- The lines of these widths.
abbrev HaveWidths : List ℕ → List Bytes → Type 0
HaveWidths [] [] = Unit {0}
HaveWidths (n ∷ ns) (t ∷ ts) = Ends n t × HaveWidths ns ts
HaveWidths [] (t ∷ ts) = ⊥
HaveWidths (n ∷ ns) [] = ⊥

widths-concat : (ns : List ℕ) (ts : List Bytes) → HaveWidths ns ts → widths (concat ts) ≡ ns
unfolding concat widths_from
widths-concat [] [] h = refl
widths-concat (n ∷ ns) (t ∷ ts) (h, hs) =
    let none_before : 0 + n ≡ n = omega arith in
    h 0 (concat ts)
    ∙ (ap (λ k. k ∷ widths (concat ts)) none_before ∙ ap (λ l. n ∷ l) (widths-concat ns ts hs))
widths-concat [] (t ∷ ts) h = absurd h
widths-concat (n ∷ ns) [] h = absurd h

edge-Ends :
    (a b : ℕ)
    → 128 ≤ a
    → a < 192
    → 128 ≤ b
    → b < 192
    → Ends 25 (edge_line (b'\xE2' ∷ b'\x95' ∷ a ∷ []) (b'\xE2' ∷ b'\x95' ∷ b ∷ []))
unfolding edge_line
edge-Ends a b ha ha' hb hb' =
    framed-Ends 23 (b'\xE2' ∷ b'\x95' ∷ a ∷ []) (repeated 23 horizontal)
      (b'\xE2' ∷ b'\x95' ∷ b ∷ []) (box-Fills 149 a (omega arith) (omega arith) ha ha')
      (horizontals-Fills 23) (box-Fills 149 b (omega arith) (omega arith) hb hb')

separator-Ends :
    (m : ℕ)
    → 128 ≤ m
    → m < 192
    → Ends 25 (
        separator_line
          (b'\xE2' ∷ b'\x94' ∷ b'\x9C' ∷ [])
          (b'\xE2' ∷ b'\x94' ∷ m ∷ [])
          (b'\xE2' ∷ b'\x94' ∷ b'\xA4' ∷ []))
unfolding separator_line
separator-Ends m hm hm' =
    framed-Ends 23 (b'\xE2' ∷ b'\x94' ∷ b'\x9C' ∷ [])
      (separator_columns 5 (b'\xE2' ∷ b'\x94' ∷ m ∷ [])) (b'\xE2' ∷ b'\x94' ∷ b'\xA4' ∷ [])
      (box-Fills 148 156 (omega arith) (omega arith) (omega arith) (omega arith))
      (separator_columns-Fills 5 (b'\xE2' ∷ b'\x94' ∷ m ∷ [])
        (box-Fills 148 m (omega arith) (omega arith) hm hm'))
      (box-Fills 148 164 (omega arith) (omega arith) (omega arith) (omega arith))

-- The board is printed for all scores of a byte and all boards of twelve houses with two digits at most,
-- and then its nine lines, between two empty ones, are 25 columns wide each.
pub show_board-widths :
    (s_score o_score : ℕ) (board : Bytes)
    → s_score < 256
    → o_score < 256
    → AreSmall board
    → (text : Bytes) × (action_show_board s_score o_score board ≡ some text)
      × (widths text ≡ 0 ∷ (replicate 9 25 ++ 0 ∷ []))
unfolding action_show_board board_lines
show_board-widths s_score o_score board hs ho small =
    let (upper, up, up-fills) = cells_down-Fills board small 6 (omega arith) in
    let (lower, low, low-fills) = cells_up-Fills board small 6 0 (omega arith) in
    (
      concat (board_lines s_score o_score upper lower),
      rw (up, low) refl,
      widths-concat (0 ∷ (replicate 9 25 ++ 0 ∷ [])) (board_lines s_score o_score upper lower) (
        newline-Ends,
        (
          edge-Ends 173 174 (omega arith) (omega arith) (omega arith) (omega arith),
          (
            score_line-Ends o_score ho,
            (
              separator-Ends 172 (omega arith) (omega arith),
              (
                row-Ends upper up-fills,
                (
                  separator-Ends 188 (omega arith) (omega arith),
                  (
                    row-Ends lower low-fills,
                    (
                      separator-Ends 180 (omega arith) (omega arith),
                      (
                        score_line-Ends s_score hs,
                        (
                          edge-Ends 176 175 (omega arith) (omega arith) (omega arith) (omega arith),
                          (newline-Ends, tt),
                        ),
                      ),
                    ),
                  ),
                ),
              ),
            ),
          ),
        ),
      ),
    )
