-- ===== src/Client/Board/Picture.antt =====
-- What the board of client/src/actions.c shows: the scores and the houses where they belong.
use mathlib.Core.Option.{some-injective}
use mathlib.Core.Path.{ap₂}
use awale_online.Prelude.{
  ℕ, zero, suc, ◌+◌, ◌≤◌, ◌<◌, ◌≡◌, refl, ap, ◌∙◌, some, List, [], ◌∷◌, ◌++◌, get_or-append, sym,
  length, get_or, append_assoc, arith,
}
use awale_online.Wire.{Bytes, codes}
use awale_online.Client.Board.{
  vertical, cell, edge_line, separator_line, cells_down, cells_up, concat, board_lines,
  action_show_board,
}
use awale_online.Client.Board.Lines.{get_elem?_lem}
use awale_online.Client.Board.Aligned.{AreSmall}
use awale_online.Client.Board.Numbers.{
  numbers_from, numbers, Shows, Shows-append, cell-Shows, score_line-Shows,
}

-- The six houses of a row, from the one at `i + 5` down and from the one at `i` up.
row_down : Bytes → ℕ → List ℕ
row_down board zero = []
row_down board (suc i) = get_or board (i + 6) 0 ∷ row_down board i

row_up : Bytes → ℕ → ℕ → List ℕ
row_up board zero i = []
row_up board (suc k) i = get_or board i 0 ∷ row_up board k (i + 1)

module _ (board : Bytes) (small : AreSmall board) where
  cells_down-Shows :
      (i : ℕ)
      → i ≤ 6
      → (text : Bytes) × (cells_down board i ≡ some text) × Shows (row_down board i) text
  unfolding cells_down row_down
  cells_down-Shows zero h = ([], refl, λ s. refl)
  cells_down-Shows (suc i) h =
      let (others, e, rest) = cells_down-Shows i (omega arith) in
      let seeds = get_or board (i + 6) 0 in
      (
        cell seeds ++ others,
        rw (get_elem?_lem board (i + 6) (omega (arith, small.0)), e) refl,
        Shows-append (seeds ∷ []) (row_down board i) (cell seeds) others
            (cell-Shows seeds (small.1 (i + 6) (omega arith))) rest,
      )

  cells_up-Shows :
      (k i : ℕ)
      → i + k ≤ 6
      → (text : Bytes) × (cells_up board k i ≡ some text) × Shows (row_up board k i) text
  unfolding cells_up row_up
  cells_up-Shows zero i h = ([], refl, λ s. refl)
  cells_up-Shows (suc k) i h =
      let (others, e, rest) = cells_up-Shows k (i + 1) (omega arith) in
      let seeds = get_or board i 0 in
      (
        cell seeds ++ others,
        rw (get_elem?_lem board i (omega (arith, small.0)), e) refl,
        Shows-append (seeds ∷ []) (row_up board k (i + 1)) (cell seeds) others
            (cell-Shows seeds (small.1 i (omega arith))) rest,
      )

row-Shows :
    (ns : List ℕ) (cells : Bytes) → Shows ns cells → Shows ns (vertical ++ (cells ++ codes "\n"))
unfolding numbers_from
row-Shows ns cells h s = rw (append_assoc cells (codes "\n") s) (h (codes "\n" ++ s))

-- What a board shows, read from the top: the other side's score, its houses from the last to the first,
-- one's own houses from the first to the last, and one's own score. One's own houses come first in
-- `board`.
abbrev pub picture : ℕ → ℕ → Bytes → List ℕ
picture s_score o_score board =
    let house : ℕ → ℕ = λ i. get_or board i 0 in
    (o_score ∷ house 11 ∷ house 10 ∷ house 9 ∷ house 8 ∷ house 7 ∷ house 6 ∷ [])
    ++ (house 0 ∷ house 1 ∷ house 2 ∷ house 3 ∷ house 4 ∷ house 5 ∷ s_score ∷ [])

module _ (board rest : Bytes) (twelve : 12 ≤ length board) where
  row_down-append : (i : ℕ) → i ≤ 6 → row_down (board ++ rest) i ≡ row_down board i
  unfolding row_down
  row_down-append zero h = refl
  row_down-append (suc i) h =
      ap₂ ◌∷◌ (get_or-append board rest (i + 6) 0 (omega (arith, twelve)))
        (row_down-append i (omega arith))

  row_up-append : (k i : ℕ) → i + k ≤ 6 → row_up (board ++ rest) k i ≡ row_up board k i
  unfolding row_up
  row_up-append zero i h = refl
  row_up-append (suc k) i h =
      ap₂ ◌∷◌ (get_or-append board rest i 0 (omega (arith, twelve)))
        (row_up-append k (i + 1) (omega arith))

  -- What lies behind the houses is not shown.
  pub picture-append :
      (s_score o_score : ℕ)
      → picture s_score o_score (board ++ rest) ≡ picture s_score o_score board
  unfolding row_down row_up
  picture-append s_score o_score =
      ap₂ (λ upper lower. (o_score ∷ upper) ++ (lower ++ (s_score ∷ [])))
        (row_down-append 6 (omega arith)) (row_up-append 6 0 (omega arith))

-- The lines that show these numbers.
abbrev HaveNumbers : List (List ℕ) → List Bytes → Type 0
HaveNumbers [] [] = Unit {0}
HaveNumbers (ns ∷ nss) (t ∷ ts) = Shows ns t × HaveNumbers nss ts
HaveNumbers [] (t ∷ ts) = ⊥
HaveNumbers (ns ∷ nss) [] = ⊥

numbers-concat :
    (nss : List (List ℕ)) (ts : List Bytes) → HaveNumbers nss ts → numbers (concat ts) ≡ concat nss
unfolding concat numbers_from
numbers-concat [] [] h = refl
numbers-concat (ns ∷ nss) (t ∷ ts) (h, hs) =
    h (concat ts) ∙ ap (λ l. ns ++ l) (numbers-concat nss ts hs)
numbers-concat [] (t ∷ ts) h = absurd h
numbers-concat (ns ∷ nss) [] h = absurd h

-- The board that is printed shows the scores and the houses where they belong.
pub show_board-numbers :
    (s_score o_score : ℕ) (board text : Bytes)
    → s_score < 256
    → o_score < 256
    → AreSmall board
    → action_show_board s_score o_score board ≡ some text
    → numbers text ≡ picture s_score o_score board
unfolding action_show_board board_lines concat row_down row_up numbers_from edge_line separator_line
show_board-numbers s_score o_score board text hs ho small printed =
    let (upper, up, upper-numbers) = cells_down-Shows board small 6 (omega arith) in
    let (lower, low, lower-numbers) = cells_up-Shows board small 6 0 (omega arith) in
    let same : concat (board_lines s_score o_score upper lower) ≡ text =
      some-injective _ _ (rw (up, low) at printed) in
    rw (sym same) (
      numbers-concat
        ([]
          ∷ []
          ∷ (o_score ∷ [])
          ∷ []
          ∷ row_down board 6
          ∷ []
          ∷ row_up board 6 0
          ∷ []
          ∷ (s_score ∷ [])
          ∷ []
          ∷ []
          ∷ [])
        (board_lines s_score o_score upper lower)
        (
          (λ s. refl),
          (
            (λ s. refl),
            (
              score_line-Shows o_score ho,
              (
                (λ s. refl),
                (
                  row-Shows (row_down board 6) upper upper-numbers,
                  (
                    (λ s. refl),
                    (
                      row-Shows (row_up board 6 0) lower lower-numbers,
                      (
                        (λ s. refl),
                        (score_line-Shows s_score hs, ((λ s. refl), ((λ s. refl), tt))),
                      ),
                    ),
                  ),
                ),
              ),
            ),
          ),
        ))
