-- ===== src/Client/Board.antt =====
-- `action_show_board` (client/src/actions.c): the board as text. The lines of a box are characters of
-- three bytes each.
pub mod Width
pub mod Lines
pub mod Aligned
pub mod Numbers
pub mod Picture
use awale_online.Prelude.{
  ℕ, zero, suc, ◌+◌, ◌-◌, ◌*◌, ◌%◌, ◌^◌, Option, none, some, List, [], ◌∷◌, ◌++◌, length, take,
  get_elem?, replicate, ◌>>=◌,
}
use awale_online.Wire.{codes, Bytes}
use awale_online.Text.{decimal}

-- U+2500, and the other characters of its block
abbrev pub horizontal : Bytes
horizontal = b'\xE2' ∷ b'\x94' ∷ b'\x80' ∷ []

abbrev pub vertical : Bytes
vertical = b'\xE2' ∷ b'\x94' ∷ b'\x82' ∷ []

abbrev pub col_size : ℕ
col_size = 3

abbrev pub col_nb : ℕ
col_nb = 6

abbrev pub total : ℕ
total = col_nb * (col_size + 1) + 1

-- `a - b` in `size_t`
abbrev pub size_sub : ℕ → ℕ → ℕ
size_sub a b = (a + 2 ^ 64 - b) % 2 ^ 64

-- A loop that prints the same text `n` times.
unfoldable pub repeated : ℕ → Bytes → Bytes
repeated zero text = []
repeated (suc n) text = text ++ repeated n text

-- `snprintf(buf, 4, "%d", n)`
abbrev pub small_number : ℕ → Bytes
small_number n = take 3 (decimal n)

-- The first and the last line.
unfoldable pub edge_line : Bytes → Bytes → Bytes
unfolding repeated
edge_line left right = left ++ (repeated (total - 2) horizontal ++ (right ++ codes "\n"))

-- A separator: `k` columns that end in `middle`, and a last one.
unfoldable pub separator_columns : ℕ → Bytes → Bytes
unfolding repeated
separator_columns zero middle = repeated col_size horizontal
separator_columns (suc k) middle =
    repeated col_size horizontal ++ (middle ++ separator_columns k middle)

unfoldable pub separator_line : Bytes → Bytes → Bytes → Bytes
unfolding separator_columns
separator_line left middle right =
    left ++ (separator_columns (col_nb - 1) middle ++ (right ++ codes "\n"))

unfoldable pub score_line : ℕ → Bytes
unfolding repeated
score_line points =
    let score = codes "Score: " in
    let buf = small_number points in
    vertical
    ++ ((score ++ buf)
        ++ (repeated (size_sub (size_sub (total - 2) (length score)) (length buf)) (codes " ")
            ++ (vertical ++ codes "\n")))

-- One house: spaces, the number, and the end of the column.
unfoldable pub cell : ℕ → Bytes
unfolding repeated
cell seeds =
    let buf = small_number seeds in
    repeated (size_sub (col_size - 1) (length buf)) (codes " ") ++ (buf ++ (codes " " ++ vertical))

-- The loop from house `col_nb + i - 1` down, with `i` rounds left.
unfoldable pub cells_down : Bytes → ℕ → Option Bytes
unfolding cell
cells_down board zero = some []
cells_down board (suc i) = do
  seeds ← get_elem? board (i + col_nb)
  others ← cells_down board i
  some (cell seeds ++ others)

-- The loop from house `i` up, with `k` rounds left.
unfoldable pub cells_up : Bytes → ℕ → ℕ → Option Bytes
unfolding cell
cells_up board zero i = some []
cells_up board (suc k) i = do
  seeds ← get_elem? board i
  others ← cells_up board k (i + 1)
  some (cell seeds ++ others)

-- What is printed in turn.
unfoldable pub concat : List Bytes → Bytes
concat [] = []
concat (text ∷ texts) = text ++ concat texts

-- The text from the first line to the last, by the two rows of houses.
unfoldable pub board_lines : ℕ → ℕ → Bytes → Bytes → List Bytes
unfolding edge_line separator_line score_line
board_lines s_score o_score upper lower =
    codes "\n"
    ∷ edge_line (b'\xE2' ∷ b'\x95' ∷ b'\xAD' ∷ []) (b'\xE2' ∷ b'\x95' ∷ b'\xAE' ∷ [])
    ∷ score_line o_score
    ∷ separator_line (b'\xE2' ∷ b'\x94' ∷ b'\x9C' ∷ []) (b'\xE2' ∷ b'\x94' ∷ b'\xAC' ∷ [])
        (b'\xE2' ∷ b'\x94' ∷ b'\xA4' ∷ [])
    ∷ (vertical ++ (upper ++ codes "\n"))
    ∷ separator_line (b'\xE2' ∷ b'\x94' ∷ b'\x9C' ∷ []) (b'\xE2' ∷ b'\x94' ∷ b'\xBC' ∷ [])
        (b'\xE2' ∷ b'\x94' ∷ b'\xA4' ∷ [])
    ∷ (vertical ++ (lower ++ codes "\n"))
    ∷ separator_line (b'\xE2' ∷ b'\x94' ∷ b'\x9C' ∷ []) (b'\xE2' ∷ b'\x94' ∷ b'\xB4' ∷ [])
        (b'\xE2' ∷ b'\x94' ∷ b'\xA4' ∷ [])
    ∷ score_line s_score
    ∷ edge_line (b'\xE2' ∷ b'\x95' ∷ b'\xB0' ∷ []) (b'\xE2' ∷ b'\x95' ∷ b'\xAF' ∷ [])
    ∷ codes "\n"
    ∷ []

-- `board` is the memory from the first house on.
unfoldable pub action_show_board : ℕ → ℕ → Bytes → Option Bytes
unfolding concat board_lines cells_down cells_up
action_show_board s_score o_score board = do
  upper ← cells_down board col_nb
  lower ← cells_up board col_nb 0
  some (concat (board_lines s_score o_score upper lower))
