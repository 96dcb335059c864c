-- ===== src/Client/Lines.antt =====
-- From the keyboard to `handle_user_input`: `fgets` and the search for the newline, in the loop of
-- client/src/app.c.
use awale_online.Prelude.{
  ℕ, suc, ◌+◌, ◌≤◌, ◌<◌, ◌≡◌, ◌≢◌, refl, ◌∙◌, some, [], ◌∷◌, ◌++◌, length, drop, arith, ◌>>=◌,
  append_assoc, length-append,
}
use awale_online.Wire.{Bytes, buf_size, store, IsString}
use awale_online.Wire.Laws.{store_front_lem, store_lem, c_string-terminated}
use awale_online.Client.State.{State}
use awale_online.Client.Input.{handle_user_input}
use awale_online.Client.Loop.{
  line_of, fgets, newline_at, end_at, end_line, types, after_line, on_line, app_step,
}

-- What stands in a line: no newline, and no NUL.
abbrev pub IsLine : Bytes → Type 0
IsLine [] = Unit {0}
IsLine (c ∷ line) = (c ≢ 0) × (c ≢ b'\n') × IsLine line

pub IsLine-IsString : (line : Bytes) → IsLine line → IsString line
IsLine-IsString [] h = tt
IsLine-IsString (c ∷ line) (h, h', rest) = (h, IsLine-IsString line rest)

IsLine-newline : (line : Bytes) → IsLine line → IsString (line ++ b'\n' ∷ [])
IsLine-newline [] h = (λ e. omega (arith, e), tt)
IsLine-newline (c ∷ line) (h, h', rest) = (h, IsLine-newline line rest)

line_of-newline :
    (k : ℕ) (line more : Bytes)
    → IsLine line
    → length line < k
    → line_of k (line ++ b'\n' ∷ more) ≡ line ++ b'\n' ∷ []
unfolding line_of
line_of-newline (suc k) [] more h fits = refl
line_of-newline (suc k) (c ∷ line) more (h, h', rest) fits =
    ground (arith, line_of-newline k line more rest (omega arith))
line_of-newline _ [] more h fits = absurd (omega arith)
line_of-newline _ (c ∷ line) more h fits = absurd (omega arith)

newline_at-newline :
    (line : Bytes) → IsLine line → newline_at (line ++ b'\n' ∷ []) ≡ some (length line)
unfolding newline_at
newline_at-newline [] h = refl
newline_at-newline (c ∷ line) (h, h', rest) = ground (arith, newline_at-newline line rest)

module _ (buffer line : Bytes) (room : length buffer ≡ buf_size) (h : IsLine line)
    (fits : length line + 3 ≤ buf_size) where
  abbrev behind : Bytes
  behind = drop (length line + 2) buffer

  -- What the round leaves in the buffer.
  abbrev pub typed : Bytes
  typed = line ++ 0 ∷ 0 ∷ behind

  fgets-newline :
      (more : Bytes)
      → fgets buffer (some (line ++ b'\n' ∷ more)) ≡ some ((line ++ b'\n' ∷ []) ++ 0 ∷ behind)
  unfolding fgets store
  fgets-newline more =
      let count : length ((line ++ b'\n' ∷ []) ++ 0 ∷ []) ≡ length line + 2 =
        omega
          (arith, length-append line (b'\n' ∷ []), length-append (line ++ b'\n' ∷ []) (0 ∷ [])) in
      rw (line_of-newline 1022 line more h (omega arith)) (
        store_front_lem buffer ((line ++ b'\n' ∷ []) ++ 0 ∷ []) (omega (arith, count))
        ∙ rw (count, append_assoc (line ++ b'\n' ∷ []) (0 ∷ []) behind) refl)

  end_line-newline : end_line ((line ++ b'\n' ∷ []) ++ 0 ∷ behind) ≡ some typed
  unfolding end_line end_at
  end_line-newline =
      rw
        (
          c_string-terminated (line ++ b'\n' ∷ []) behind (IsLine-newline line h),
          newline_at-newline line h,
          append_assoc line (b'\n' ∷ []) (0 ∷ behind),
        )
        (store_lem line (b'\n' ∷ 0 ∷ behind) (0 ∷ []) (length line) refl (omega arith))

-- A line that the user types is handled as it is: the round reads it up to its newline, whatever
-- follows, ends it by a NUL inside the buffer and gives it to `handle_user_input`. The line has no
-- newline and no NUL in it, and fits `fgets`.
pub app_step-typed :
    (inner buf : Bytes) (state : State) (buffer line more : Bytes)
    → length buffer ≡ buf_size
    → IsLine line
    → length line + 3 ≤ buf_size
    → app_step inner buf state buffer (types (some (line ++ b'\n' ∷ more))) ≡ (
        handle_user_input inner buf state line >>= λ result.
        some (after_line (line ++ 0 ∷ 0 ∷ drop (length line + 2) buffer) result))
unfolding app_step on_line
app_step-typed inner buf state buffer line more room h fits =
    rw
      (
        fgets-newline buffer line room h fits more,
        end_line-newline buffer line room h fits,
        c_string-terminated line (0 ∷ behind buffer line room h fits) (IsLine-IsString line h),
      )
      refl
