-- ===== src/Client/Loop.antt =====
-- The loop of `app` in client/src/app.c, one round a step, with `read_server` of client/src/client.c:
-- what `fgets` finds and what `recv` gives are the environment's.
use awale_online.Prelude.{
  ℕ, zero, suc, ◌-◌, Option, none, some, List, [], ◌∷◌, ◌++◌, length, take, ◌==◌, ◌||◌,
  if◌then◌else◌, ◌>>=◌,
}
use awale_online.Wire.{Bytes, buf_size, store, load16, c_string}
use awale_online.Client.State.{State, Output, print_line}
use awale_online.Client.Input.{Result, goes, exits, handle_user_input}
use awale_online.Client.Handlers.{client_handlers, ignore}
use awale_online.Client.Reader.{server_client_protocol_read}

-- What `fgets` takes of a stream: `k` bytes at most, up to a newline.
unfoldable pub line_of : ℕ → Bytes → Bytes
line_of zero stream = []
line_of (suc k) [] = []
line_of (suc k) (c ∷ stream) = if c == b'\n' then c ∷ [] else c ∷ line_of k stream

-- `fgets(buffer, BUF_SIZE - 1, stdin)`; at the end of the stream, `none`, the buffer stays.
unfoldable pub fgets : Bytes → Option Bytes → Option Bytes
unfolding line_of
fgets buffer none = some buffer
fgets buffer (some stream) = store buffer 0 (line_of (buf_size - 2) stream ++ 0 ∷ [])

-- `strstr(text, "\n")`, as an index
unfoldable pub newline_at : Bytes → Option ℕ
newline_at [] = none
newline_at (c ∷ text) =
    if c == b'\n' then some 0 else elim (newline_at text) [ none ↦ none | some i ↦ some (suc i) ]

-- The NUL at the newline, or at the end of the buffer.
unfoldable pub end_at : Bytes → Option ℕ → Option Bytes
end_at buffer (some i) = store buffer i (0 ∷ [])
end_at buffer none = store buffer (buf_size - 1) (0 ∷ [])

unfoldable pub end_line : Bytes → Option Bytes
unfolding newline_at end_at
end_line buffer = do text ← c_string buffer; end_at buffer (newline_at text)

-- `read_server`, where `recv` does not fail: the number of bytes, and a NUL behind them.
unfoldable pub read_server : Bytes → ℕ → Bytes → Option (ℕ × Bytes)
read_server buffer size bytes = do
  filled ← store buffer 0 (take size bytes)
  ended ← store filled (length (take size bytes)) (0 ∷ [])
  some (length (take size bytes), ended)

pub data Event : Type 0 where
  -- the user's terminal has something, or is at its end
  types : Option Bytes → Event
  -- the server has sent something: what the two calls of `recv` give, `none` for an error
  receives : Option Bytes → Option Bytes → Event

-- The loop goes on, or the process ends.
pub data Next : Type 0 where
  runs : State → Bytes → List Output → Next
  stops : List Output → Next

-- After the line is handled.
abbrev pub after_line : Bytes → Result → Next
after_line buffer (goes state outputs) = runs state buffer outputs
after_line buffer (exits outputs) = stops outputs

unfoldable pub on_line : Bytes → Bytes → State → Bytes → Option Bytes → Option Next
unfolding fgets end_line
on_line inner buf state buffer stream = do
  got ← fgets buffer stream
  ended ← end_line got
  input ← c_string ended
  result ← handle_user_input inner buf state input
  some (after_line ended result)

unfoldable pub on_message : Bytes → State → Bytes → Bytes → Bytes → Option Next
unfolding read_server
on_message inner state buffer header body = do
  (n, sized) ← read_server buffer 2 header
  to_read ← load16 sized
  (m, filled) ← read_server sized to_read body
  if n == 0 || m == 0 then some (stops (print_line "Server disconnected !\n")) else do
    handler ← server_client_protocol_read filled (client_handlers inner) ignore
    (state', outputs) ← handler state
    some (runs state' filled outputs)

-- One round; `inner` and `buf` are local buffers, which are not initialised. A `recv` that fails ends
-- the process.
unfoldable pub app_step : Bytes → Bytes → State → Bytes → Event → Option Next
unfolding on_line on_message
app_step inner buf state buffer (types stream) = on_line inner buf state buffer stream
app_step inner buf state buffer (receives none body) = some (stops [])
app_step inner buf state buffer (receives (some header) none) = do
  (n, sized) ← read_server buffer 2 header
  some (stops [])
app_step inner buf state buffer (receives (some header) (some body)) =
    on_message inner state buffer header body
