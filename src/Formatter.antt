-- ===== src/Formatter.antt =====
-- src/formatter.cpp: `TextFormatter::FormatRecord`, which prints a record as one line.
-- The buffer is `none` for a null pointer. `tsc_to_nanoseconds` is the conversion of src/clock.cpp,
-- see Clock.
pub mod Extends
pub mod Line
pub mod Format
pub mod Read
pub mod Unbroken
pub mod RoundTrip
use low_latency_logger.Prelude.{
  ℕ, ◌+◌, ◌-◌, Bool, true, false, ◌&&◌, Option, none, some, List, [], ◌∷◌, ◌++◌, length, take, leb,
  ltb, ◌==◌, if◌then◌else◌,
}
use low_latency_logger.Prelude.Text.{Text, ℤ, text, decimal, signed_decimal}
use low_latency_logger.Config.{Config}
use low_latency_logger.Level.{level_to_string}
use low_latency_logger.Libc.{overwrite, terminate, snprintf}
use low_latency_logger.Record.{LogRecord}

-- The locals of the function: the position reached, and the buffer.
pub record Cursor : Type 0 where
  pub pos : ℕ
  pub buffer : Text

-- What the lambda makes of the result of `vsnprintf` and the buffer after it.
unfoldable pub advance : ℕ → Cursor → Option ℕ × Text → Bool × Cursor
advance capacity o (none, buffer) = (false, record o { buffer = terminate o.pos buffer })
advance capacity o (some written, buffer) =
    if leb (capacity - o.pos) written
    then (false, record { pos = capacity - 1; buffer = terminate (capacity - 1) buffer })
    else (true, record { pos = o.pos + written; buffer = buffer })

-- The lambda `appendf`, for a format and arguments that render to `t`.
unfoldable pub appendf : ℕ → Text → Cursor → Bool × Cursor
unfolding advance
appendf capacity t o =
    if leb capacity o.pos
    then (false, o)
    else advance capacity o (snprintf o.buffer o.pos (capacity - o.pos) (some t))

-- The pieces that are printed, as `%llu`, `%d` and `%s` render them.
abbrev pub stamp : ℕ → LogRecord → Text
stamp timestamp_ns r =
    text "[" ++ (decimal timestamp_ns ++ (text "] [" ++ (level_to_string r.level ++ text "]")))

abbrev pub thread : LogRecord → Text
thread r = text " [tid=" ++ (decimal r.thread_id ++ text "]")

abbrev pub location : Text → ℤ → Text → Text
location file line function =
    text " " ++ (file ++ (text ":" ++ (signed_decimal line ++ (text " " ++ function))))

-- `if (record.file && record.function) appendf(…)`
unfoldable pub location_at : ℕ → Option Text → ℤ → Option Text → Cursor → Cursor
location_at capacity (some file) line (some function) o =
    (appendf capacity (location file line function) o).1
location_at capacity _ line _ o = o

unfoldable pub append_location : ℕ → LogRecord → Cursor → Cursor
unfolding location_at
append_location capacity r o = location_at capacity r.file r.line r.function o

-- `if (pos < capacity - 1) buffer[pos++] = c`
unfoldable pub put_byte : ℕ → ℕ → Cursor → Cursor
put_byte capacity c o =
    if ltb o.pos (capacity - 1)
    then record { pos = o.pos + 1; buffer = overwrite o.pos (c ∷ []) o.buffer }
    else o

-- The message payload, cut to the space that is left.
unfoldable pub put_message : ℕ → LogRecord → Cursor → Cursor
put_message capacity r o =
    let available = capacity - 1 - o.pos in
    let msg_len = if ltb available r.message_length then available else r.message_length in
    if ltb 0 r.message_length && ltb o.pos (capacity - 1)
    then record {
      pos = o.pos + msg_len;
      buffer = overwrite o.pos (take msg_len r.message) o.buffer;
    }
    else o

-- The body, from the first `appendf` to the newline.
unfoldable pub print_line : Config → (ℕ → ℕ) → LogRecord → ℕ → Text → Cursor
print_line cfg tsc_to_nanoseconds r capacity buffer =
    let o1 =
      (appendf capacity (stamp (tsc_to_nanoseconds r.timestamp) r)
        (record { pos = 0; buffer = buffer })).1 in
    let o2 = if cfg.enable_thread_id then (appendf capacity (thread r) o1).1 else o1 in
    let o3 = if cfg.enable_source_location then append_location capacity r o2 else o2 in
    let o4 = put_byte capacity b' ' o3 in
    let o5 = put_message capacity r o4 in put_byte capacity 10 o5

-- `FormatRecord`: the number of bytes written, and the buffer after the call.
unfoldable pub format_record : Config → (ℕ → ℕ) → LogRecord → Option Text → ℕ → ℕ × Option Text
unfolding print_line
format_record cfg tsc_to_nanoseconds r none capacity = (0, none)
format_record cfg tsc_to_nanoseconds r (some buffer) capacity =
    let o = print_line cfg tsc_to_nanoseconds r capacity buffer in
    if capacity == 0 then (0, some buffer) else (o.pos, some (terminate o.pos o.buffer))
