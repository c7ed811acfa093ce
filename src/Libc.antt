-- ===== src/Libc.antt =====
-- What the sources use of the C library on byte buffers. A buffer is the list of its bytes, and a
-- C string the bytes before its terminator, so `strlen` is `length`.
pub mod Laws
use low_latency_logger.Prelude.{
  ℕ, ◌+◌, ◌-◌, ◌^◌, Option, none, some, List, [], ◌∷◌, ◌++◌, length, take, drop, leb, ◌==◌,
  if◌then◌else◌,
}
use low_latency_logger.Prelude.Text.{Text}

-- `memcpy(buffer + pos, bytes, length bytes)`. Bytes past the end make the list longer, so that a
-- buffer keeps its length only if the copy fits.
unfoldable pub overwrite : ℕ → Text → Text → Text
overwrite pos bytes buffer = take pos buffer ++ (bytes ++ drop (pos + length bytes) buffer)

-- `buffer[pos] = '\0'`
abbrev pub terminate : ℕ → Text → Text
terminate pos buffer = overwrite pos (0 ∷ []) buffer

-- `snprintf(buffer + pos, size, …)` for a format and arguments that render to a text, or to `none`
-- on an encoding error. The result is the length of the whole text, or `none` for a negative one,
-- as also when the length is no `int`; the buffer gets at most `size - 1` bytes and a terminator.
unfoldable pub snprintf : Text → ℕ → ℕ → Option Text → Option ℕ × Text
snprintf buffer pos size none = (none, buffer)
snprintf buffer pos size (some t) = if leb (2 ^ 31) (length t) then (none, buffer) else (
  some (length t),
  (if size == 0 then buffer else overwrite pos (take (size - 1) t ++ 0 ∷ []) buffer),
)
