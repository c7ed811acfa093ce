-- ===== src/Encoder.antt =====
-- src/encoder.cpp: `EncodeTextRecord`, a second printer of records, with an `appendf` of its own.
-- The pieces that it prints, and its locals, are those of Formatter.
use low_latency_logger.Prelude.{
  ℕ, ◌+◌, ◌-◌, Bool, true, false, ◌&&◌, Option, none, some, [], ◌∷◌, take, leb, ltb, ◌==◌, ◌≡◌,
  refl, ap, if◌then◌else◌,
}
use low_latency_logger.Prelude.Text.{Text, ℤ}
use low_latency_logger.Config.{Config}
use low_latency_logger.Libc.{overwrite, terminate, snprintf}
use low_latency_logger.Record.{LogRecord}
use low_latency_logger.Formatter.{
  Cursor, stamp, thread, location, format_record, print_line, appendf, append_location, put_byte,
  put_message, advance, location_at,
}

module _ (capacity : ℕ) where
  -- `appendf`, after `snprintf`.
  encode_advance : Cursor → Option ℕ × Text → Bool × Cursor
  encode_advance o (none, buffer) = (false, record o { buffer = terminate o.pos buffer })
  encode_advance o (some written, buffer) =
      if leb (capacity - o.pos) written
      then (false, record { pos = capacity - 1; buffer = terminate (capacity - 1) buffer })
      else (true, record { pos = o.pos + written; buffer = buffer })

  encode_append : Text → Cursor → Bool × Cursor
  encode_append t o =
      if leb capacity o.pos
      then (false, o)
      else encode_advance o (snprintf o.buffer o.pos (capacity - o.pos) (some t))

  encode_location : Option Text → ℤ → Option Text → Cursor → Cursor
  encode_location (some file) line (some function) o =
      (encode_append (location file line function) o).1
  encode_location _ line _ o = o

  encode_byte : ℕ → Cursor → Cursor
  encode_byte c o =
      if ltb o.pos (capacity - 1)
      then record { pos = o.pos + 1; buffer = overwrite o.pos (c ∷ []) o.buffer }
      else o

  encode_message : LogRecord → Cursor → Cursor
  encode_message r o =
      let available = capacity - 1 - o.pos in
      let msg_len = if ltb available r.message_length then available else r.message_length in
      if ltb 0 r.message_length && ltb o.pos (capacity - 1)
      then record {
        pos = o.pos + msg_len;
        buffer = overwrite o.pos (take msg_len r.message) o.buffer;
      }
      else o

  encode_line : Config → (ℕ → ℕ) → LogRecord → Text → Cursor
  unfolding encode_append encode_advance encode_location encode_byte encode_message
  encode_line cfg tsc_to_nanoseconds r buffer =
      let o1 =
        (encode_append (stamp (tsc_to_nanoseconds r.timestamp) r)
          (record { pos = 0; buffer = buffer })).1 in
      let o2 = if cfg.enable_thread_id then (encode_append (thread r) o1).1 else o1 in
      let o3 =
        if cfg.enable_source_location then encode_location r.file r.line r.function o2 else o2 in
      encode_byte 10 (encode_message r (encode_byte b' ' o3))

-- `EncodeTextRecord`: the number of bytes written, and the buffer after the call.
unfoldable pub encode_text_record : Config → (ℕ → ℕ) → LogRecord → Option Text → ℕ → ℕ × Option Text
unfolding encode_line
encode_text_record cfg tsc_to_nanoseconds r none capacity = (0, none)
encode_text_record cfg tsc_to_nanoseconds r (some buffer) capacity =
    let o = encode_line capacity cfg tsc_to_nanoseconds r buffer in
    if capacity == 0 then (0, some buffer) else (o.pos, some (terminate o.pos o.buffer))

encode_advance_lem :
    (capacity : ℕ) (o : Cursor) (written : Option ℕ) (buffer : Text)
    → encode_advance capacity o (written, buffer) ≡ advance capacity o (written, buffer)
unfolding encode_advance advance
encode_advance_lem capacity o none buffer = refl
encode_advance_lem capacity o (some written) buffer = refl

encode_append_lem :
    (capacity : ℕ) (t : Text) (o : Cursor) → encode_append capacity t o ≡ appendf capacity t o
unfolding encode_append appendf
encode_append_lem capacity t o =
    let (written, buffer) = snprintf o.buffer o.pos (capacity - o.pos) (some t) in
    ap (λ p. if leb capacity o.pos then (false, o) else p)
      (encode_advance_lem capacity o written buffer)

encode_location_lem :
    (capacity : ℕ) (file : Option Text) (line : ℤ) (function : Option Text) (o : Cursor)
    → encode_location capacity file line function o ≡ location_at capacity file line function o
unfolding encode_location location_at
encode_location_lem capacity none line function o = refl
encode_location_lem capacity (some file) line none o = refl
encode_location_lem capacity (some file) line (some function) o =
    ap (λ p. p.1) (encode_append_lem capacity (location file line function) o)

encode_line_lem :
    (capacity : ℕ) (cfg : Config) (ns : ℕ → ℕ) (r : LogRecord) (buffer : Text)
    → encode_line capacity cfg ns r buffer ≡ print_line cfg ns r capacity buffer
unfolding encode_line print_line append_location encode_byte put_byte encode_message put_message
encode_line_lem capacity cfg ns r buffer = simp (encode_append_lem, encode_location_lem)

-- `EncodeTextRecord` and `TextFormatter::FormatRecord` write the same bytes and return the same
-- number, for every record, buffer and capacity, null pointers and a capacity of zero included.
pub encode_text_record_lem :
    (cfg : Config) (ns : ℕ → ℕ) (r : LogRecord) (buffer : Option Text) (capacity : ℕ)
    → encode_text_record cfg ns r buffer capacity ≡ format_record cfg ns r buffer capacity
unfolding encode_text_record format_record
encode_text_record_lem cfg ns r none capacity = refl
encode_text_record_lem cfg ns r (some buffer) capacity =
    rw (encode_line_lem capacity cfg ns r buffer)
