-- ===== src/Formatter/Format.antt =====
-- `FormatRecord` prints the line of the record, cut to the buffer.
use low_latency_logger.Prelude.{
  ℕ, ◌+◌, ◌-◌, ◌^◌, ◌≤◌, ◌<◌, min, Bool, true, false, Option, none, some, [], ◌∷◌, ◌≡◌, sym, ap,
  ◌∙◌, length, take, drop, get_elem?, ◌==◌, if◌then◌else◌, arith,
}
use low_latency_logger.Prelude.Text.{Text, ℤ}
use low_latency_logger.Config.{Config}
use low_latency_logger.Libc.{terminate}
use low_latency_logger.Libc.Laws.{
  length-overwrite, take-overwrite, drop-overwrite, get_elem?-overwrite,
}
use low_latency_logger.Record.{LogRecord}
use low_latency_logger.Formatter.{
  Cursor, stamp, thread, append_location, location_at, print_line, format_record,
}
use low_latency_logger.Formatter.Line.{full_line, place, location_text, length-stamp, length-thread}
use low_latency_logger.Formatter.Extends.{
  Extends, InBounds, Extends-InBounds, Extends-nil, Extends-append, put_byte-Extends,
  put_message-Extends, appendf-Extends,
}

-- The returned count is that of the bytes of `line` that fit before the last byte of the buffer;
-- they stand at its start, terminated, and nothing at or behind `capacity` is touched.
pub record IsPrinted (capacity : ℕ) (line buffer : Text) (result : ℕ × Option Text) : Type 0 where
  pub out : Text
  pub returns : result ≡ (min (capacity - 1) (length line), some out)
  pub content : take (min (capacity - 1) (length line)) out ≡ take (capacity - 1) line
  pub terminated : get_elem? out (min (capacity - 1) (length line)) ≡ some 0
  pub size : length out ≡ length buffer
  pub rest : drop capacity out ≡ drop capacity buffer

-- A step that is compiled in only under a switch.
switched-Extends :
    (b : Bool) {capacity : ℕ} {piece : Text} {o o' : Cursor}
    → Extends capacity piece o o'
    → Extends capacity (if b then piece else []) o (if b then o' else o)
switched-Extends true e = e
switched-Extends false {capacity} {o = o} e = Extends-nil capacity o

location_at-Extends :
    (capacity : ℕ) (file : Option Text) (line : ℤ) (function : Option Text) (o : Cursor)
    → InBounds capacity o
    → length (location_text file line function) < 2 ^ 31
    → Extends capacity
        (location_text file line function)
        o
        (location_at capacity file line function o)
unfolding location_at
location_at-Extends capacity none line function o b small = Extends-nil capacity o
location_at-Extends capacity (some file) line none o b small = Extends-nil capacity o
location_at-Extends capacity (some file) line (some function) o b small =
    appendf-Extends capacity o b _ small

-- The location counts only where it is compiled in.
located_Extends :
    (b : Bool) (capacity : ℕ) (file : Option Text) (line : ℤ) (function : Option Text) (o : Cursor)
    → InBounds capacity o
    → length (if b then location_text file line function else []) < 2 ^ 31
    → Extends capacity
        (if b then location_text file line function else [])
        o
        (if b then location_at capacity file line function o else o)
located_Extends true capacity file line function o b small =
    location_at-Extends capacity file line function o b small
located_Extends false capacity file line function o b small = Extends-nil capacity o

-- The last assignment terminates what was printed.
finish-IsPrinted :
    (capacity : ℕ) (line buffer : Text) {o : Cursor}
    → 0 < capacity
    → capacity ≤ length buffer
    → Extends capacity line (record { pos = 0; buffer = buffer }) o
    → IsPrinted capacity line buffer (o.pos, some (terminate o.pos o.buffer))
finish-IsPrinted capacity line buffer {o} pos holds e =
    let reached : o.pos ≡ min (capacity - 1) (length line) = omega (arith, e.moved) in
    let fits : o.pos + 1 ≤ length o.buffer = omega (arith, e.size) in
    let all : capacity - 1 - 0 ≡ capacity - 1 = omega arith in
    let here : o.pos + 0 ≡ o.pos = omega arith in
    record {
      out = terminate o.pos o.buffer;
      returns = ap (λ n. (n, some (terminate o.pos o.buffer))) reached;
      content =
          ap (λ n. take n (terminate o.pos o.buffer)) (sym reached)
          ∙ take-overwrite o.pos (0 ∷ []) o.buffer fits o.pos (omega arith)
          ∙ e.content
          ∙ ap (λ n. take n line) all;
      terminated =
          ap (get_elem? (terminate o.pos o.buffer)) (sym reached ∙ sym here)
          ∙ get_elem?-overwrite o.pos (0 ∷ []) o.buffer fits 0 (omega arith);
      size = length-overwrite o.pos (0 ∷ []) o.buffer fits ∙ e.size;
      rest = drop-overwrite o.pos (0 ∷ []) o.buffer fits capacity (omega arith) ∙ e.rest;
    }

module _ (cfg : Config) (ns : ℕ → ℕ) (r : LogRecord) (capacity : ℕ) (buffer : Text)
    (pos : 0 < capacity) (holds : capacity ≤ length buffer)
    (short : length (if cfg.enable_source_location then place r else []) < 2 ^ 31)
    (in_message : r.message_length ≤ length r.message) where
  abbrev begin : Cursor
  begin = record { pos = 0; buffer = buffer }

  print_line-Extends :
      Extends capacity (full_line cfg ns r) begin (print_line cfg ns r capacity buffer)
  unfolding print_line append_location
  print_line-Extends =
      let b0 : InBounds capacity begin = omega arith in
      let e1 =
        appendf-Extends capacity begin b0 (stamp (ns r.timestamp) r)
          (length-stamp (ns r.timestamp) r) in
      let b1 = Extends-InBounds e1 b0 in
      let e2 =
        switched-Extends cfg.enable_thread_id
          (appendf-Extends capacity _ b1 (thread r) (length-thread r)) in
      let b2 = Extends-InBounds e2 b1 in
      let e3 =
        located_Extends cfg.enable_source_location capacity r.file r.line r.function _ b2 short in
      let b3 = Extends-InBounds e3 b2 in
      let e4 = put_byte-Extends capacity _ b3 b' ' in
      let b4 = Extends-InBounds e4 b3 in
      let e5 = put_message-Extends capacity _ b4 r in_message in
      let b5 = Extends-InBounds e5 b4 in
      let e6 = put_byte-Extends capacity _ b5 10 in
      Extends-append e1
        (Extends-append e2 (Extends-append e3 (Extends-append e4 (Extends-append e5 e6))))

  -- With a positive capacity that the buffer has, a source location shorter than 2^31 bytes where
  -- it is compiled in, and a message length within the message buffer: what `FormatRecord` leaves
  -- in the buffer is exactly the line of the record, cut to `capacity-1` bytes and terminated; it
  -- touches nothing from `capacity` on, and returns the number of bytes before the terminator.
  pub format_record-IsPrinted :
      IsPrinted capacity (full_line cfg ns r) buffer (format_record cfg ns r (some buffer) capacity)
  unfolding format_record
  format_record-IsPrinted =
      let nonzero : (capacity == 0) ≡ false = ground arith in
      rw nonzero
        (finish-IsPrinted capacity (full_line cfg ns r) buffer pos holds print_line-Extends)
