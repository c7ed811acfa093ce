-- ===== src/Formatter/RoundTrip.antt =====
-- What was printed by the formatter can be read back.
use low_latency_logger.Prelude.{
  ℕ, ◌+◌, ◌-◌, ◌*◌, ◌≤◌, ◌<◌, ◌^◌, true, false, none, some, List, [], ◌∷◌, ◌++◌, ◌≡◌, refl, ap, ◌∙◌,
  append_assoc, map, take, length, if◌then◌else◌, All, arith, min, take_all, Bool-cases, inl, inr,
}
use low_latency_logger.Prelude.Text.{Text, decimal, value_from, value-decimal, joined}
use low_latency_logger.Config.{Config}
use low_latency_logger.Level.{Level, level_to_string}
use low_latency_logger.Record.{LogRecord}
use low_latency_logger.Record.Message.{message_text}
use low_latency_logger.Formatter.{format_record}
use low_latency_logger.Formatter.Format.{format_record-IsPrinted}
use low_latency_logger.Formatter.Line.{full_line, place}
use low_latency_logger.Formatter.Read.{number_from, word, is_digit, Heading, read_line, read_log}
use low_latency_logger.Formatter.Unbroken.{
  IsDigit, digits_of-IsDigit, IsUnbroken, lines_of-full_line,
}

number_from-digits :
    (acc : ℕ) (ds : Text) (c : ℕ) (rest : Text)
    → All IsDigit ds
    → is_digit c ≡ false
    → number_from acc (ds ++ c ∷ rest) ≡ (value_from acc ds, c ∷ rest)
unfolding value_from
number_from-digits acc [] c rest all stop = rw stop refl
number_from-digits acc (d ∷ ds) c rest (digit, all) stop =
    rw digit (number_from-digits (acc * 10 + (d - b'0')) ds c rest all stop)

number_from-decimal :
    (n c : ℕ) (rest : Text)
    → n < 2 ^ 64
    → is_digit c ≡ false
    → number_from 0 (decimal n ++ c ∷ rest) ≡ (n, c ∷ rest)
unfolding decimal
number_from-decimal n c rest small stop =
    number_from-digits 0 (decimal n) c rest (digits_of-IsDigit 20 n) stop
    ∙ ap (λ k. (k, c ∷ rest)) (value-decimal n small)

word-level :
    (l : Level) (rest : Text)
    → word (level_to_string l ++ b']' ∷ rest) ≡ (level_to_string l, b']' ∷ rest)
unfolding level_to_string
word-level l rest = ground arith

-- What a record's line says.
abbrev pub heading : Config → (ℕ → ℕ) → LogRecord → Heading
heading cfg ns r = record {
  time = ns r.timestamp;
  level = level_to_string r.level;
  thread = if cfg.enable_thread_id then some r.thread_id else none;
  rest =
      (if cfg.enable_source_location then place r else [])
      ++ (b' ' ∷ [] ++ (message_text r ++ 10 ∷ []));
}

module _ (cfg : Config) (ns : ℕ → ℕ) (r : LogRecord) (time_fits : ns r.timestamp < 2 ^ 64)
    (thread_fits : cfg.enable_thread_id ≡ true → r.thread_id < 2 ^ 64) where
  stamped :
      (rest : Text)
      → number_from 0 (decimal (ns r.timestamp) ++ b']' ∷ rest) ≡ (ns r.timestamp, b']' ∷ rest)
  stamped rest = number_from-decimal (ns r.timestamp) b']' rest time_fits refl

  threaded :
      cfg.enable_thread_id ≡ true
      → (rest : Text)
      → number_from 0 (decimal r.thread_id ++ b']' ∷ rest) ≡ (r.thread_id, b']' ∷ rest)
  threaded on rest = number_from-decimal r.thread_id b']' rest (thread_fits on) refl

  pub read_line-full_line :
      read_line cfg.enable_thread_id (full_line cfg ns r) ≡ some (heading cfg ns r)
  unfolding read_line
  read_line-full_line = elim (Bool-cases cfg.enable_thread_id) [
    | inl on ↦ simp (on, append_assoc, stamped, threaded on, word-level) refl
    | inr off ↦ simp (off, append_assoc, stamped, word-level) refl
  ]

-- A record that can be read back from a log: its line fits the buffer, and neither its location
-- nor its message breaks the line.
pub record IsReadable (cfg : Config) (ns : ℕ → ℕ) (room : ℕ) (r : LogRecord) : Type 0 where
  pub time_fits : ns r.timestamp < 2 ^ 64
  pub thread_fits : cfg.enable_thread_id ≡ true → r.thread_id < 2 ^ 64
  pub fits : length (full_line cfg ns r) ≤ room
  pub one_place : IsUnbroken (if cfg.enable_source_location then place r else [])
  pub one_message : IsUnbroken (message_text r)

module _ (cfg : Config) (ns : ℕ → ℕ) where
  -- A log of lines that fit, read back.
  pub read_log-joined :
      (room : ℕ) (rs : List LogRecord)
      → All (IsReadable cfg ns room) rs
      → read_log cfg.enable_thread_id (joined (map (λ r. take room (full_line cfg ns r)) rs))
        ≡ map (λ r. some (heading cfg ns r)) rs
  unfolding read_log
  read_log-joined room [] ok = refl
  read_log-joined room (r ∷ rs) (ok, later) =
      rw
        (
          take_all room (full_line cfg ns r) ok.fits,
          lines_of-full_line cfg ns r (joined (map (λ r. take room (full_line cfg ns r)) rs))
              ok.one_place ok.one_message,
          read_line-full_line cfg ns r ok.time_fits ok.thread_fits,
          read_log-joined room rs later,
        )
        refl

  -- With a positive capacity that the buffer has, a source location shorter than 2^31 bytes where
  -- it is compiled in, a message length within the message buffer, a time stamp and, where it is
  -- compiled in, a thread id of 64 bits, and a line that fits the buffer with its terminator: a
  -- reader of the bytes that `FormatRecord` counts gets back the time stamp in nanoseconds, the
  -- name of the level, the thread id where it is compiled in, and behind them the location, a
  -- space, the whole message and the newline.
  pub format_record-read_line :
      (r : LogRecord) (capacity : ℕ) (buffer : Text)
      → capacity ≤ length buffer
      → length (if cfg.enable_source_location then place r else []) < 2 ^ 31
      → r.message_length ≤ length r.message
      → ns r.timestamp < 2 ^ 64
      → (cfg.enable_thread_id ≡ true → r.thread_id < 2 ^ 64)
      → length (full_line cfg ns r) < capacity
      → (n : ℕ) × (out : Text) × (format_record cfg ns r (some buffer) capacity ≡ (n, some out))
        × (read_line cfg.enable_thread_id (take n out) ≡ some (heading cfg ns r))
  format_record-read_line r capacity buffer holds short in_message time thread_ok fits =
      let p =
        format_record-IsPrinted cfg ns r capacity buffer (omega (arith, fits)) holds short
          in_message in
      (
        min (capacity - 1) (length (full_line cfg ns r)),
        p.out,
        p.returns,
        ap (read_line cfg.enable_thread_id)
              (p.content ∙ take_all (capacity - 1) (full_line cfg ns r) (omega (arith, fits)))
            ∙ read_line-full_line cfg ns r time thread_ok,
      )
