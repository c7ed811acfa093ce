-- ===== src/Formatter/Unbroken.antt =====
-- A line is found again in a log, as it has one newline, at its end.
use low_latency_logger.Prelude.{
  ℕ, zero, suc, ◌/◌, Bool, true, false, [], ◌∷◌, ◌++◌, ◌≡◌, ◌≢◌, refl, sym, ap, ◌∙◌, append_assoc,
  ltb, ◌==◌, if◌then◌else◌, All, All-append, arith, Bool-cases, inl, inr,
}
use low_latency_logger.Prelude.Text.{Text, text, decimal, digits_of}
use low_latency_logger.Config.{Config}
use low_latency_logger.Level.{Level, level_to_string}
use low_latency_logger.Record.{LogRecord}
use low_latency_logger.Record.Message.{message_text}
use low_latency_logger.Formatter.{stamp, thread}
use low_latency_logger.Formatter.Line.{full_line, place}
use low_latency_logger.Formatter.Read.{is_digit, lines_of}

abbrev pub IsDigit : ℕ → Type 0
IsDigit c = is_digit c ≡ true

pub digits_of-IsDigit : (fuel n : ℕ) → All IsDigit (digits_of fuel n)
unfolding digits_of
digits_of-IsDigit zero n = tt
digits_of-IsDigit (suc fuel) n = elim (Bool-cases (ltb n 10)) [
  | inl small ↦ rw small (ground arith)
  | inr large ↦ rw large (
      All-append IsDigit (digits_of fuel (n / 10)) _ (digits_of-IsDigit fuel (n / 10))
        (ground arith))
]

-- A text with no newline in it.
abbrev pub IsUnbroken : Text → Type 0
IsUnbroken t = All (λ c. c ≢ 10) t

lines_of-line :
    (body rest : Text)
    → IsUnbroken body
    → lines_of (body ++ 10 ∷ rest) ≡ (body ++ 10 ∷ []) ∷ lines_of rest
unfolding lines_of
lines_of-line [] rest ok = refl
lines_of-line (c ∷ body) rest (other, ok) =
    let different : (c == 10) ≡ false = ground arith in
    rw (different, lines_of-line body rest ok) refl

digits-IsUnbroken : (ds : Text) → All IsDigit ds → IsUnbroken ds
digits-IsUnbroken [] all = tt
digits-IsUnbroken (d ∷ ds) (digit, all) = ((λ e. ground arith), digits-IsUnbroken ds all)

decimal-IsUnbroken : (n : ℕ) → IsUnbroken (decimal n)
unfolding decimal
decimal-IsUnbroken n = digits-IsUnbroken (decimal n) (digits_of-IsDigit 20 n)

level-IsUnbroken : (l : Level) → IsUnbroken (level_to_string l)
unfolding level_to_string
level-IsUnbroken l = ground arith

append-IsUnbroken : (xs ys : Text) → IsUnbroken xs → IsUnbroken ys → IsUnbroken (xs ++ ys)
append-IsUnbroken xs ys hx hy = All-append (λ c. c ≢ 10) xs ys hx hy

if-IsUnbroken : (b : Bool) (t : Text) → IsUnbroken t → IsUnbroken (if b then t else [])
if-IsUnbroken true t ok = ok
if-IsUnbroken false t ok = tt

stamp-IsUnbroken : (ns : ℕ) (r : LogRecord) → IsUnbroken (stamp ns r)
stamp-IsUnbroken ns r = append-IsUnbroken (text "[") _ (ground arith) (
    append-IsUnbroken (decimal ns) _ (decimal-IsUnbroken ns) (
      append-IsUnbroken (text "] [") _ (ground arith)
        (append-IsUnbroken (level_to_string r.level) _ (level-IsUnbroken r.level) (ground arith))))

thread-IsUnbroken : (r : LogRecord) → IsUnbroken (thread r)
thread-IsUnbroken r =
    append-IsUnbroken (text " [tid=") _ (ground arith)
      (append-IsUnbroken (decimal r.thread_id) _ (decimal-IsUnbroken r.thread_id) (ground arith))

module _ (cfg : Config) (ns : ℕ → ℕ) where
  -- The line without its newline.
  abbrev body : LogRecord → Text
  body r =
      stamp (ns r.timestamp) r
      ++ ((if cfg.enable_thread_id then thread r else [])
          ++ ((if cfg.enable_source_location then place r else [])
              ++ (b' ' ∷ [] ++ message_text r)))

  body-newline : (r : LogRecord) → body r ++ 10 ∷ [] ≡ full_line cfg ns r
  body-newline r = simp append_assoc refl

  body-IsUnbroken :
      (r : LogRecord)
      → IsUnbroken (if cfg.enable_source_location then place r else [])
      → IsUnbroken (message_text r)
      → IsUnbroken (body r)
  body-IsUnbroken r one_place one_message =
      append-IsUnbroken (stamp (ns r.timestamp) r) _ (stamp-IsUnbroken (ns r.timestamp) r) (
        append-IsUnbroken (if cfg.enable_thread_id then thread r else []) _
          (if-IsUnbroken cfg.enable_thread_id (thread r) (thread-IsUnbroken r))
          (append-IsUnbroken (if cfg.enable_source_location then place r else []) _ one_place
            (append-IsUnbroken (b' ' ∷ []) (message_text r) (ground arith) one_message)))

  pub lines_of-full_line :
      (r : LogRecord) (rest : Text)
      → IsUnbroken (if cfg.enable_source_location then place r else [])
      → IsUnbroken (message_text r)
      → lines_of (full_line cfg ns r ++ rest) ≡ full_line cfg ns r ∷ lines_of rest
  lines_of-full_line r rest one_place one_message =
      ap (λ t. lines_of (t ++ rest)) (sym (body-newline r))
      ∙ ap lines_of (append_assoc (body r) (10 ∷ []) rest)
      ∙ lines_of-line (body r) rest (body-IsUnbroken r one_place one_message)
      ∙ ap (λ t. t ∷ lines_of rest) (body-newline r)
