-- ===== src/System/Entries.antt =====
-- A call of the producer is one push of a printable record, whose line says what was logged.
use low_latency_logger.Prelude.{
  ℕ, ◌^◌, ◌<◌, Bool, true, false, some, [], ◌∷◌, ◌++◌, ◌≡◌, refl, ap, length, if◌then◌else◌,
  if-elim, arith,
}
use low_latency_logger.Prelude.Text.{Text, text, decimal}
use low_latency_logger.Config.{Config}
use low_latency_logger.Level.{Level, level_to_string}
use low_latency_logger.Record.Message.{IsSized, truncated, stored, rendered_text}
use low_latency_logger.Formatter.Line.{location_text, full_line}
use low_latency_logger.Logger.{Logger, Surroundings}
use low_latency_logger.Logger.Entry.{
  IsEntry, prepare_record-Prepared, filled-IsEntry, place_if_known-IsEntry, IsEntry-from,
}
use low_latency_logger.Logger.Formatted.{formatted-IsEntry, placed-Prepared}
use low_latency_logger.Pipeline.Delivery.{IsPrintable}
use low_latency_logger.System.{LogCall, logs, formats, record_of}

-- What a call was given.
abbrev pub env_of : LogCall → Surroundings
env_of (logs env level message file line function) = env
env_of (formats env level file line function fmt) = env

abbrev pub level_of : LogCall → Level
level_of (logs env level message file line function) = level
level_of (formats env level file line function fmt) = level

abbrev pub location_of : LogCall → Text
location_of (logs env level message file line function) = location_text file line function
location_of (formats env level file line function fmt) = location_text file line function

abbrev pub text_of : Config → LogCall → Text
text_of cfg (logs env level message file line function) = truncated cfg message
text_of cfg (formats env level file line function fmt) = stored cfg (rendered_text fmt)

-- The line that a call stands for: `[time] [LEVEL] [tid=n] file:line function message`.
abbrev pub call_line : Config → (ℕ → ℕ) → LogCall → Text
call_line cfg ns call =
    (text "["
      ++ (decimal (ns (env_of call).tsc)
          ++ (text "] [" ++ (level_to_string (level_of call) ++ text "]"))))
    ++ ((if cfg.enable_thread_id
          then text " [tid=" ++ (decimal (env_of call).thread_hash ++ text "]")
          else [])
        ++ ((if cfg.enable_source_location then location_of call else [])
            ++ (b' ' ∷ [] ++ (text_of cfg call ++ 10 ∷ []))))

-- The record on the caller's stack has its message buffer, and the location is no longer than an
-- `int` counts.
pub record IsCallable (cfg : Config) (call : LogCall) : Type 0 where
  pub sized : IsSized cfg (env_of call).uninitialised
  pub short : length (location_of call) < 2 ^ 31

-- A piece that is printed only if it is compiled in.
pub only_if :
    {A : Type 0} (b : Bool) (z : A) {x y : A}
    → (b ≡ true → x ≡ y)
    → (if b then x else z) ≡ (if b then y else z)
only_if true z same = same refl
only_if false z same = refl

module _ (c : ℕ) (cfg : Config) where
  module _ (positive : 0 < cfg.max_message_size) where
    pub record_of-IsEntry :
        (call : LogCall)
        → IsCallable cfg call
        → IsEntry cfg
            (env_of call)
            (level_of call)
            (text_of cfg call)
            (location_of call)
            (record_of c cfg call)
    unfolding record_of
    record_of-IsEntry (logs env level message file line function) ok =
        let filled =
          filled-IsEntry c cfg env positive level [] (some message) _
            (prepare_record-Prepared c cfg env level ok.sized) in
        if-elim (IsEntry cfg env level (truncated cfg message) (location_text file line function))
          cfg.enable_source_location _ _
          (λ on. place_if_known-IsEntry c cfg env level _ file line function _ filled)
          (λ off. IsEntry-from c cfg env (λ on. cc) filled)
    record_of-IsEntry (formats env level file line function fmt) ok =
        formatted-IsEntry cfg env positive level (location_text file line function) fmt _ (
          placed-Prepared cfg env level file line function _
            (prepare_record-Prepared c cfg env level ok.sized))

    pub record_of-IsPrintable :
        (call : LogCall) → IsCallable cfg call → IsPrintable cfg (record_of c cfg call)
    record_of-IsPrintable call ok =
        let e = record_of-IsEntry call ok in
        record {
          in_message = omega (arith, e.sized, e.fits);
          short = rw (only_if cfg.enable_source_location [] e.located) (
              if-elim (λ t. length t < 2 ^ 31) cfg.enable_source_location _ _ (λ on. ok.short)
                (λ off. omega arith));
        }

    pub record_of-line :
        (ns : ℕ → ℕ) (call : LogCall)
        → IsCallable cfg call
        → full_line cfg ns (record_of c cfg call) ≡ call_line cfg ns call
    record_of-line ns call ok =
        let e = record_of-IsEntry call ok in
        rw
          (
            e.has_level,
            e.stamped,
            e.content,
            only_if cfg.enable_source_location [] e.located,
            only_if cfg.enable_thread_id []
                (λ on. ap (λ n. text " [tid=" ++ (decimal n ++ text "]")) (e.threaded on)),
          )
          refl
