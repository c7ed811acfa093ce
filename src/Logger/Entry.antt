-- ===== src/Logger/Entry.antt =====
-- The record that a call of `Log` makes of a message.
use low_latency_logger.Prelude.{
  ℕ, ◌<◌, true, Option, none, some, [], ◌≡◌, refl, ◌∙◌, length, if◌then◌else◌, arith, if-elim,
}
use low_latency_logger.Prelude.Text.{Text, ℤ, pos}
use low_latency_logger.Config.{Config}
use low_latency_logger.Level.{Level}
use low_latency_logger.Record.{LogRecord, set_message, set_source_location}
use low_latency_logger.Record.Message.{IsSized, stored, message_text, set_message-HoldsMessage}
use low_latency_logger.Formatter.Line.{place, location_text}
use low_latency_logger.Logger.{Surroundings, prepare_record, place_if_known}

-- The record that stands for a message: what the caller gave, and what was read at the call.
pub record IsEntry (cfg : Config) (env : Surroundings) (level : Level) (t : Text)
    (where_from : Text) (r : LogRecord) : Type 0 where
  pub has_level : r.level ≡ level
  pub stamped : r.timestamp ≡ env.tsc
  pub threaded : cfg.enable_thread_id ≡ true → r.thread_id ≡ env.thread_hash
  pub located : cfg.enable_source_location ≡ true → place r ≡ where_from
  pub sized : IsSized cfg r
  pub content : message_text r ≡ t
  pub counted : r.message_length ≡ length t
  pub fits : r.message_length < cfg.max_message_size

set_message-keeps :
    (cfg : Config) (msg : Option Text) (r : LogRecord)
    → let r' = (set_message cfg msg r).1 in
      (r'.level ≡ r.level)
      × (r'.timestamp ≡ r.timestamp)
      × (r'.thread_id ≡ r.thread_id)
      × (place r' ≡ place r)
unfolding set_message
set_message-keeps cfg none r = (refl, refl, refl, refl)
set_message-keeps cfg (some msg) r = (refl, refl, refl, refl)

-- What `PrepareRecord` has filled in; the message is still to come.
pub record Prepared (cfg : Config) (env : Surroundings) (level : Level) (where_from : Text)
    (r : LogRecord) : Type 0 where
  pub has_level : r.level ≡ level
  pub stamped : r.timestamp ≡ env.tsc
  pub threaded : cfg.enable_thread_id ≡ true → r.thread_id ≡ env.thread_hash
  pub located : cfg.enable_source_location ≡ true → place r ≡ where_from
  pub sized : IsSized cfg r

module _ (c : ℕ) (cfg : Config) (env : Surroundings) where
  pub prepare_record-Prepared :
      (level : Level)
      → IsSized cfg env.uninitialised
      → Prepared cfg env level [] (prepare_record c cfg env env.uninitialised level).1
  unfolding prepare_record
  prepare_record-Prepared level garbage =
      if-elim (Prepared cfg env level []) cfg.enable_thread_id _ _
        (λ on. record {
          has_level = placed.0;
          stamped = placed.1;
          threaded = λ e. refl;
          located = placed.2;
          sized = placed.3;
        })
        (λ off. record {
          has_level = placed.0;
          stamped = placed.1;
          threaded = λ on. cc;
          located = placed.2;
          sized = placed.3;
        })
    where
      stamped : LogRecord
      stamped = record env.uninitialised { level = level; timestamp = env.tsc }

      Placed : LogRecord → Type 0
      Placed r =
          (r.level ≡ level)
          × (r.timestamp ≡ env.tsc)
          × (cfg.enable_source_location ≡ true → place r ≡ [])
          × IsSized cfg r

      placed : Placed (
          if cfg.enable_source_location
          then record stamped { file = none; function = none; line = pos 0 }
          else stamped)
      placed =
          if-elim Placed cfg.enable_source_location _ _ (λ on. (refl, refl, (λ e. refl), garbage))
            (λ off. (refl, refl, (λ on. cc), garbage))

  -- Filling in the message makes an entry of a prepared record.
  pub filled-IsEntry :
      (positive : 0 < cfg.max_message_size) (level : Level) (from : Text) (msg : Option Text)
      (r : LogRecord)
      → Prepared cfg env level from r
      → IsEntry cfg env level (stored cfg msg) from (set_message cfg msg r).1
  filled-IsEntry positive level from msg r p =
      let m = set_message-HoldsMessage cfg positive r p.sized msg in
      let (same_level, same_stamp, same_thread, same_place) = set_message-keeps cfg msg r in
      record {
        has_level = same_level ∙ p.has_level;
        stamped = same_stamp ∙ p.stamped;
        threaded = λ on. same_thread ∙ p.threaded on;
        located = λ on. same_place ∙ p.located on;
        sized = m.sized;
        content = m.content;
        counted = m.returned ∙ m.counted;
        fits = omega (arith, m.returned, m.inside);
      }

  pub place_if_known-IsEntry :
      (level : Level) (t : Text) (file : Option Text) (line : ℤ) (function : Option Text)
      (r : LogRecord)
      → IsEntry cfg env level t [] r
      → IsEntry cfg env level t
          (location_text file line function)
          (place_if_known file line function r)
  unfolding place_if_known set_source_location
  place_if_known-IsEntry level t none line function r e = e
  place_if_known-IsEntry level t (some file) line none r e = e
  place_if_known-IsEntry level t (some file) line (some function) r e = record {
    has_level = e.has_level;
    stamped = e.stamped;
    threaded = e.threaded;
    located = λ on. refl;
    sized = e.sized;
    content = e.content;
    counted = e.counted;
    fits = e.fits;
  }

  pub prepare_record-succeeds :
      (r : LogRecord) (level : Level) → (prepare_record c cfg env r level).0 ≡ true
  unfolding prepare_record
  prepare_record-succeeds r level = refl

  -- A text that agrees where locations are compiled in serves as well.
  pub IsEntry-from :
      {level : Level} {t a b : Text} {r : LogRecord}
      → (cfg.enable_source_location ≡ true → a ≡ b)
      → IsEntry cfg env level t a r
      → IsEntry cfg env level t b r
  IsEntry-from same e = record {
    has_level = e.has_level;
    stamped = e.stamped;
    threaded = e.threaded;
    located = λ on. e.located on ∙ same on;
    sized = e.sized;
    content = e.content;
    counted = e.counted;
    fits = e.fits;
  }
