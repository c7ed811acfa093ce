-- ===== src/Sink/Life.antt =====
-- src/sink.cpp: a `FileSink` from its constructor to its destructor.
use low_latency_logger.Prelude.{
  ◌≤◌, true, Option, none, some, List, [], ◌∷◌, ◌++◌, ◌≡◌, refl, sym, ap, ◌∙◌, length, arith, false,
  Bool-cases, inl, inr, ◌⊎◌,
}
use low_latency_logger.Prelude.Text.{Text, joined}
use low_latency_logger.Config.{Config}
use low_latency_logger.ErrorCode.{report_error}
use low_latency_logger.Consumer.{SinkCall, write, flush}
use low_latency_logger.Consumer.Trace.{written}
use low_latency_logger.Sink.{Stdio, FileSink, open_file, close_file, write_file, flush_file}
use low_latency_logger.Sink.Delivery.{IsStdio, replay, replay_quiet, replay_flushed}

module _ {F : Type 0} (cfg : Config) (io : Stdio F) where
  -- The constructor, the calls of a consumer, and the destructor.
  abbrev pub lifetime : Option Text → Text → List SinkCall → FileSink F
  lifetime path mode calls = close_file cfg io (replay cfg io calls (open_file cfg io path mode []))

  module _ {contents stored : F → Text} (std : IsStdio io contents stored)
      (on : cfg.enable_stderr_diagnostics ≡ true) where
    -- A sink without a file ignores its calls.
    replay-closed :
        (calls : List SinkCall) (errs : List Text)
        → let s : FileSink F = record { file = none; stderr = errs } in replay cfg io calls s ≡ s
    unfolding replay write_file flush_file
    replay-closed [] errs = refl
    replay-closed (write t ∷ calls) errs = replay-closed calls errs
    replay-closed (flush ∷ calls) errs = replay-closed calls errs

    -- A sink that has printed nothing has opened its file.
    opened_quiet :
        (path mode : Text) (calls : List SinkCall)
        → length (lifetime (some path) mode calls).stderr ≤ 0
        → (f : F) × (io.fopen path mode ≡ some f)
          × (open_file cfg io (some path) mode [] ≡ record { file = some f; stderr = [] })
    unfolding open_file close_file report_error
    opened_quiet path mode calls quiet = go (io.fopen path mode) refl
      where
        go :
            (o : Option F)
            → io.fopen path mode ≡ o
            → (f : F) × (io.fopen path mode ≡ some f)
              × (open_file cfg io (some path) mode [] ≡ record { file = some f; stderr = [] })
        go none e =
            let quiet_closed = rw (e, replay-closed calls, on) at quiet in
            absurd (omega (arith, quiet_closed))
        go (some f) e = (f, e, rw e refl)

    -- With diagnostics compiled in, and streams that do what the C standard says: if a `FileSink`
    -- is constructed on a path, carries out the calls of a consumer and is destroyed, and prints
    -- nothing on stderr in all that time, then the file was opened, and the stream that the
    -- destructor closes was given exactly the texts written, one after the other, behind what the
    -- file held; and either all of this is in the file in the end, or `fclose` has failed without a
    -- report.
    pub lifetime_lem :
        (path mode : Text) (calls : List SinkCall)
        → length (lifetime (some path) mode calls).stderr ≤ 0
        → (f : F) × (last : F) × (io.fopen path mode ≡ some f)
          × ((lifetime (some path) mode calls).file ≡ some (io.fclose last).1)
          × (contents last ≡ stored f ++ joined (written calls))
          × ((stored (io.fclose last).1 ≡ stored f ++ joined (written calls))
              ⊎ ((io.fclose last).0 ≡ false))
    unfolding close_file
    lifetime_lem path mode calls quiet =
        let (f, opened, start) = opened_quiet path mode calls quiet in
        let (last, kept, grown) =
          replay_quiet cfg io std on calls f (record { file = some f; stderr = [] }) refl
            (rw start at quiet) in
        let given : contents last ≡ stored f ++ joined (written calls) =
          grown ∙ ap (λ t. t ++ joined (written calls)) (sym (std.opens path mode f opened)) in
        (
          f,
          last,
          opened,
          ap (λ s. (close_file cfg io (replay cfg io calls s)).file) start
              ∙ ap (λ o. elim o [ none ↦ none | some x ↦ some (io.fclose x).1 ]) kept,
          given,
          elim (Bool-cases (io.fclose last).0) [
            | inl closed ↦ inl (std.closes last closed ∙ given)
            | inr failed ↦ inr failed
          ],
        )

    -- Where closing a stream does not fail, all of it is in the file.
    pub lifetime-stored :
        ((f : F) → (io.fclose f).0 ≡ true)
        → (path mode : Text) (calls : List SinkCall)
        → length (lifetime (some path) mode calls).stderr ≤ 0
        → (f : F) × (f' : F) × (io.fopen path mode ≡ some f)
          × ((lifetime (some path) mode calls).file ≡ some f')
          × (stored f' ≡ stored f ++ joined (written calls))
    lifetime-stored closed path mode calls quiet =
        let (f, last, opened, kept, given, ended) = lifetime_lem path mode calls quiet in
        (f, (io.fclose last).1, opened, kept, std.closes last (closed last) ∙ given)

    -- With diagnostics compiled in, and streams that do what the C standard says, whether or not
    -- `fclose` fails: if a `FileSink` is constructed on a path, carries out calls of a consumer of
    -- which the last is a flush, and is destroyed, and prints nothing on stderr in all that time,
    -- then the file was opened, and holds in the end, behind what it held, exactly the texts
    -- written, one after the other.
    pub flushed_lem :
        (path mode : Text) (calls : List SinkCall)
        → length (lifetime (some path) mode (calls ++ flush ∷ [])).stderr ≤ 0
        → (f : F) × (f' : F) × (io.fopen path mode ≡ some f)
          × ((lifetime (some path) mode (calls ++ flush ∷ [])).file ≡ some f')
          × (stored f' ≡ stored f ++ joined (written calls))
    unfolding close_file
    flushed_lem path mode calls quiet =
        let (f, opened, start) = opened_quiet path mode (calls ++ flush ∷ []) quiet in
        let (last, kept, settled, grown) =
          replay_flushed cfg io std on calls f (record { file = some f; stderr = [] }) refl
            (rw start at quiet) in
        (
          f,
          (io.fclose last).1,
          opened,
          ap (λ s. (close_file cfg io (replay cfg io (calls ++ flush ∷ []) s)).file) start
              ∙ ap (λ o. elim o [ none ↦ none | some x ↦ some (io.fclose x).1 ]) kept,
          std.settles last settled
              ∙ grown
              ∙ ap (λ t. t ++ joined (written calls)) (sym (std.opens path mode f opened)),
        )
