-- ===== src/Sink/Delivery.antt =====
-- The calls that a consumer makes of its sink, carried out by a `FileSink`.
use low_latency_logger.Prelude.{
  ◌+◌, ◌≤◌, true, Option, some, List, [], ◌∷◌, ◌++◌, ◌≡◌, refl, sym, ap, ◌∙◌, length, take,
  take_all, length-append, append-nil, append_assoc, ◌==◌, arith, Bool-cases, inl, inr, ==_iff,
}
use low_latency_logger.Prelude.Text.{Text, joined}
use low_latency_logger.Config.{Config}
use low_latency_logger.ErrorCode.{ErrorCode, report_error}
use low_latency_logger.Consumer.{SinkCall, write, flush}
use low_latency_logger.Consumer.Trace.{written, written-append}
use low_latency_logger.Sink.{Stdio, FileSink, write_file, flush_file}

-- What the C standard says of the streams, where `contents` is what a stream held and was given,
-- and `stored` what has reached the file: `fwrite` takes at most the bytes given and appends those
-- that it took; `fflush` gives nothing, and, if it returns 0, all contents are stored; so they are
-- if `fclose` returns 0; a stream from which nothing is left to store is stored after `fclose`,
-- whatever that returns; and nothing is left to store when a file is opened. What is stored after
-- `fwrite`, or after a failure, is left open.
pub record IsStdio {F : Type 0} (io : Stdio F) (contents stored : F → Text) : Type 0 where
  pub at_most : (t : Text) (f : F) → (io.fwrite t f).0 ≤ length t
  pub appends :
      (t : Text) (f : F) → contents (io.fwrite t f).1 ≡ contents f ++ take (io.fwrite t f).0 t
  pub keeps : (f : F) → contents (io.fflush f).1 ≡ contents f
  pub flushes : (f : F) → (io.fflush f).0 ≡ true → stored (io.fflush f).1 ≡ contents f
  pub closes : (f : F) → (io.fclose f).0 ≡ true → stored (io.fclose f).1 ≡ contents f
  pub settles : (f : F) → stored f ≡ contents f → stored (io.fclose f).1 ≡ contents f
  pub opens : (path mode : Text) (f : F) → io.fopen path mode ≡ some f → stored f ≡ contents f

module _ {F : Type 0} (cfg : Config) (io : Stdio F) where
  -- The consumer passes the bytes that it formatted, and their number.
  unfoldable pub replay : List SinkCall → FileSink F → FileSink F
  replay [] s = s
  replay (write t ∷ calls) s = replay calls (write_file cfg io (some t) (length t) s)
  replay (flush ∷ calls) s = replay calls (flush_file cfg io s)

  module _ {contents stored : F → Text} (std : IsStdio io contents stored)
      (on : cfg.enable_stderr_diagnostics ≡ true) where
    -- What one call leaves: a file with its text if nothing was reported, and one more line if not.
    record Next (f : F) (errs : List Text) (t : Text) (s : FileSink F) : Type 0 where
      file_after : F
      open_still : s.file ≡ some file_after
      grows : length errs ≤ length s.stderr
      quiet : length s.stderr ≤ length errs → contents file_after ≡ contents f ++ t

    longer :
        (code : ErrorCode) (context : Option Text) (errs : List Text)
        → length (report_error cfg code context errs) ≡ length errs + 1
    unfolding report_error
    longer code context errs = rw on (length-append {0} errs _)

    Next-trans :
        {f : F} {errs : List Text} {t u : Text} {s s' : FileSink F} (a : Next f errs t s)
        → Next a.file_after s.stderr u s'
        → Next f errs (t ++ u) s'
    Next-trans {f} {t = t} {u} a b = record {
      file_after = b.file_after;
      open_still = b.open_still;
      grows = omega (arith, a.grows, b.grows);
      quiet = λ h.
          b.quiet (omega (arith, a.grows, h))
          ∙ ap (λ x. x ++ u) (a.quiet (omega (arith, b.grows, h)))
          ∙ append_assoc (contents f) t u;
    }

    write_file-Next :
        (t : Text) (f : F) (s : FileSink F)
        → s.file ≡ some f
        → Next f s.stderr t (write_file cfg io (some t) (length t) s)
    unfolding write_file
    write_file-Next t f s e = rw e (
        let whole : take (length t) t ≡ t = take_all (length t) t (omega arith) in
        elim (Bool-cases (length t == 0)) [
          | inl nothing ↦ rw nothing (record {
            file_after = f;
            open_still = refl;
            grows = omega arith;
            quiet = λ h.
                sym (append-nil (contents f))
                ∙ ap (λ u. contents f ++ u)
                    (ap (λ k. take k t) (sym ((==_iff (length t) 0).0 nothing)) ∙ whole);
          })
          | inr something ↦
              rw (something, whole)
                (elim (Bool-cases ((io.fwrite t f).0 == length t)) [
                  | inl all ↦ rw all (record {
                    file_after = (io.fwrite t f).1;
                    open_still = refl;
                    grows = omega arith;
                    quiet = λ h.
                        std.appends t f
                        ∙ ap (λ u. contents f ++ u)
                            (ap (λ k. take k t) ((==_iff (io.fwrite t f).0 (length t)).0 all)
                              ∙ whole);
                  })
                  | inr short ↦ rw short (record {
                    file_after = (io.fwrite t f).1;
                    open_still = refl;
                    grows = omega (arith, longer ErrorCode.write_failed _ s.stderr);
                    quiet =
                        λ h. absurd (omega (arith, h, longer ErrorCode.write_failed _ s.stderr));
                  })
                ])
        ])

    flush_file-Next :
        (f : F) (s : FileSink F) → s.file ≡ some f → Next f s.stderr [] (flush_file cfg io s)
    unfolding flush_file
    flush_file-Next f s e = rw e (elim (Bool-cases (io.fflush f).0) [
      | inl done ↦ rw done (record {
        file_after = (io.fflush f).1;
        open_still = refl;
        grows = omega arith;
        quiet = λ h. std.keeps f ∙ sym (append-nil (contents f));
      })
      | inr failed ↦ rw failed (record {
        file_after = (io.fflush f).1;
        open_still = refl;
        grows = omega (arith, longer ErrorCode.flush_failed _ s.stderr);
        quiet = λ h. absurd (omega (arith, h, longer ErrorCode.flush_failed _ s.stderr));
      })
    ])

    replay-Next :
        (calls : List SinkCall) (f : F) (s : FileSink F)
        → s.file ≡ some f
        → Next f s.stderr (joined (written calls)) (replay calls s)
    unfolding replay
    replay-Next [] f s e = record {
      file_after = f;
      open_still = e;
      grows = omega arith;
      quiet = λ h. sym (append-nil (contents f));
    }
    replay-Next (write t ∷ calls) f s e =
        let a = write_file-Next t f s e in
        Next-trans a
          (replay-Next calls a.file_after (write_file cfg io (some t) (length t) s) a.open_still)
    replay-Next (flush ∷ calls) f s e =
        let a = flush_file-Next f s e in
        Next-trans a (replay-Next calls a.file_after (flush_file cfg io s) a.open_still)

    -- A flush that is not reported has stored all.
    flush_file-stores :
        (f : F) (s : FileSink F)
        → s.file ≡ some f
        → length (flush_file cfg io s).stderr ≤ length s.stderr
        → (f' : F) × ((flush_file cfg io s).file ≡ some f')
          × (stored f' ≡ contents f)
          × (contents f' ≡ contents f)
    unfolding flush_file
    flush_file-stores f s e = rw e (elim (Bool-cases (io.fflush f).0) [
      | inl done ↦ rw done (λ h. ((io.fflush f).1, refl, std.flushes f done, std.keeps f))
      | inr failed ↦
          rw failed (λ h. absurd (omega (arith, h, longer ErrorCode.flush_failed _ s.stderr)))
    ])

    replay-append :
        (before after : List SinkCall) (s : FileSink F)
        → replay (before ++ after) s ≡ replay after (replay before s)
    unfolding replay
    replay-append [] after s = refl
    replay-append (write t ∷ before) after s =
        replay-append before after (write_file cfg io (some t) (length t) s)
    replay-append (flush ∷ before) after s = replay-append before after (flush_file cfg io s)

    -- The same calls with a flush at the end: what was written is stored.
    pub replay_flushed :
        (calls : List SinkCall) (f : F) (s : FileSink F)
        → s.file ≡ some f
        → length (replay (calls ++ flush ∷ []) s).stderr ≤ length s.stderr
        → (f' : F) × ((replay (calls ++ flush ∷ []) s).file ≡ some f')
          × (stored f' ≡ contents f')
          × (contents f' ≡ contents f ++ joined (written calls))
    unfolding replay
    replay_flushed calls f s e h =
        let n = replay-Next calls f s e in
        let whole = replay-append calls (flush ∷ []) s in
        let last = flush_file-Next n.file_after (replay calls s) n.open_still in
        let total = rw whole at h in
        let (f', kept, all, same) =
          flush_file-stores n.file_after (replay calls s) n.open_still
            (omega (arith, total, n.grows)) in
        (
          f',
          ap (λ x. x.file) whole ∙ kept,
          all ∙ sym same,
          same ∙ n.quiet (omega (arith, total, last.grows)),
        )

    -- The file, after calls that end in a flush.
    pub replay_ended :
        (calls before : List SinkCall) (f : F) (s : FileSink F)
        → calls ≡ before ++ flush ∷ []
        → s.file ≡ some f
        → length (replay calls s).stderr ≤ length s.stderr
        → (f' : F) × ((replay calls s).file ≡ some f')
          × (stored f' ≡ contents f ++ joined (written calls))
    replay_ended calls before f s e opened quiet =
        let (f', kept, all, grown) = replay_flushed before f s opened (rw e at quiet) in
        let same : written calls ≡ written before =
          ap written e ∙ written-append before (flush ∷ []) ∙ append-nil (written before) in
        (
          f',
          ap (λ l. (replay l s).file) e ∙ kept,
          all ∙ grown ∙ ap (λ ts. contents f ++ joined ts) (sym same),
        )

    -- With diagnostics compiled in and streams that do what the C standard says: if a `FileSink`
    -- whose file was opened carries out the calls of a consumer and prints nothing on stderr, then
    -- the file has got exactly the texts written, one after the other, and is still open.
    pub replay_quiet :
        (calls : List SinkCall) (f : F) (s : FileSink F)
        → s.file ≡ some f
        → length (replay calls s).stderr ≤ length s.stderr
        → (f' : F) × ((replay calls s).file ≡ some f')
          × (contents f' ≡ contents f ++ joined (written calls))
    replay_quiet calls f s e h =
        let n = replay-Next calls f s e in (n.file_after, n.open_still, n.quiet h)
