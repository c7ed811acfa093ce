-- ===== src/Sink/Console.antt =====
-- src/sink.cpp: the calls of a consumer, carried out by a `ConsoleSink`.
use low_latency_logger.Prelude.{
  ◌<◌, true, none, some, List, [], ◌∷◌, ◌++◌, ◌≡◌, refl, sym, ap, ◌∙◌, length, ◌==◌, Bool-cases,
  inl, inr, ◌⊎◌, dec_lt, arith,
}
use low_latency_logger.Prelude.Text.{Text, joined}
use low_latency_logger.Config.{Config}
use low_latency_logger.Consumer.{SinkCall, write, flush}
use low_latency_logger.Consumer.Trace.{written}
use low_latency_logger.Sink.{Stdio, FileSink, write_file, flush_file, write_console, flush_console}
use low_latency_logger.Sink.Delivery.{IsStdio, replay, replay_quiet}

module _ {F : Type 0} (io : Stdio F) where
  unfoldable pub replay_console : List SinkCall → F → F
  replay_console [] f = f
  replay_console (write t ∷ calls) f = replay_console calls (write_console io (some t) (length t) f)
  replay_console (flush ∷ calls) f = replay_console calls (flush_console io f)

  write_console-write_file :
      (cfg : Config) (t : Text) (f : F) (s : FileSink F)
      → s.file ≡ some f
      → (write_file cfg io (some t) (length t) s).file
        ≡ some (write_console io (some t) (length t) f)
  unfolding write_console write_file
  write_console-write_file cfg t f s e = rw e (elim (Bool-cases (length t == 0)) [
    | inl nothing ↦ rw nothing refl
    | inr something ↦ rw something refl
  ])

  flush_console-flush_file :
      (cfg : Config) (f : F) (s : FileSink F)
      → s.file ≡ some f
      → (flush_file cfg io s).file ≡ some (flush_console io f)
  unfolding flush_console flush_file
  flush_console-flush_file cfg f s e = rw e refl

  replay_console-replay :
      (cfg : Config) (calls : List SinkCall) (f : F) (s : FileSink F)
      → s.file ≡ some f
      → (replay cfg io calls s).file ≡ some (replay_console calls f)
  unfolding replay_console replay
  replay_console-replay cfg [] f s e = e
  replay_console-replay cfg (write t ∷ calls) f s e =
      replay_console-replay cfg calls (write_console io (some t) (length t) f)
        (write_file cfg io (some t) (length t) s) (write_console-write_file cfg t f s e)
  replay_console-replay cfg (flush ∷ calls) f s e =
      replay_console-replay cfg calls (flush_console io f) (flush_file cfg io s)
        (flush_console-flush_file cfg f s e)

  -- With streams that do what the C standard says, and any configuration with diagnostics compiled
  -- in: the calls of a consumer leave the stream of a `ConsoleSink` as they would leave it as the
  -- file of a `FileSink`; and either the stream was given exactly the texts written, in order,
  -- behind what it held, or that `FileSink` would have printed a report.
  pub replay_console_lem :
      {contents stored : F → Text} (std : IsStdio io contents stored) (cfg : Config)
      → cfg.enable_stderr_diagnostics ≡ true
      → (calls : List SinkCall) (f : F)
      → let as_file : FileSink F = replay cfg io calls (record { file = some f; stderr = [] }) in
        (as_file.file ≡ some (replay_console calls f))
        × ((contents (replay_console calls f) ≡ contents f ++ joined (written calls))
            ⊎ (0 < length as_file.stderr))
  replay_console_lem {contents} std cfg on calls f =
      let start : FileSink F = record { file = some f; stderr = [] } in
      let same = replay_console-replay cfg calls f start refl in
      (
        same,
        elim (dec_lt 0 (length (replay cfg io calls start).stderr)) [
          | yes told ↦ inr told
          | no quiet ↦
              let (f', kept, grown) = replay_quiet cfg io std on calls f start refl (omega arith) in
              let one : some f' ≡ some (replay_console calls f) = sym kept ∙ same in
              inl (sym (ap (λ o. contents (elim o [ none ↦ f' | some x ↦ x ])) one) ∙ grown)
        ],
      )
