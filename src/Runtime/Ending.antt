-- ===== src/Runtime/Ending.antt =====
-- include/logger.h with include/consumer.h, src/formatter.cpp and src/sink.cpp: a logger from its
-- calls to the end of its destructor.
use low_latency_logger.Prelude.{
  ℕ, ◌+◌, ◌-◌, ◌*◌, ◌≤◌, ◌<◌, Bool, true, false, some, List, [], ◌∷◌, append-nil, ◌++◌, ◌≡◌, refl,
  sym, ap, ◌∙◌, subst, length, length-take, take, map, arith, Bool-cases, inl, inr,
}
use low_latency_logger.Prelude.Text.{Text, joined}
use low_latency_logger.Config.{Config}
use low_latency_logger.RingBuffer.Capacity.{IsCapacity}
use low_latency_logger.Spsc.Safety
use low_latency_logger.Pipeline.{k_scratch_size}
use low_latency_logger.Sink.{Stdio}
use low_latency_logger.Sink.Delivery.{IsStdio}
use low_latency_logger.Sink.Life.{lifetime, flushed_lem}
use low_latency_logger.Consumer.{flush}
use low_latency_logger.Consumer.Trace.{written, written-append}
use low_latency_logger.Lifecycle.{exchange, join_thread}
use low_latency_logger.Backend.{Pc}
use low_latency_logger.Backend
use low_latency_logger.Backend.Invariant.{leaving}
use low_latency_logger.Backend.Account
use low_latency_logger.Backend.Graceful.{graceful}
use low_latency_logger.System.{LogCall}
use low_latency_logger.System.Entries.{IsCallable}
use low_latency_logger.System.File.{printed_line}
use low_latency_logger.System.Served.{calls-IsSetup}
use low_latency_logger.Frontend.{Front}
use low_latency_logger.Frontend
use low_latency_logger.Frontend.Returns.{accepted}
use low_latency_logger.Frontend.Invariant
use low_latency_logger.Frontend.Serving.{Serves, IsServing, Serves-IsServing, Grows, Grows-trans}
use low_latency_logger.Frontend.File.{written-accepted, pushed-accepted}
use low_latency_logger.Runtime.{
  ending_logger, ending_consumer, destroy_rest, Errand, Place, Runtime, after_stop, stop_exchange,
  stop_join, Step, Reach,
}
use low_latency_logger.Runtime.Invariant.{Inv, Reach-Inv, standing}

-- The exchange of a `Stop` that finds the flag set.
stop_exchange-on :
    (errand : Errand) (r : Runtime)
    → r.life.is_running ≡ true
    → stop_exchange errand r ≡ record {
      front = record r.front { machine = record r.front.machine { stopped = true } };
      life = record r.life { is_running = false };
      place = Place.joining errand;
    }
unfolding stop_exchange exchange
stop_exchange-on errand r on = rw on refl

destroy_rest-gone :
    (r : Runtime)
    → r.life.is_running ≡ false
    → ((stop_join ending_logger r).place ≡ Place.stopping ending_consumer)
      × ((destroy_rest r).place ≡ Place.gone)
      × ((destroy_rest r).front ≡ r.front)
unfolding destroy_rest stop_exchange stop_join after_stop exchange join_thread
destroy_rest-gone r off = elim (Bool-cases r.life.joinable) [
  | inl held ↦ rw (held, off) (refl, refl, refl)
  | inr free ↦ rw (free, off) (refl, refl, refl)
]

module _ (cfg : Config) (ns : ℕ → ℕ) (c : ℕ) (positive : 0 < cfg.max_message_size)
    (v : IsCapacity c) {scratch : Text} (sized : length scratch ≡ k_scratch_size cfg) where
  -- Runs of the front are runs of the owner who does nothing meanwhile.
  Serves-Reach :
      (on : Bool) (r : Runtime) {n : ℕ} {g : Front}
      → Reach cfg ns c (IsCallable cfg) scratch r
      → ¬ (r.place ≡ Place.gone)
      → 0 < r.life.threads
      → (on ≡ false → r.life.is_running ≡ false)
      → Serves cfg ns c (IsCallable cfg) on r.front n g
      → Reach cfg ns c (IsCallable cfg) scratch (record r { front = g })
  Serves-Reach on r reach here started off Serves.rests = reach
  Serves-Reach on r reach here started off (Serves.calls next m run ok lo hi) =
      Reach.later (Serves-Reach on r reach here started off run) (Step.calls next m here ok lo hi)
  Serves-Reach on r reach here started off
        (Serves.null_calls env level file line function run idle) =
      Reach.later (Serves-Reach on r reach here started off run)
        (Step.null_calls env level file line function here idle)
  Serves-Reach on r reach here started off (Serves.loops {g = g} run) =
      let before = Serves-Reach on r reach here started off run in
      let i = Reach-Inv cfg ns c (IsCallable cfg) scratch before in
      let f = Invariant.Reach-Inv cfg ns c (IsCallable cfg) i.reached in
      let setup = calls-IsSetup cfg ns c positive v (λ call k. k) in
      let ring = Safety.Reach-Inv v (Account.Reach-Inv setup sized f.reached).reached in
      Reach.later before
        (Step.loops g.machine.ring.write_index.stores on started ring.write_seen (omega arith) off)

  -- A loop whose flag is set and whose handle is joinable is not leaving.
  working-stays :
      {r : Runtime}
      → Inv cfg ns c (IsCallable cfg) scratch r
      → r.life.joinable ≡ true
      → r.life.is_running ≡ true
      → leaving r.front.machine.pc ≡ false
  working-stays {r} i held running =
      let setup = calls-IsSetup cfg ns c positive v (λ call k. k) in
      let f = Invariant.Reach-Inv cfg ns c (IsCallable cfg) i.reached in
      let b = Account.Reach-Inv setup sized f.reached in
      elim (Bool-cases (leaving r.front.machine.pc)) [
        | inl leaves ↦ (let e = b.signalled leaves in let e' = i.tied.working held running in cc)
        | inr stays ↦ stays
      ]

  -- A `Stop` that leaves the loop time, and the loop after it.
  served_to_end :
      {f g h : Front} {n k : ℕ}
      → Invariant.Inv cfg ns c (IsCallable cfg) scratch f
      → leaving f.machine.pc ≡ false
      → Serves cfg ns c (IsCallable cfg) true f n g
      → 7 * (length (accepted f.answers) - length f.machine.emitted) + 11 ≤ n
      → Serves cfg ns c
          (IsCallable cfg)
          false
          (record g { machine = record g.machine { stopped = true } })
          k
          h
      → 8 ≤ k
      → (h.machine.pc ≡ Pc.done)
        × (length (accepted f.answers) ≤ length h.machine.emitted)
        × Grows cfg ns c (IsCallable cfg) f h
        × Invariant.Inv cfg ns c (IsCallable cfg) scratch h
  served_to_end {f} {g} {h} {n} {k} i staying run enough down last =
      let Ok = IsCallable cfg in
      let setup = calls-IsSetup cfg ns c positive v (λ call k. k) in
      let told = record g { machine = record g.machine { stopped = true } } in
      let early : IsServing cfg ns c Ok true scratch f n g =
        Serves-IsServing cfg ns c positive v (λ call k. k) true (λ e. cc) sized i run in
      let late : IsServing cfg ns c Ok false scratch told k h =
        Serves-IsServing cfg ns c positive v (λ call k. k) false (λ e. refl) sized
          (Invariant.Step-Inv cfg ns c Ok (Frontend.backs Backend.stops) early.inv) down in
      let same = pushed-accepted cfg ns c Ok i in
      let (done, there, a) =
        graceful setup scratch sized i.reached staying early.run (rw same enough) late.run last in
      (
        done,
        omega (
          arith,
          same,
          ap length there,
          length-take (length f.machine.ring.pushed) h.machine.emitted,
        ),
        Grows-trans cfg ns c Ok f told h early.grows late.grows,
        late.inv,
      )

module _ (cfg : Config) (ns : ℕ → ℕ) (c : ℕ) (positive : 0 < cfg.max_message_size)
    (v : IsCapacity c) {F : Type 0} (io : Stdio F) {contents stored : F → Text}
    (std : IsStdio io contents stored) (on : cfg.enable_stderr_diagnostics ≡ true) where
  -- For a valid capacity, a message size above zero, diagnostics compiled in, streams that do what
  -- the C standard says, whether or not `fclose` succeeds, and a scratch buffer of the right size:
  -- take any interleaving of one thread that owns a logger, with the threads that it starts and a
  -- producer whose calls have messages of which the source says what they print, or null ones, and
  -- any point of it at which the owner is between its calls and the flag is set. If from there the
  -- loop takes seven steps for each call answered `Success` and not yet written, and eleven more,
  -- each with loads that return the newest value and the flag set, then the owner calls the
  -- destructor, the loop takes eight steps with newest values and the flag found cleared, whatever
  -- calls are made in the meantime, and a `FileSink` that is constructed on a path, carries out the
  -- calls of the sink and is destroyed prints nothing on stderr, then the rest of the destructor is
  -- a continuation of that interleaving and ends it; and the file has got, behind what it held, the
  -- lines of the first `k` calls answered `Success`, in order, where `k` is at least the number
  -- answered `Success` at that point, whose answers stay the first ones.
  pub destroyed_on_file :
      (scratch path mode : Text)
      → length scratch ≡ k_scratch_size cfg
      → {r : Runtime} {g h : Front} {n k : ℕ} → Reach cfg ns c (IsCallable cfg) scratch r
      → r.place ≡ Place.resting
      → r.life.is_running ≡ true
      → Serves cfg ns c (IsCallable cfg) true r.front n g
      → 7 * (length (accepted r.front.answers) - length r.front.machine.emitted) + 11 ≤ n
      → Serves cfg ns c
          (IsCallable cfg)
          false
          (stop_exchange ending_logger (record r { front = g })).front
          k
          h
      → 8 ≤ k
      → length (lifetime cfg io (some path) mode h.machine.calls).stderr ≤ 0
      → let last =
          destroy_rest
            (record (stop_exchange ending_logger (record r { front = g })) { front = h }) in
        Reach cfg ns c (IsCallable cfg) scratch last
        × (last.place ≡ Place.gone)
        × (last.front ≡ h)
        × ((more : List LogCall) × (k : ℕ) × (file : F) × (file' : F) × (accepted h.answers
              ≡ accepted r.front.answers ++ more)
            × (length (accepted r.front.answers) ≤ k)
            × (io.fopen path mode ≡ some file)
            × ((lifetime cfg io (some path) mode h.machine.calls).file ≡ some file')
            × (stored file'
                ≡ stored file ++ joined (map (printed_line cfg ns) (take k (accepted h.answers)))))
  unfolding destroy_rest
  destroyed_on_file scratch path mode sized {r} {g} {h} {n} {k} reach here running run enough down
        last quiet =
      let Ok = IsCallable cfg in
      let setup = calls-IsSetup cfg ns c positive v (λ call k. k) in
      let i = Reach-Inv cfg ns c Ok scratch reach in
      let held : r.life.joinable ≡ true = standing cfg ns c Ok scratch r i here ∙ running in
      let r' = record r { front = g } in
      let told = stop_exchange ending_logger r' in
      let same = stop_exchange-on ending_logger r' running in
      let off : told.life.is_running ≡ false = ap (λ s. s.life.is_running) same in
      let joining : told.place ≡ Place.joining ending_logger = ap (λ s. s.place) same in
      let (done, there, grown, f) =
        served_to_end cfg ns c positive v sized (Invariant.Reach-Inv cfg ns c Ok i.reached)
          (working-stays cfg ns c positive v sized i held running) run enough
          (subst (λ s. Serves cfg ns c Ok false s.front k h) same down) last in
      let (stopping, gone, front) = destroy_rest-gone (record told { front = h }) off in
      let alive =
        Serves-Reach cfg ns c positive v sized true r reach (λ e. cc) (i.tied.owned held) (λ e. cc)
          run in
      let ending =
        Serves-Reach cfg ns c positive v sized false told (Reach.later alive (Step.destroys here))
          (λ e. cc) (subst (λ s. 0 < s.life.threads) (sym same) (i.tied.owned held)) (λ e. off)
          down in
      (
        Reach.later (Reach.later ending (Step.joins ending_logger joining (λ e. done)))
            (Step.destroys_consumer stopping),
        gone,
        front,
        let setup = calls-IsSetup cfg ns c positive v (λ call k. k) in
            let (before, whole) = (Account.Reach-Inv setup sized f.reached).flushed done in
            let (file, file', opened, kept, text) =
              flushed_lem cfg io std on path mode before (rw whole at quiet) in
            let same : written before ≡ written h.machine.calls = sym (
              ap written whole
              ∙ written-append before (flush ∷ [])
              ∙ append-nil (written before)) in
            (
              grown.0,
              length h.machine.emitted,
              file,
              file',
              grown.1,
              there,
              opened,
              ap (λ calls. (lifetime cfg io (some path) mode calls).file) whole ∙ kept,
              text
                  ∙ ap (λ ts. stored file ++ joined ts)
                      (same ∙ written-accepted cfg ns c positive v sized f),
            ),
      )
