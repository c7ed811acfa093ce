-- ===== src/Frontend/File.antt =====
-- include/logger.h with include/consumer.h, src/formatter.cpp and src/sink.cpp: what an answer
-- `Success` promises.
use low_latency_logger.Prelude.{
  ℕ, zero, suc, ◌+◌, ◌-◌, ◌*◌, ◌≤◌, ◌<◌, true, false, some, List, [], ◌∷◌, ◌++◌, ◌≡◌, refl, sym, ap,
  ◌∙◌, length, length-take, take, take-append_left, take_all, append_assoc, map, All, arith,
}
use low_latency_logger.Prelude.Text.{Text, joined}
use low_latency_logger.Config.{Config}
use low_latency_logger.RingBuffer.Capacity.{IsCapacity}
use low_latency_logger.Pipeline.{k_scratch_size}
use low_latency_logger.Pipeline.Delivery.{cut_line}
use low_latency_logger.Consumer.Trace.{written}
use low_latency_logger.Sink.{Stdio}
use low_latency_logger.Sink.Delivery.{IsStdio}
use low_latency_logger.Sink.Life.{lifetime, lifetime-stored}
use low_latency_logger.Backend.Invariant.{in_hand, leaving}
use low_latency_logger.Backend.Account
use low_latency_logger.Backend.Latency.{attended}
use low_latency_logger.System.{LogCall, record_of}
use low_latency_logger.System.Entries.{IsCallable}
use low_latency_logger.System.File.{printed_line}
use low_latency_logger.System.Prompt.{lines-record_of}
use low_latency_logger.System.Served.{calls-IsSetup}
use low_latency_logger.Frontend.{Front, Reach}
use low_latency_logger.Frontend.Returns.{accepted}
use low_latency_logger.Frontend.Invariant.{Inv, Reach-Inv}
use low_latency_logger.Frontend.Serving.{Serves, IsServing, Serves-IsServing}

map-take : {A B : Type 0} (f : A → B) (n : ℕ) (xs : List A) → map f (take n xs) ≡ take n (map f xs)
map-take f zero xs = refl
map-take f (suc n) [] = refl
map-take f (suc n) (x ∷ xs) = ap (λ l. f x ∷ l) (map-take f n xs)

length-map : {A B : Type 0} (f : A → B) (xs : List A) → length (map f xs) ≡ length xs
length-map f [] = refl
length-map f (x ∷ xs) = ap suc (length-map f xs)

All-take : {A : Type 0} (P : A → Type 0) (n : ℕ) (xs : List A) → All P xs → All P (take n xs)
All-take P zero xs h = tt
All-take P (suc n) [] h = tt
All-take P (suc n) (x ∷ xs) (p, h) = (p, All-take P n xs h)

-- What is in front is the beginning.
take-front : {A : Type 0} (xs ys zs ws : List A) → (xs ++ ys) ++ zs ≡ ws → xs ≡ take (length xs) ws
take-front xs ys zs ws e = sym (
    ap (take (length xs)) (sym e ∙ append_assoc xs ys zs)
    ∙ take-append_left (length xs) xs (ys ++ zs) (omega arith)
    ∙ take_all (length xs) xs (omega arith))

pub pushed-accepted :
    (cfg : Config) (ns : ℕ → ℕ) (c : ℕ) (Ok : LogCall → Type 0) {scratch : Text} {f : Front}
    → Inv cfg ns c Ok scratch f
    → length f.machine.ring.pushed ≡ length (accepted f.answers)
pushed-accepted cfg ns c Ok {f = f} i =
    ap length i.agreed ∙ length-map (record_of c cfg) (accepted f.answers)

-- The texts written are the lines of calls answered `Success`.
pub written-accepted :
    (cfg : Config) (ns : ℕ → ℕ) (c : ℕ)
    → 0 < cfg.max_message_size
    → IsCapacity c
    → {scratch : Text} → length scratch ≡ k_scratch_size cfg
    → {f : Front} → Inv cfg ns c (IsCallable cfg) scratch f
    → written f.machine.calls
      ≡ map (printed_line cfg ns) (take (length f.machine.emitted) (accepted f.answers))
written-accepted cfg ns c positive v sized {f} i =
    let setup = calls-IsSetup cfg ns c positive v (λ call k. k) in
    let a = Account.Inv-IsAccounted setup (Account.Reach-Inv setup sized i.reached) in
    let k = length f.machine.emitted in
    let front : f.machine.emitted ≡ map (record_of c cfg) (take k (accepted f.answers)) =
      take-front f.machine.emitted (in_hand f.machine.pc) a.waiting _ (a.whole ∙ i.agreed)
      ∙ sym (map-take (record_of c cfg) k (accepted f.answers)) in
    a.lines
    ∙ ap (map (cut_line cfg ns)) front
    ∙ lines-record_of cfg ns c positive v (take k (accepted f.answers))
        (All-take (IsCallable cfg) k (accepted f.answers) i.oks)

module _ (cfg : Config) (ns : ℕ → ℕ) (c : ℕ) (positive : 0 < cfg.max_message_size)
    (v : IsCapacity c) {F : Type 0} (io : Stdio F) {contents stored : F → Text}
    (std : IsStdio io contents stored) (closes : (f : F) → (io.fclose f).0 ≡ true)
    (on : cfg.enable_stderr_diagnostics ≡ true) where
  -- The file that the calls of the sink leave, whenever the run is cut.
  emitted_on_file :
      (scratch path mode : Text)
      → length scratch ≡ k_scratch_size cfg
      → {f : Front} → Inv cfg ns c (IsCallable cfg) scratch f
      → length (lifetime cfg io (some path) mode f.machine.calls).stderr ≤ 0
      → (file : F) × (file' : F) × (io.fopen path mode ≡ some file)
        × ((lifetime cfg io (some path) mode f.machine.calls).file ≡ some file')
        × (stored file'
            ≡ stored file
              ++ joined (
                  map (printed_line cfg ns) (take (length f.machine.emitted) (accepted f.answers))))
  emitted_on_file scratch path mode sized {f} i quiet =
      let (file, file', opened, kept, grown) =
        lifetime-stored cfg io std on closes path mode f.machine.calls quiet in
      (
        file,
        file',
        opened,
        kept,
        grown ∙ ap (λ ts. stored file ++ joined ts) (written-accepted cfg ns c positive v sized i),
      )

  -- For a valid capacity, a message size above zero, diagnostics compiled in, streams that do what
  -- the C standard says and whose `fclose` succeeds, and a scratch buffer of the right size: take
  -- any history of a producer whose calls have messages of which the source says what they print,
  -- or null ones, of the loop and of a thread that calls `Stop` and `Start`, and any point of it at
  -- which the loop is not leaving. If from there the loop takes seven steps for each call answered
  -- `Success` and not yet written, and eleven more, each with loads that return the newest value
  -- and the flag set, whatever calls are made and answered in the meantime, and if a `FileSink`
  -- that is constructed on a path, carries out the calls of the sink made so far and is destroyed
  -- prints nothing on stderr, then the file has got, behind what it held, the lines of the first
  -- `k` calls answered `Success`, in order, where `k` is at least the number answered `Success` at
  -- that point, whose answers stay the first ones.
  pub success_on_file :
      (scratch path mode : Text)
      → length scratch ≡ k_scratch_size cfg
      → {f g : Front} {n : ℕ} → Reach cfg ns c (IsCallable cfg) scratch f
      → leaving f.machine.pc ≡ false
      → Serves cfg ns c (IsCallable cfg) true f n g
      → 7 * (length (accepted f.answers) - length f.machine.emitted) + 11 ≤ n
      → length (lifetime cfg io (some path) mode g.machine.calls).stderr ≤ 0
      → (more : List LogCall) × (k : ℕ) × (file : F) × (file' : F) × (accepted g.answers
          ≡ accepted f.answers ++ more)
        × (length (accepted f.answers) ≤ k)
        × (io.fopen path mode ≡ some file)
        × ((lifetime cfg io (some path) mode g.machine.calls).file ≡ some file')
        × (stored file'
            ≡ stored file ++ joined (map (printed_line cfg ns) (take k (accepted g.answers))))
  success_on_file scratch path mode sized {f} {g} {n} reach staying run enough quiet =
      let setup = calls-IsSetup cfg ns c positive v (λ call k. k) in
      let i = Reach-Inv cfg ns c (IsCallable cfg) reach in
      let h : IsServing cfg ns c (IsCallable cfg) true scratch f n g =
        Serves-IsServing cfg ns c positive v (λ call k. k) true (λ e. cc) sized i run in
      let same = pushed-accepted cfg ns c (IsCallable cfg) i in
      let all = attended setup scratch sized i.reached staying h.run (rw same enough) in
      let (file, file', opened, kept, grown) =
        emitted_on_file scratch path mode sized h.inv quiet in
      (
        h.grows.0,
        length g.machine.emitted,
        file,
        file',
        h.grows.1,
        omega (
          arith,
          same,
          ap length all,
          length-take (length f.machine.ring.pushed) g.machine.emitted,
        ),
        opened,
        kept,
        grown,
      )
