-- ===== src/Lib.antt =====
-- A verification library for the low-latency logger: a producer thread turns a log call into a
-- fixed-size record and pushes it to a single-producer single-consumer ring buffer; a background
-- thread pops the records, formats each as a line, and hands the line to a sink.
--
-- Files and the code they are about, with paths from the repository's root:
--   RingBuffer  internal/ring_buffer.h: `TryPush` (both), `TryPop`, `Size`, `Empty`, `Full`, as one
--               thread at a time sees them. RingBuffer/Queue is the abstract specification, a
--               bounded first-in first-out queue, and `Holds` the relation between a ring and a
--               queue.
--   Spsc        internal/ring_buffer.h: the same `TryPush` and `TryPop` on two threads, as a step
--               relation with one atomic access in each step. An acquire load may return any value
--               between the last one that its thread has seen and the newest. Spsc/Refine and
--               Spsc/History relate its steps to one bounded queue. Spsc/Sequential relates a call
--               that runs alone to RingBuffer. RingBuffer/Slots is where the elements lie.
--   Cacheline   internal/cacheline.h, and the layouts that internal/ring_buffer.h and
--               include/record.h make of it; Platform: internal/platform.h, the detection of
--               compiler, system and architecture, `ReadTsc` and `ReadTscp`, and, in Platform/Hints,
--               the macros for hints.
--   Config      include/config.h: the compile-time switches, as a record that the models take.
--   Level       include/level.h: the severity levels.
--   Record      include/record.h: `LogRecord` and its setters, byte by byte.
--   Formatter   src/formatter.cpp: `TextFormatter::FormatRecord`, byte by byte; Formatter/Line is
--               the line that a record stands for, with no regard to a buffer, and Formatter/Read a
--               reader of such lines, which the repository does not have.
--   Encoder     src/encoder.cpp: `EncodeTextRecord`, a second printer.
--   Clock       src/clock.cpp: `TscToNanoseconds`, over a parameter for the arithmetic of `double`.
--   Consumer    include/consumer.h: `Consumer::Loop`, run against a schedule of what the producer
--               and `Stop` do between its accesses of shared state. Consumer/Drain is about a `Stop`
--               that comes late enough, Consumer/Shutdown about any other.
--   Backend     include/consumer.h with internal/ring_buffer.h: the same loop as a thread that takes
--               one access of shared memory at a time, beside the producer of Spsc and a thread that
--               calls `Stop` and `Start`. Backend/Account is about the records, Backend/Stopping
--               about the steps after a `Stop`, Backend/Latency about the steps up to a line,
--               Backend/Graceful about both, and Backend/File about the file.
--   Lifecycle   include/consumer.h: `Start`, `Stop` and the destructor, split at their
--               compare-and-swap; Lifecycle/Owner: the methods of include/logger.h that forward to
--               them.
--   Sink        src/sink.cpp: the three sinks, over a parameter for the streams of the C library, of
--               which what a stream was given and what has reached the file are told apart,
--               and, in Sink/Life, a file sink from its constructor to its destructor, and, in
--               Sink/Console, a console sink; ErrorCode: include/error.h.
--   Logger      include/logger.h: `Log`, `LogFormat`, the methods for each level, `PushRecord` and
--               its reports of dropped records; Logger/Shared: two loggers of one capacity.
--   Pipeline    include/consumer.h with src/formatter.cpp: the loop with the text formatter.
--   System      include/logger.h with include/consumer.h, src/formatter.cpp and src/sink.cpp: a
--               producer that calls `Log` and `LogFormat` while the loop runs on the same ring, with
--               a file at the end. System/Prompt and System/PromptRead are the same on the thread of
--               Backend.
--   Frontend    include/logger.h on internal/ring_buffer.h and include/consumer.h: the calls of a
--               producer on the thread of Backend, one access of shared memory at a time, with what
--               each of them answers. Frontend/Account is about the answers, Frontend/File about
--               the file.
--   Runtime     include/consumer.h with include/logger.h: the thread that owns a logger, with `Start`,
--               `Stop` and the destructors split at their exchanges and the join, beside the thread
--               that it starts and joins and the calls of Frontend. Runtime/Safety is about the
--               threads and the handle, Runtime/Ending about the file after the destructor.
--   Libc        what the sources use of the C library: `memcpy` and `snprintf` on byte buffers.
--   Prelude     shared names, lists, bits, modular arithmetic, text and decimal numerals.
--   Tests       test data, runs of the definitions, and an instance of each result with hypotheses.
--
-- A `size_t` is a natural number below 2^64, with every wrap written out; a `const char *` is `none`
-- for a null pointer and the bytes before the terminator otherwise; a buffer is the list of its bytes.
--
-- Bounds and fuel: capacities are powers of two from 2 to 2^63, as the static assertions and `size_t`
-- allow; decimal numerals have up to 20 digits, which is enough for 64 bits; the loop of the
-- consumer runs on fuel, one unit for each turn, and one more than the length of the schedule is enough.
-- Backend has no fuel: its runs are sequences of steps of any length, and its bounds count the steps.
--
-- What the parts exchange: the formatter takes the conversion of time stamps as an argument, which Clock
-- describes; the loop of the consumer records its calls of the sink in order, which Sink/Delivery
-- carries out on a file; a call of `Log` takes the time stamp and the hash of the thread as arguments.
--
-- Not modelled: the 500 microseconds of sleep, and what the processor makes of a pause or a prefetch, which
-- have no effect on what is computed; `CACHELINE_PAD` and `CachelinePadFull`, which no code uses; the
-- tests, the build files and the tree that CMake generated.
pub mod Prelude
pub mod RingBuffer
pub mod Spsc
pub mod Config
pub mod Cacheline
pub mod Level
pub mod Libc
pub mod Record
pub mod Formatter
pub mod Encoder
pub mod Platform
pub mod Clock
pub mod Consumer
pub mod Backend
pub mod ErrorCode
pub mod Sink
pub mod Logger
pub mod Lifecycle
pub mod Pipeline
pub mod System
pub mod Frontend
pub mod Runtime
pub mod Tests
