-- ===== src/Tests/Delivered.antt =====
-- Runs of the consumer: two records are pushed, one of them before the thread looks at the ring,
-- and then it is stopped.
use low_latency_logger.Prelude.{List, [], ◌∷◌, refl, replicate, All, arith}
use low_latency_logger.Prelude.Text.{Text, signed_decimal}
use low_latency_logger.RingBuffer.{init, try_push}
use low_latency_logger.RingBuffer.Queue.{Holds, init-Holds}
use low_latency_logger.RingBuffer.Push.{try_push-room}
use low_latency_logger.Consumer.{Event, pushes, stops, World, loop}
use low_latency_logger.Consumer.Trace.{EventOk}
use low_latency_logger.Consumer.Shutdown.{Ended, loop-Ended}
use low_latency_logger.Pipeline.{text_setup, started}
use low_latency_logger.Pipeline.Delivery.{IsPrintable, text_setup-IsSetup, started-Inv}
use low_latency_logger.Tests.{four-IsCapacity}
use low_latency_logger.Tests.Messages.{blank, small, filled}

abbrev pub garbage : Text
garbage = replicate 264 7

abbrev schedule : List (List Event)
schedule = (pushes filled ∷ []) ∷ [] ∷ (pushes blank ∷ stops ∷ []) ∷ []

pub filled-IsPrintable : IsPrintable small filled
unfolding signed_decimal
filled-IsPrintable = record { in_message = omega arith; short = omega arith }

blank-IsPrintable : IsPrintable small blank
blank-IsPrintable = record { in_message = omega arith; short = omega arith }

schedule-ok : All (All (EventOk (IsPrintable small))) schedule
schedule-ok = ((filled-IsPrintable, tt), (tt, ((blank-IsPrintable, (tt, tt)), tt)))

loop-Ended_example :
    Ended
      (text_setup-IsSetup small (λ t. t) four-IsCapacity)
      (started garbage schedule)
      (loop (text_setup small (λ t. t) 4) 4 (started garbage schedule))
loop-Ended_example =
    loop-Ended (text_setup-IsSetup small (λ t. t) four-IsCapacity) 4 (started garbage schedule)
      (started-Inv small (λ t. t) four-IsCapacity garbage schedule refl schedule-ok) refl
      (omega arith)

-- One record waits in the ring when the stop comes.
abbrev waiting_one : World
waiting_one = record (started garbage ((stops ∷ []) ∷ [])) { ring = (try_push 4 filled init).1 }

waiting_one-Holds : Holds 4 waiting_one.ring (filled ∷ [])
waiting_one-Holds =
    (try_push-room four-IsCapacity (init-Holds 4 four-IsCapacity) filled (omega arith)).1
