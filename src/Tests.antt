-- ===== src/Tests.antt =====
-- Test data, runs of the definitions on it, and an application of each theorem that has hypotheses.
pub mod Ring
pub mod Threads
pub mod Messages
pub mod Drops
pub mod Delivered
pub mod Parts
pub mod Machine
pub mod Whole
pub mod Backend
pub mod Prompt
pub mod Frontend
pub mod Runtime
use low_latency_logger.Prelude.{arith, refl}
use low_latency_logger.RingBuffer.Capacity.{IsCapacity}

pub four-IsCapacity : IsCapacity 4
four-IsCapacity = record { more_than_one = omega arith; power_of_two = refl; fits = omega arith }
