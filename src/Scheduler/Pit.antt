-- ===== src/Scheduler/Pit.antt =====
-- kernel/drivers/timer.c: the divisor that the chip receives.
use lightstreak_os.Base.{ℕ, ◌+◌, ◌*◌, ◌/◌, ◌^◌, ◌≤◌, ◌<◌, ◌≡◌, arith, bit_and}
use native.Mathlib.Nat.{div-lt_iff_lt-mul}
use lightstreak_os.Base.Bits.{bit_and_mask}
use lightstreak_os.Scheduler.{pit_base_freq, pit_divisor}

-- From 19 ticks a second on, the two bytes that are sent are the whole divisor; below, its higher bits
-- are lost.
pub divisor_bytes :
    (hz : ℕ)
    → 19 ≤ hz
    → bit_and (pit_divisor hz / 2 ^ 8) 0xFF * 2 ^ 8 + bit_and (pit_divisor hz) 0xFF ≡ pit_divisor hz
unfolding pit_divisor
divisor_bytes hz h =
    omega (arith, small, bit_and_mask 8 (pit_divisor hz / 2 ^ 8), bit_and_mask 8 (pit_divisor hz))
  where
    small : pit_base_freq / hz < 2 ^ 16
    small = (div-lt_iff_lt-mul (omega arith)).1 (omega arith)
