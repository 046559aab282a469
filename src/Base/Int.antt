-- ===== src/Base/Int.antt =====
-- Signed integers over the native numbers, and the C conversions to and from `int32_t`.
use Prim.Native.Nat.{ℕ, ◌-◌, ◌^◌, ◌%◌}
use mathlib.Core.Bool.{Bool, true, false}
use lightstreak_os.Base.Tests.{ltb, if◌then◌else◌}

-- `negsuc n` is -(n + 1).
pub data ℤ : Type 0 where
  pos : ℕ → ℤ
  negsuc : ℕ → ℤ

-- The C constant -1, which the kernel returns for an error.
abbrev pub minus_one : ℤ
minus_one = negsuc 0

-- The test `n < 0`.
abbrev pub is_neg : ℤ → Bool
is_neg (pos n) = false
is_neg (negsuc n) = true

-- `(int32_t)w`, for the bit pattern `w` of a `uint32_t`.
abbrev pub to_int32 : ℕ → ℤ
to_int32 w = if ltb w (2 ^ 31) then pos w else negsuc (2 ^ 32 - w - 1)

-- `(uint32_t)n`.
abbrev pub to_uint32 : ℤ → ℕ
to_uint32 (pos n) = n % 2 ^ 32
to_uint32 (negsuc n) = 2 ^ 32 - 1 - n % 2 ^ 32
