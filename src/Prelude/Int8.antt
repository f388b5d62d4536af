-- ===== src/Prelude/Int8.antt =====
-- Signed numbers: the bytes of the intermediate code, which are `int8_t`, and the conversions of `int`
-- and `int64_t`.
use Prim.Native.Nat.{ℕ, ◌-◌, ◌%◌, ◌^◌, ◌<◌}
use mathlib.Core.Path.{◌≡◌}
use native.Mathlib.Omega.{arith}
use l5lunos.Prelude.Tests.{ltb, if◌then◌else◌}

-- `negsuc n` is -(n + 1).
pub data ℤ : Type 0 where
  pos : ℕ → ℤ
  negsuc : ℕ → ℤ

-- The conversion of an unsigned value to `int8_t`.
unfoldable pub to_i8 : ℕ → ℤ
to_i8 n = if ltb (n % 256) 128 then pos (n % 256) else negsuc (255 - n % 256)

pub to_i8-pos : (n : ℕ) → n < 128 → to_i8 n ≡ pos n
unfolding to_i8
to_i8-pos n h = ground arith

-- The 32 bits of an `int`, read as a signed number.
unfoldable pub to_int : ℕ → ℤ
to_int n = if ltb n (2 ^ 31) then pos n else negsuc (2 ^ 32 - 1 - n)

-- The conversion of an `int64_t` to `uint64_t`.
unfoldable pub to_u64 : ℤ → ℕ
to_u64 (pos n) = n % 2 ^ 64
to_u64 (negsuc n) = 2 ^ 64 - 1 - n % 2 ^ 64
