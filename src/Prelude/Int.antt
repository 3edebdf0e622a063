-- ===== src/Prelude/Int.antt =====
-- Signed integers over the native numbers, under the library's names (its ℤ stands on the unary ℕ),
-- and the conversions of the program's fixed widths.
use Prim.Native.Nat.{ℕ, ◌-◌, ◌%◌, ◌<◌}
use mathlib.Core.Path.{◌≡◌}
use mathlib.Core.Bool.{Bool, true, false}
use native.Mathlib.Omega.{arith}
use sim_search.Prelude.Tests.{ltb, if◌then◌else◌}

-- `negsuc n` is -(n + 1).
pub data ℤ : Type 0 where
  pos : ℕ → ℤ
  negsuc : ℕ → ℤ

abbrev pub is_negative : ℤ → Bool
is_negative (pos n) = false
is_negative (negsuc n) = true

-- The index that a non-negative integer stands for; the program tests the sign first.
abbrev pub to_index : ℤ → ℕ
to_index (pos n) = n
to_index (negsuc n) = 0

-- The conversion of a size to `int16_t`: two's complement in 16 bits.
unfoldable pub to_int16 : ℕ → ℤ
to_int16 n = let r = n % 65536 in if ltb r 32768 then pos r else negsuc (65535 - r)

pub to_int16-pos : (n : ℕ) → n < 32768 → to_int16 n ≡ pos n
unfolding to_int16
to_int16-pos n h = ground arith
