-- ===== src/Prelude/Retry.antt =====
-- Loops that repeat a step until it gives a result, on the rounds that are left.
use Prim.Native.Nat.{ℕ, zero, suc}
use mathlib.Core.Option.{Option, none, some}

module _ {W A : Type 0} (step : W → W × Option A) where
  -- none: the rounds are used up.
  unfoldable pub retry : ℕ → W → W × Option A
  retry zero w = (w, none)
  retry (suc rounds) w =
      let (w', result) = step w in elim result [ some a ↦ (w', some a) | none ↦ retry rounds w' ]
