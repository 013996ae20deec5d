-- ===== src/Base/Table.antt =====
-- A test on every number below a bound, by evaluation.
use Prim.Native.Nat.{ℕ, zero, suc, ◌<◌}
use mathlib.Core.Path.{◌≡◌}
use mathlib.Core.Bool.{Bool, true, ◌&&◌}
use native.Mathlib.Omega.{arith}

module _ (test : ℕ → Bool) where
  unfoldable pub each_below : ℕ → Bool
  each_below zero = true
  each_below (suc bound) = test bound && each_below bound

  pub each_below_lem : (k : ℕ) (bound : ℕ) → k < bound → each_below bound ≡ true → test k ≡ true
  unfolding each_below
  each_below_lem k zero lt passed = absurd (omega arith)
  each_below_lem k (suc bound) lt passed = ground (arith, each_below_lem k bound)
