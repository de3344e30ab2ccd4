-- ===== src/Common/Tables.antt =====
-- Functions on bytes and smaller numbers, compared by evaluation.
use Prim.Native.Nat.{ℕ, zero, suc, ◌<◌}
use mathlib.Core.Path.{◌≡◌}
use mathlib.Core.Bool.{Bool, true, false}
use native.Mathlib.Omega.{arith}
use kovri.Common.Tests.{◌==◌, if◌then◌else◌}

module _ (f g : ℕ → ℕ) where
  unfoldable pub agree_upto : ℕ → Bool
  agree_upto zero = true
  agree_upto (suc bound) = if f bound == g bound then agree_upto bound else false

  -- Two functions with equal tables are equal on every number below the bound.
  pub eq_of_table : (bound i : ℕ) → agree_upto bound ≡ true → i < bound → f i ≡ g i
  unfolding agree_upto
  eq_of_table zero i t h = absurd (omega arith)
  eq_of_table (suc bound) i t h = ground (arith, eq_of_table bound i)
