-- ===== src/Prelude/Tables.antt =====
-- A test that every number of a small range passes, by evaluation.
use Prim.Native.Nat.{ℕ, zero, suc, ◌<◌}
use mathlib.Core.Path.{◌≡◌}
use mathlib.Core.Bool.{Bool, true, false}
use native.Mathlib.Omega.{arith}
use rust_media_libs.Prelude.Tests.{if◌then◌else◌}

-- No number below the bound fails the test.
unfoldable pub passes : (ℕ → Bool) → ℕ → Bool
passes test zero = true
passes test (suc bound) = if test bound then passes test bound else false

pub passes_below :
    (test : ℕ → Bool) (bound number : ℕ)
    → number < bound
    → passes test bound ≡ true
    → test number ≡ true
unfolding passes
passes_below test zero number small all = absurd (omega arith)
passes_below test (suc bound) number small all = ground (arith, passes_below test bound number)
