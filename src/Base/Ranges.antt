-- ===== src/Base/Ranges.antt =====
-- A fact about every number of a small range, checked by evaluation.
use Prim.Native.Nat.{ℕ, zero, suc, ◌<◌}
use mathlib.Core.Path.{◌≡◌}
use mathlib.Core.Bool.{Bool, true, false}
use native.Mathlib.Omega.{arith}

-- The test on the numbers below the bound, from the largest down to 0.
unfoldable pub passes_below : ℕ → (ℕ → Bool) → Bool
passes_below zero test = true
passes_below (suc bound) test = elim (test bound) [ false ↦ false | true ↦ passes_below bound test ]

-- A test that passes below the bound passes at each number there.
pub passes_at :
    (bound : ℕ) (test : ℕ → Bool) (k : ℕ)
    → passes_below bound test ≡ true
    → k < bound
    → test k ≡ true
unfolding passes_below
passes_at zero test k all below = absurd (omega arith)
passes_at (suc bound) test k all below =
    let earlier = passes_at bound test k in ground (arith, earlier)
