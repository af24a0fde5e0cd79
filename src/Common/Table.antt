-- ===== src/Common/Table.antt =====
-- A claim about every number of a small range, checked by evaluation.
use Prim.Native.Nat.{ℕ, zero, suc, ◌<◌}
use mathlib.Core.Path.{◌≡◌}
use mathlib.Core.Bool.{Bool, true, false}
use native.Mathlib.Omega.{arith}
use xlinux.Common.Tests.{if◌then◌else◌, ◌==◌, Bool-cases}
use mathlib.Core.Logic.{inl, inr}

-- The test passes at all the numbers below the bound.
unfoldable pub passes : (ℕ → Bool) → ℕ → Bool
passes test zero = true
passes test (suc bound) = let lower = passes test bound in if test bound then lower else false

-- A table that passes answers for each of its entries.
pub passes_entry :
    (test : ℕ → Bool) (bound i : ℕ) → i < bound → passes test bound ≡ true → test i ≡ true
unfolding passes
passes_entry test (suc bound) i below table = elim (Bool-cases (i == bound)) [
  | inl last ↦ let e : i ≡ bound = ground arith in rw e (ground arith)
  | inr earlier ↦ passes_entry test bound i (ground arith) (ground arith)
]
passes_entry test zero i below table = absurd (omega arith)
