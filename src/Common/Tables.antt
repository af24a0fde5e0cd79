-- ===== src/Common/Tables.antt =====
-- Tables: functions of an index.
use Prim.Native.Nat.{ℕ}
use mathlib.Core.Path.{◌≡◌, refl}
use mathlib.Core.Logic.{◌≢◌}
use mathlib.Core.Bool.{false, true}
use native.Mathlib.Omega.{arith}
use xlinux.Common.Tests.{◌==◌, if◌then◌else◌}

-- A table with one entry replaced.
abbrev pub update {ℓ} : {A : Type ℓ} → (ℕ → A) → ℕ → A → ℕ → A
update f i v j = if j == i then v else f j

pub update_same {ℓ} : {A : Type ℓ} → (f : ℕ → A) (i : ℕ) (v : A) → update f i v i ≡ v
update_same f i v = let same : (i == i) ≡ true = ground arith in rw same refl

pub update_other {ℓ} :
    {A : Type ℓ} → (f : ℕ → A) (i : ℕ) (v : A) (j : ℕ) → j ≢ i → update f i v j ≡ f j
update_other f i v j ne = let other : (j == i) ≡ false = ground arith in rw other refl
