-- ===== src/Bitops/LowestBit.antt =====
-- The theorem on `__ffs` of include/log2.h and its lemmas.
use xlinux.Common.{
  ℕ, ◌+◌, ◌*◌, ◌/◌, ◌%◌, ◌^◌, ◌≤◌, ◌<◌, ◌≡◌, ◌≢◌, ◌==◌, arith, Bool-cases, inl, inr, refl, ◌∙◌, ap,
}
use xlinux.Common.Bits.{bit_and_low, pow-add_lem}
use native.Mathlib.Nat.{one-le-pow}
use xlinux.Bitops.{ffs_step, ffs}

-- `word` is `x` shifted right by `num`, nothing lost, and one of its low `k` bits is set.
abbrev pub Found : ℕ → ℕ → ℕ × ℕ → Type 0
Found k x (num, word) = (x ≡ word * 2 ^ num) × (word % 2 ^ k ≢ 0)

halve_scale : (word num k : ℕ) → word % 2 ^ k ≡ 0 → word * 2 ^ num ≡ word / 2 ^ k * 2 ^ (num + k)
halve_scale word num k h =
    let e : word ≡ word / 2 ^ k * 2 ^ k = grind arith in
    rw pow-add_lem (ap (λ (w : ℕ). w * 2 ^ num) e ∙ grind arith)

module _ (k : ℕ)
    (split : (w : ℕ) → w % 2 ^ (k + k) ≢ 0 → w % 2 ^ k ≡ 0 → w / 2 ^ k % 2 ^ k ≢ 0) where
  pub ffs_step-Found :
      (x : ℕ) (s : ℕ × ℕ)
      → Found (k + k) x s
      → Found k x (ffs_step k s) × ((ffs_step k s).0 ≤ s.0 + k)
  unfolding ffs_step
  ffs_step-Found x (num, word) (e, ne) = rw bit_and_low (elim (Bool-cases (word % 2 ^ k == 0)) [
    | inl clear ↦
        let z : word % 2 ^ k ≡ 0 = ground arith in
        rw clear ((e ∙ halve_scale word num k z, split word ne z), omega arith)
    | inr hit ↦ rw hit ((e, ground arith), omega arith)
  ])

pub multiple_of : (x w m : ℕ) → 0 < m → x ≡ w * m → (x % m ≡ 0) × (x / m ≡ w)
multiple_of x w m h e = rw e (grind arith, grind arith)

-- For a word that is not 0, `__ffs` returns the index of its lowest set bit: below 64, with zeros
-- below it and a one at it.
pub ffs_lowest :
    (x : ℕ) → 0 < x → x < 2 ^ 64 → (ffs x < 64) × (x % 2 ^ ffs x ≡ 0) × (x / 2 ^ ffs x % 2 ≡ 1)
unfolding ffs
ffs_lowest x pos top =
    let start : Found 64 x (0, x) = (omega arith, omega arith) in
    let s1 = ffs_step-Found 32 (λ w. omega arith) x (0, x) start in
    let s2 = ffs_step-Found 16 (λ w. omega arith) x _ s1.0 in
    let s3 = ffs_step-Found 8 (λ w. omega arith) x _ s2.0 in
    let s4 = ffs_step-Found 4 (λ w. omega arith) x _ s3.0 in
    let s5 = ffs_step-Found 2 (λ w. omega arith) x _ s4.0 in
    let s6 = ffs_step-Found 1 (λ w. omega arith) x _ s5.0 in
    let m = multiple_of x _ _ (one-le-pow _ 2 (omega arith)) s6.0.0 in
    (omega arith, m.0, rw m.1 (omega (arith, s6.0.1)))

pub ffs_zero : ffs 0 ≡ 63
unfolding ffs ffs_step
ffs_zero = refl
