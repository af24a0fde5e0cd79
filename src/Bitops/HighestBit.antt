-- ===== src/Bitops/HighestBit.antt =====
-- The theorem on `fls` of include/log2.h and its lemmas.
use xlinux.Common.{
  bit_and, ℕ, ◌+◌, ◌-◌, ◌*◌, ◌%◌, ◌^◌, ◌≤◌, ◌<◌, ◌≡◌, ◌==◌, false, ltb, arith, Bool-cases, inl, inr,
  ◌∙◌, ap, sym,
}
use xlinux.Common.Bits.{bit_and_high, pow-add_lem}
use native.Mathlib.Nat.{one-le-pow}
use xlinux.Bitops.{fls_step, fls}

-- `y` is `x` shifted left by `32 - r`, nothing lost, and one of its top `k` bits is set.
abbrev Raised : ℕ → ℕ → ℕ × ℕ → Type 0
Raised k x (y, r) = (y ≡ x * 2 ^ (32 - r)) × (y < 2 ^ 32) × (2 ^ (32 - k) ≤ y) × (k ≤ r) × (r ≤ 32)

shift_fits : (y m p top : ℕ) → m * p ≡ top → 0 < p → y < m → y * p < top
shift_fits y m p top e pos h = grind arith

shift_low : (y q p m : ℕ) → q * p ≡ m → q ≤ y → m ≤ y * p
shift_low y q p m e h = grind arith

product : (a b t : ℕ) → a + b ≡ t → 2 ^ a * 2 ^ b ≡ 2 ^ t
product a b t e = sym (pow-add_lem a b) ∙ ap (λ n. 2 ^ n) e

cancel_le : (a b n : ℕ) → 0 < n → a * n ≤ b * n → a ≤ b
cancel_le a b n pos h = elim (Bool-cases (ltb b a)) [
  | inl less ↦ let l : b < a = ground (arith, less) in absurd (grind (arith, l, h, pos))
  | inr more ↦ ground (arith, more)
]

assoc : (a b d : ℕ) → a * b * d ≡ a * (b * d)
assoc a b d = grind arith

kept_large : (y m : ℕ) → 0 < m → 0 < y - y % m → m ≤ y
kept_large y m pos h = elim (Bool-cases (ltb y m)) [
  | inl less ↦ let l : y < m = ground (arith, less) in absurd (grind (arith, l, h, pos))
  | inr more ↦ ground (arith, more)
]

cancel_lt : (a b n : ℕ) → a * n < b * n → a < b
cancel_lt a b n h = elim (Bool-cases (ltb a b)) [
  | inl less ↦ ground (arith, less)
  | inr more ↦ let m : b ≤ a = ground (arith, more) in absurd (grind (arith, m, h))
]

fls_step-Raised : (k x y r : ℕ) → k ≤ 16 → Raised (k + k) x (y, r) → Raised k x (fls_step k (y, r))
unfolding fls_step
fls_step-Raised k x y r most (e, top, low, fits, bound) =
    let p = 2 ^ k in
    let m = 2 ^ (32 - k) in
    let split : 32 - k + k ≡ 32 = omega arith in
    let whole : m * p ≡ 2 ^ 32 = product (32 - k) k 32 split in
    let half : 2 ^ (32 - (k + k)) * p ≡ m = product (32 - (k + k)) k (32 - k) (omega arith) in
    let all : k + (32 - k) ≡ 32 = omega arith in
    let back : 2 ^ (k + (32 - k)) ≡ 2 ^ 32 = ap (λ n. 2 ^ n) all in
    let high = bit_and_high k (32 - k) y (omega (arith, back, top)) in
    let pos = one-le-pow k 2 (omega arith) in
    let pos' = one-le-pow (32 - k) 2 (omega arith) in
    elim (Bool-cases (bit_and y ((2 ^ k - 1) * 2 ^ (32 - k)) == 0)) [
      | inl clear ↦
          let small : y < m = grind (arith, high, clear, pos') in
          let fits' : y * p < 2 ^ 32 = shift_fits y m p (2 ^ 32) whole pos small in
          let value : y * p % 2 ^ 32 ≡ y * p = omega (arith, fits') in
          let sum : 32 - r + k ≡ 32 - (r - k) = omega arith in
          let scale : 2 ^ (32 - (r - k)) ≡ 2 ^ (32 - r) * p =
            sym (ap (λ n. 2 ^ n) sum) ∙ pow-add_lem (32 - r) k in
          let moved : y * p ≡ x * 2 ^ (32 - (r - k)) =
            ap (λ (t : ℕ). t * p) e
            ∙ assoc x (2 ^ (32 - r)) p
            ∙ ap (λ (t : ℕ). x * t) (product (32 - r) k (32 - (r - k)) (omega arith)) in
          rw (clear, value)
            (moved, fits', shift_low y (2 ^ (32 - (k + k))) p m half low, omega arith, omega arith)
      | inr set ↦
          let left : 0 < y - y % m = ground (arith, high, set) in
          let large : m ≤ y = kept_large y m pos' left in rw set (e, top, large, omega arith, bound)
    ]

-- For a 32-bit word, `fls` returns the number of its digits: the least `r` with `x < 2^r`.
pub fls_digits :
    (x : ℕ) → 0 < x → x < 2 ^ 32 → (fls x ≤ 32) × (2 ^ (fls x - 1) ≤ x) × (x < 2 ^ fls x)
unfolding fls
fls_digits x pos top =
    let start : Raised 32 x (x, 32) = (omega arith, top, omega arith, omega arith, omega arith) in
    let s1 = fls_step-Raised 16 x x 32 (omega arith) start in
    let s2 = fls_step-Raised 8 x _ _ (omega arith) s1 in
    let s3 = fls_step-Raised 4 x _ _ (omega arith) s2 in
    let s4 = fls_step-Raised 2 x _ _ (omega arith) s3 in
    let s5 = fls_step-Raised 1 x _ _ (omega arith) s4 in
    let other : (x == 0) ≡ false = ground arith in rw other (digits x _ _ s5)
  where
    digits : (x y r : ℕ) → Raised 1 x (y, r) → (r ≤ 32) × (2 ^ (r - 1) ≤ x) × (x < 2 ^ r)
    digits x y r (e, top, low, fits, bound) =
        let n = 2 ^ (32 - r) in
        let whole = product r (32 - r) 32 (omega arith) in
        let half = product (r - 1) (32 - r) 31 (omega arith) in
        let pos' = one-le-pow (32 - r) 2 (omega arith) in
        (
          bound,
          cancel_le (2 ^ (r - 1)) x n pos' (omega (arith, half, e, low)),
          cancel_lt x (2 ^ r) n (omega (arith, whole, e, top)),
        )
