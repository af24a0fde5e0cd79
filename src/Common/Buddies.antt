-- ===== src/Common/Buddies.antt =====
-- The buddy of an aligned block, by exclusive or, and the block that the two make, by and.
use Prim.Native.Nat.{
  ℕ, zero, suc, ◌+◌, ◌*◌, ◌/◌, ◌^◌, ◌≤◌, bit_and, bit_xor, bit_xor-bitwise, bit_and-bitwise,
}
use mathlib.Core.Path.{◌≡◌, refl, ap}
use mathlib.Core.Logic.{◌⊎◌, inl, inr}
use native.Mathlib.Omega.{arith}
use native.Mathlib.Nat.{pow-suc, one-le-pow}
use xlinux.Common.Bits.{bit_and_step, bit_xor_step, bit_and_fields, bit_and_self}

zero-bit_xor : (b : ℕ) → bit_xor 0 b ≡ b
zero-bit_xor b = bit_xor-bitwise 0 b

bit_xor-zero_fuel : (n a : ℕ) → a ≤ n → bit_xor a 0 ≡ a
bit_xor-zero_fuel n zero h = zero-bit_xor 0
bit_xor-zero_fuel zero (suc a) h = absurd (omega arith)
bit_xor-zero_fuel (suc n) (suc a) h =
    ground (arith, bit_xor_step (suc a) 0, bit_xor-zero_fuel n (suc a / 2) (omega arith))

twice : (q k : ℕ) → q * 2 ^ suc k ≡ 2 * (q * 2 ^ k)
twice q k = omega (arith, ap (λ (t : ℕ). q * t) (pow-suc 2 k))

double_xor : (q : ℕ) → bit_xor (2 * q) 1 ≡ 2 * q + 1
double_xor q = ground (arith, bit_xor_step (2 * q) 1, bit_xor-zero_fuel q q (omega arith))

odd_xor : (q : ℕ) → bit_xor (2 * q + 1) 1 ≡ 2 * q
odd_xor q = ground (arith, bit_xor_step (2 * q + 1) 1, bit_xor-zero_fuel q q (omega arith))

double_and : (q : ℕ) → bit_and (2 * q + 1) (2 * q) ≡ 2 * q
double_and q = ground (arith, bit_and_step (2 * q + 1) (2 * q), bit_and_self q)

odd_and : (q : ℕ) → bit_and (2 * q) (2 * q + 1) ≡ 2 * q
odd_and q = ground (arith, bit_and_step (2 * q) (2 * q + 1), bit_and_self q)

scale_xor : (k m : ℕ) → bit_xor (m * 2 ^ k) (2 ^ k) ≡ bit_xor m 1 * 2 ^ k
scale_xor zero m = let e : m * 2 ^ 0 ≡ m = omega arith in rw e (omega arith)
scale_xor (suc k) m = ground (
  arith,
  bit_xor_step (m * 2 ^ suc k) (2 ^ suc k),
  twice m k,
  twice (bit_xor m 1) k,
  pow-suc 2 k,
  scale_xor k m,
)

scale_and : (k m n : ℕ) → bit_and (m * 2 ^ k) (n * 2 ^ k) ≡ bit_and m n * 2 ^ k
scale_and k m n =
    let e : m * 2 ^ k + 0 ≡ m * 2 ^ k = omega arith in
    let f : n * 2 ^ k + 0 ≡ n * 2 ^ k = omega arith in
    let fields : bit_and (m * 2 ^ k + 0) (n * 2 ^ k + 0) ≡ bit_and m n * 2 ^ k + bit_and 0 0 =
      bit_and_fields k m n 0 0 (one-le-pow k 2 (omega arith)) (one-le-pow k 2 (omega arith)) in
    omega (
      arith,
      ap (λ x. bit_and x (n * 2 ^ k + 0)) e,
      ap (bit_and (m * 2 ^ k)) f,
      fields,
      bit_and-bitwise 0 0,
    )

abbrev pub Aligned : ℕ → ℕ → Type 0
Aligned k p = (m : ℕ) × (p ≡ m * 2 ^ k)

-- The block at `b` is the other half of the aligned block of twice the size at `c`.
pub data Pair (k p b c : ℕ) : Type 0 where
  upper : b ≡ p + 2 ^ k → c ≡ p → Pair k p b c
  lower : p ≡ b + 2 ^ k → c ≡ b → Pair k p b c

-- The buddy of an aligned block, and the aligned block that they make together.
pub buddies :
    (k p : ℕ)
    → Aligned k p
    → Pair k p (bit_xor p (2 ^ k)) (bit_and (bit_xor p (2 ^ k)) p)
      × Aligned (suc k) (bit_and (bit_xor p (2 ^ k)) p)
buddies k p (m, e) =
    rw (e, scale_xor k m)
      (elim (half m) [
        | inl (q, even) ↦
            rw (even, double_xor q, scale_and k (2 * q + 1) (2 * q), double_and q)
              (upper (grind arith) refl, (q, omega (arith, twice q k)))
        | inr (q, odd) ↦
            rw (odd, odd_xor q, scale_and k (2 * q) (2 * q + 1), odd_and q)
              (lower (grind arith) refl, (q, omega (arith, twice q k)))
      ])
  where
    half : (m : ℕ) → ((q : ℕ) × (m ≡ 2 * q)) ⊎ ((q : ℕ) × (m ≡ 2 * q + 1))
    half zero = inl (0, refl)
    half (suc m) = elim (half m) [
      | inl (q, even) ↦ inr (q, omega arith)
      | inr (q, odd) ↦ inl (suc q, omega arith)
    ]
