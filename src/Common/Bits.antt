-- ===== src/Common/Bits.antt =====
-- The bitwise operations digit by digit, and masks as arithmetic.
use Prim.Native.Nat.{
  ℕ, zero, suc, ◌+◌, ◌-◌, ◌*◌, ◌/◌, ◌%◌, ◌^◌, ◌≤◌, ◌<◌, min, bit_and, bit_xor, digits, differ,
  bit_and-bitwise, bit_xor-bitwise,
}
use mathlib.Core.Path.{◌≡◌, refl, sym, ap, ◌∙◌}
use native.Mathlib.Omega.{arith}
use native.Mathlib.Nat.{pow-suc, one-le-pow}

-- Any count of digits that covers the first number gives the same result.
module _ (base : ℕ → ℕ) (f : ℕ → ℕ → ℕ) where
  digits_count : (k l x y : ℕ) → x ≤ k → x ≤ l → digits base f k x y ≡ digits base f l x y
  digits_count zero zero x y g h = refl
  digits_count zero (suc l) zero y g h = refl
  digits_count (suc k) zero zero y g h = refl
  digits_count (suc k) (suc l) zero y g h = refl
  digits_count (suc k) (suc l) (suc x) y g h =
      ap (λ (t : ℕ). t * 2 + f (suc x % 2) (y % 2))
        (digits_count k l (suc x / 2) (y / 2) (omega arith) (omega arith))
  digits_count zero (suc l) (suc x) y g h = absurd (omega arith)
  digits_count (suc k) zero (suc x) y g h = absurd (omega arith)

  -- The lowest digit apart.
  digits_lowest :
      (x y : ℕ)
      → digits base f (suc x) (suc x) y
        ≡ digits base f (suc x / 2) (suc x / 2) (y / 2) * 2 + f (suc x % 2) (y % 2)
  digits_lowest x y =
      ap (λ (t : ℕ). t * 2 + f (suc x % 2) (y % 2))
        (digits_count x (suc x / 2) (suc x / 2) (y / 2) (omega arith) (omega arith))

pub bit_and_step : (x y : ℕ) → bit_and x y ≡ bit_and (x / 2) (y / 2) * 2 + min (x % 2) (y % 2)
bit_and_step zero y = omega (arith, bit_and-bitwise 0 y, bit_and-bitwise 0 (y / 2))
bit_and_step (suc x) y =
    bit_and-bitwise (suc x) y
    ∙ digits_lowest (λ _. zero) min x y
    ∙ ap (λ (t : ℕ). t * 2 + min (suc x % 2) (y % 2)) (sym (bit_and-bitwise (suc x / 2) (y / 2)))

differ_digits : (x y : ℕ) → x < 2 → y < 2 → differ x y ≡ (x + y) % 2
differ_digits zero y p q = omega arith
differ_digits (suc zero) zero p q = refl
differ_digits (suc zero) (suc zero) p q = refl
differ_digits (suc zero) (suc (suc y)) p q = absurd (omega arith)
differ_digits (suc (suc x)) y p q = absurd (omega arith)

pub bit_xor_step : (x y : ℕ) → bit_xor x y ≡ bit_xor (x / 2) (y / 2) * 2 + (x % 2 + y % 2) % 2
bit_xor_step zero y = omega (arith, bit_xor-bitwise 0 y, bit_xor-bitwise 0 (y / 2))
bit_xor_step (suc x) y = omega (
  arith,
  bit_xor-bitwise (suc x) y,
  digits_lowest (λ y. y) differ x y,
  bit_xor-bitwise (suc x / 2) (y / 2),
  differ_digits (suc x % 2) (y % 2) (omega arith) (omega arith),
)

twice : (q k : ℕ) → q * 2 ^ suc k ≡ 2 * (q * 2 ^ k)
twice q k = omega (arith, ap (λ (t : ℕ). q * t) (pow-suc 2 k))

pub pow-add_lem : (n k : ℕ) → 2 ^ (n + k) ≡ 2 ^ n * 2 ^ k
pow-add_lem n zero = let e : n + 0 ≡ n = omega arith in rw e (omega arith)
pow-add_lem n (suc k) =
    let e : n + suc k ≡ suc (n + k) = omega arith in
    rw (e, pow-suc 2 (n + k), pow-suc 2 k, pow-add_lem n k) (grind arith)

-- Fields of `k` bits do not mix.
pub bit_and_fields :
    (k q m r s : ℕ)
    → r < 2 ^ k
    → s < 2 ^ k
    → bit_and (q * 2 ^ k + r) (m * 2 ^ k + s) ≡ bit_and q m * 2 ^ k + bit_and r s
bit_and_fields zero q m r s g h =
    let e : q * 2 ^ 0 + r ≡ q = omega arith in
    let f : m * 2 ^ 0 + s ≡ m = omega arith in
    let r0 : r ≡ 0 = omega arith in
    let both : bit_and r s ≡ 0 = rw r0 (bit_and-bitwise 0 s) in rw (e, f) (omega (arith, both))
bit_and_fields (suc k) q m r s g h = ground (
  arith,
  bit_and_step (q * 2 ^ suc k + r) (m * 2 ^ suc k + s),
  bit_and_step r s,
  twice q k,
  twice m k,
  twice (bit_and q m) k,
  pow-suc 2 k,
  bit_and_fields k q m (r / 2) (s / 2) (omega (arith, pow-suc 2 k)) (omega (arith, pow-suc 2 k)),
)

-- Ones keep a number of as many bits.
pub bit_and-ones : (k r : ℕ) → r < 2 ^ k → bit_and r (2 ^ k - 1) ≡ r
bit_and-ones zero r h = let r0 : r ≡ 0 = omega arith in rw r0 (bit_and-bitwise 0 0)
bit_and-ones (suc k) r h = ground (
  arith,
  bit_and_step r (2 ^ suc k - 1),
  pow-suc 2 k,
  one-le-pow k 2,
  bit_and-ones k (r / 2) (omega (arith, pow-suc 2 k)),
)

pub bit_and_self : (r : ℕ) → bit_and r r ≡ r
bit_and_self r = below r r (omega arith)
  where
    below : (n r : ℕ) → r ≤ n → bit_and r r ≡ r
    below n zero h = bit_and-bitwise 0 0
    below zero (suc r) h = absurd (omega arith)
    below (suc n) (suc r) h =
        ground (arith, bit_and_step (suc r) (suc r), below n (suc r / 2) (omega arith))

zero-right : (q : ℕ) → bit_and q 0 ≡ 0
zero-right q = below q q (omega arith)
  where
    below : (n q : ℕ) → q ≤ n → bit_and q 0 ≡ 0
    below n zero h = bit_and-bitwise 0 0
    below zero (suc q) h = absurd (omega arith)
    below (suc n) (suc q) h =
        omega (arith, bit_and_step (suc q) 0, below n (suc q / 2) (omega arith))

-- `x & (2^k - 1)` keeps the low `k` bits.
pub bit_and_low : (k x : ℕ) → bit_and x (2 ^ k - 1) ≡ x % 2 ^ k
bit_and_low k x = ground (
  arith,
  one-le-pow k 2,
  bit_and_fields k (x / 2 ^ k) 0 (x % 2 ^ k) (2 ^ k - 1),
  zero-right (x / 2 ^ k),
  bit_and-ones k (x % 2 ^ k),
)

-- `x & ~(2^k - 1)` on a word of `n + k` bits clears the low `k` bits.
pub bit_and_high : (n k x : ℕ) → x < 2 ^ (n + k) → bit_and x ((2 ^ n - 1) * 2 ^ k) ≡ x - x % 2 ^ k
bit_and_high n k x h =
    let fits : x / 2 ^ k < 2 ^ n = grind (arith, one-le-pow k 2, pow-add_lem n k) in
    ground (
      arith,
      one-le-pow k 2,
      bit_and_fields k (x / 2 ^ k) (2 ^ n - 1) (x % 2 ^ k) 0,
      zero-right (x % 2 ^ k),
      bit_and-ones n (x / 2 ^ k) fits,
    )
