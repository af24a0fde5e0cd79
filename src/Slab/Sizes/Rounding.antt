-- ===== src/Slab/Sizes/Rounding.antt =====
-- slab/slab.c: the geometry that `__kmem_cache_create` finds.
use xlinux.Common.{
  ℕ, zero, suc, ◌+◌, ◌-◌, ◌*◌, ◌/◌, ◌%◌, ◌^◌, ◌≤◌, ◌<◌, ◌≡◌, inl, inr, ltb, leb, if◌then◌else◌,
  arith, ap, sym, ◌∙◌, Bool-cases, bit_and,
}
use xlinux.Common.Bits.{bit_and_high, pow-add_lem}
use xlinux.Common.Buddies.{Aligned}
use native.Mathlib.Nat.{one-le-pow, pow-le-pow_right}
use xlinux.Slab.Sizes.{align, object_room}

-- The least multiple of a power of two that is not below.
record Rounded (k x r : ℕ) : Type 0 where
  above : x ≤ r
  near : r < x + 2 ^ k
  aligned : Aligned k r

split_pow : (k n : ℕ) → k ≤ n → 2 ^ (n - k) * 2 ^ k ≡ 2 ^ n
split_pow k n h =
    let e : n - k + k ≡ n = omega arith in sym (pow-add_lem (n - k) k) ∙ ap (λ n. 2 ^ n) e

less_one : (a p : ℕ) → (a - 1) * p ≡ a * p - p
less_one zero p = omega arith
less_one (suc a) p = let e : suc a - 1 ≡ a = omega arith in ap (λ (t : ℕ). t * p) e ∙ grind arith

down : (y p : ℕ) → 0 < p → y - y % p ≡ y / p * p
down y p h = grind arith

low_part : (y p : ℕ) → 0 < p → y % p < p
low_part y p h = grind arith

align-Rounded : (k x : ℕ) → k ≤ 31 → x + 2 ^ k ≤ 2 ^ 32 → Rounded k x (align x (2 ^ k))
unfolding align
align-Rounded k x few fits =
    let p = 2 ^ k in
    let pos = one-le-pow k 2 (omega arith) in
    let y = x + (p - 1) in
    let whole = split_pow k 32 (omega arith) in
    let mask : 2 ^ 32 - p ≡ (2 ^ (32 - k) - 1) * p =
      omega (arith, less_one (2 ^ (32 - k)) p, whole) in
    let small : y % 2 ^ 32 ≡ y = omega (arith, pos) in
    let sum : 32 - k + k ≡ 32 = omega arith in
    let top : 2 ^ (32 - k + k) ≡ 2 ^ 32 = ap (λ n. 2 ^ n) sum in
    let masked : bit_and (y % 2 ^ 32) (2 ^ 32 - p) ≡ y - y % p =
      ap (λ t. bit_and t (2 ^ 32 - p)) small
      ∙ ap (bit_and y) mask
      ∙ bit_and_high (32 - k) k y (omega (arith, top, pos)) in
    let part = low_part y p pos in
    record {
      above = omega (arith, masked, part, pos);
      near = omega (arith, masked, part, pos);
      aligned = (y / p, masked ∙ down y p pos);
    }

-- A bound that is a multiple stays a bound.
still_below : (m q p x : ℕ) → x ≤ q * p → m * p < x + p → m * p ≤ q * p
still_below m q p x h near = elim (Bool-cases (leb m q)) [
  | inl le ↦ let l : m ≤ q = ground (arith, le) in grind (arith, l)
  | inr more ↦ let l : suc q ≤ m = ground (arith, more) in absurd (grind (arith, l, h, near))
]

Rounded-below : (k n x r : ℕ) → k ≤ n → x ≤ 2 ^ n → Rounded k x r → r ≤ 2 ^ n
Rounded-below k n x r le h ok =
    let (m, e) = ok.aligned in
    let whole = split_pow k n le in
    let b =
      still_below m (2 ^ (n - k)) (2 ^ k) x (omega (arith, whole)) (omega (arith, ok.near, e)) in
    omega (arith, b, e, whole)

-- Room for an object: a multiple of the alignment, at least 16.
pub record Roomy (object_size k size : ℕ) : Type 0 where
  pub above : object_size ≤ size
  pub least : 16 ≤ size
  pub bounded : size ≤ 2 ^ 22
  pub aligned : Aligned k size

object_room-at :
    (k a object_size : ℕ)
    → a ≡ 2 ^ k
    → 3 ≤ k
    → k ≤ 22
    → object_size ≤ 2 ^ 22
    → Roomy object_size k (
        if ltb (align (align object_size 8) a) 16
        then align 16 a
        else align (align object_size 8) a)
object_room-at k a object_size is low high h = rw is (
    let power : 2 ^ k ≤ 2 ^ 22 = pow-le-pow_right (omega arith) high in
    let word = align-Rounded 3 object_size (omega arith) (omega (arith, power)) in
    let word_most = Rounded-below 3 22 object_size (align object_size 8) (omega arith) h word in
    let r = align-Rounded k (align object_size 8) (omega arith) (omega (arith, power, word_most)) in
    let r_most = Rounded-below k 22 (align object_size 8) _ high word_most r in
    let r16 = align-Rounded k 16 (omega arith) (omega (arith, power)) in
    let r16_most = Rounded-below k 22 16 _ high (omega arith) r16 in
    elim (Bool-cases (ltb (align (align object_size 8) (2 ^ k)) 16)) [
      | inl small ↦ rw small (record {
        above = ground (arith, small, r.above, word.above, r16.above);
        least = r16.above;
        bounded = r16_most;
        aligned = r16.aligned;
      })
      | inr large ↦ rw large (record {
        above = omega (arith, r.above, word.above);
        least = ground (arith, large);
        bounded = r_most;
        aligned = r.aligned;
      })
    ])

pub object_room-Roomy :
    (k object_size : ℕ)
    → 3 ≤ k
    → k ≤ 22
    → object_size ≤ 2 ^ 22
    → Roomy object_size k (object_room object_size (2 ^ k))
unfolding object_room
object_room-Roomy k object_size low high h =
    let eight : 2 ^ 3 ≤ 2 ^ k = pow-le-pow_right (omega arith) low in
    object_room-at k (if ltb 8 (2 ^ k) then 2 ^ k else 8) object_size (ground (arith, eight)) low
      high h
