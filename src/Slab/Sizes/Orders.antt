-- ===== src/Slab/Sizes/Orders.antt =====
-- slab/slab.c: the least order of pages with an object, `calculate_slab_order`.
use xlinux.Common.{
  ℕ, zero, suc, ◌+◌, ◌*◌, ◌/◌, ◌^◌, ◌≤◌, ◌<◌, ◌≡◌, ◌⊎◌, inl, inr, Bool, true, false, some, ltb,
  ◌==◌, arith, refl, ap, ◌∙◌, Bool-cases,
}
use native.Mathlib.Nat.{pow-suc}
use xlinux.Slab.{page_size}
use xlinux.Slab.Sizes.{cache_estimate, slab_order, calculate_slab_order}

-- The bytes an object takes: on a slab with its index.
abbrev pub taken : ℕ → Bool → ℕ
taken size true = size
taken size false = size + 1

abbrev pub pages : ℕ → ℕ
pages g = page_size * 2 ^ g

cache_estimate_taken :
    (g size : ℕ) (own : Bool) → cache_estimate g size own ≡ pages g / taken size own
unfolding cache_estimate
cache_estimate_taken g size true = refl
cache_estimate_taken g size false = refl

quotient_low : (a s : ℕ) → 0 < s → s * (a / s) ≤ a
quotient_low a s h = grind arith

quotient_zero : (a s : ℕ) → 0 < s → a / s ≡ 0 → a < s
quotient_zero a s h z = grind arith

quotient_one : (a s : ℕ) → 0 < s → a < 2 * s → a / s ≤ 1
quotient_one a s h less = grind arith

quotient_some : (a s : ℕ) → 0 < s → s ≤ a → 0 < a / s
quotient_some a s h le = grind arith

-- What the search finds: the objects fit, and on more than a page there is one.
pub record Order (size : ℕ) (own : Bool) (num g : ℕ) : Type 0 where
  pub inhabited : 0 < num
  pub few : num < 2 ^ 8
  pub fits : taken size own * num ≤ pages g
  pub one : (num ≡ 1) ⊎ (g ≡ 0)

twice_pages : (g : ℕ) → pages (suc g) ≡ 2 * pages g
twice_pages g = omega (arith, pow-suc 2 g)

slab_order-skip :
    (n g size : ℕ) (own : Bool)
    → (cache_estimate g size own == 0) ≡ true
    → slab_order (suc n) g size own ≡ slab_order n (suc g) size own
unfolding slab_order
slab_order-skip n g size own e = rw (e, slab_order) refl

slab_order-hit :
    (n g size : ℕ) (own : Bool)
    → (cache_estimate g size own == 0) ≡ false
    → ltb 255 (cache_estimate g size own) ≡ false
    → slab_order (suc n) g size own ≡ some (cache_estimate g size own, g)
unfolding slab_order
slab_order-hit n g size own e f = rw (e, f, slab_order) refl

first_page : (s : ℕ) → 16 < s → 4096 / s ≤ 240
first_page s h = grind arith

-- The search at an order that is the first or whose predecessor was too small.
module _ (size : ℕ) (own : Bool) (low : 16 < taken size own) where
  few_fit :
      (g : ℕ)
      → (g ≡ 0) ⊎ (pages g < 2 * taken size own)
      → (pages g / taken size own ≤ 240) × ((pages g / taken size own ≤ 1) ⊎ (g ≡ 0))
  few_fit g (inl z) =
      let e : pages g ≡ 4096 = ap pages z in
      let p = first_page (taken size own) low in
      let q = ap (λ (t : ℕ). t / taken size own) e in (omega (arith, p, q), inr z)
  few_fit g (inr near) =
      let one = quotient_one (pages g) (taken size own) (omega arith) near in
      (omega (arith, one), inl one)

  hit-Order :
      (n g : ℕ)
      → (g ≡ 0) ⊎ (pages g < 2 * taken size own)
      → (cache_estimate g size own == 0) ≡ false
      → (slab_order (suc n) g size own ≡ some (cache_estimate g size own, g))
        × Order size own (cache_estimate g size own) g
  hit-Order n g before some_fit =
      let num = cache_estimate_taken g size own in
      let (few, one) = few_fit g before in
      let fits = quotient_low (pages g) (taken size own) (omega arith) in
      (
        slab_order-hit n g size own some_fit (ground (arith, num, few)),
        record {
          inhabited = ground (arith, some_fit);
          few = omega (arith, num, few);
          fits = rw num fits;
          one = elim one [
            | inl one ↦ inl (ground (arith, num, one, some_fit))
            | inr first ↦ inr first
          ];
        },
      )

  slab_order-Order :
      (n g : ℕ)
      → n + g ≡ 11
      → taken size own ≤ pages 10
      → (g ≡ 0) ⊎ (pages g < 2 * taken size own)
      → (num : ℕ) × (g' : ℕ) × (slab_order n g size own ≡ some (num, g')) × Order size own num g'
  slab_order-Order zero g at top before =
      let e : g ≡ 11 = omega arith in
      let p : pages g ≡ pages 11 = ap pages e in
      absurd (elim before [ inl z ↦ omega (arith, e, z) | inr near ↦ omega (arith, p, near, top) ])
  slab_order-Order (suc n) g at top before = elim (Bool-cases (cache_estimate g size own == 0)) [
    | inl none_fit ↦
        let num = cache_estimate_taken g size own in
        let less =
          quotient_zero (pages g) (taken size own) (omega arith) (ground (arith, none_fit, num)) in
        let (num, g', run, o) =
          slab_order-Order n (suc g) (omega arith) top (inr (omega (arith, less, twice_pages g))) in
        (num, g', slab_order-skip n g size own none_fit ∙ run, o)
    | inr some_fit ↦
        let (run, o) = hit-Order n g before some_fit in (cache_estimate g size own, g, run, o)
  ]

  pub calculate_slab_order-Order :
      taken size own ≤ pages 10
      → (num : ℕ) × (g : ℕ) × (calculate_slab_order size own ≡ some (num, g)) × Order size own num g
  unfolding calculate_slab_order
  calculate_slab_order-Order top = slab_order-Order 11 0 refl top (inl refl)
