-- ===== src/Slab/Sizes/Kmalloc.antt =====
-- slab/slab.c and include/slab.h: the cache that `kmalloc` takes an object from.
use xlinux.Common.{
  List, ◌&&◌, ℕ, zero, suc, ◌+◌, ◌-◌, ◌^◌, ◌≤◌, ◌<◌, ◌≡◌, ◌⊎◌, inl, inr, Bool, true, false, Option,
  none, some, ltb, leb, ◌==◌, if◌then◌else◌, arith, refl, ap, sym, ◌∙◌, Bool-cases,
}
use xlinux.Common.Table.{passes, passes_entry}
use native.Mathlib.Nat.{pow-le-pow_right}
use xlinux.Bitops.{fls}
use xlinux.Bitops.HighestBit.{fls_digits}
use xlinux.Slab.Sizes.{
  size_index, size_index_elem, adjust_index, setup_kmalloc_cache_index_table, Choice, index_choice,
  kmalloc_slab, first_power, kmalloc_index, create_rounds, create_round, new_kmalloc_cache, is_null,
  create_kmalloc_caches, kmalloc_max_cache_size,
}

-- The search for a power of two ends at the least one that is large enough.
first_power-least :
    (n k r size : ℕ)
    → k ≤ r
    → r < n + k
    → 2 ^ (r - 1) < size
    → size ≤ 2 ^ r
    → first_power n k size ≡ some r
unfolding first_power
first_power-least zero k r size low high below above = absurd (omega arith)
first_power-least (suc n) k r size low high below above = elim (Bool-cases (k == r)) [
  | inl here ↦
      let e : k ≡ r = ground (arith, here) in
      let fits : leb size (2 ^ k) ≡ true = ground (arith, ap (λ k. 2 ^ k) e) in rw fits (ap some e)
  | inr later ↦
      let le : k ≤ r - 1 = ground (arith, later) in
      let small : 2 ^ k ≤ 2 ^ (r - 1) = pow-le-pow_right (omega arith) le in
      let no_fit : leb size (2 ^ k) ≡ false = ground (arith, small) in
      rw no_fit
        (first_power-least n (suc k) r size (ground (arith, later)) (omega arith) below above)
]

abbrev the_table : List ℕ
the_table = setup_kmalloc_cache_index_table size_index

abbrev the_caches : ℕ → Option ℕ
the_caches = create_kmalloc_caches (λ j. none)

abbrev same_choice : Choice → Option ℕ → Bool
same_choice (Choice.cache i) (some index) = i == index
same_choice _ _ = false

-- No cache of the table is smaller than `s` and large enough for `size`.
abbrev none_smaller : ℕ → ℕ → Option ℕ → Bool
none_smaller size s none = true
none_smaller size s (some s') = if leb size s' then leb s s' else true

abbrev least_of : ℕ → Option ℕ → Bool
least_of size none = false
least_of size (some s) = leb size s && passes (λ j. none_smaller size s (the_caches j)) 23

abbrev least_at : ℕ → Option ℕ → Bool
least_at size none = false
least_at size (some index) = ltb index 23 && least_of size (the_caches index)

abbrev good : ℕ → Bool
good size =
    same_choice (kmalloc_slab the_table size) (kmalloc_index size)
    && least_at size (kmalloc_index size)

small_sizes : passes (λ i. good (suc i)) 192 ≡ true
unfolding passes kmalloc_index kmalloc_slab setup_kmalloc_cache_index_table adjust_index
    size_index_elem index_choice first_power create_kmalloc_caches create_rounds create_round
    new_kmalloc_cache is_null
small_sizes = refl

abbrev entry_ok : ℕ → Option ℕ → Bool
entry_ok j none = ltb j 5
entry_ok j (some s) =
    if j == 1 then s == 96 else if j == 2 then s == 192 else leb 5 j && (s == 2 ^ j)

abbrev power_entry : ℕ → Bool
power_entry j = entry_ok j (the_caches j)

power_entries : passes power_entry 23 ≡ true
unfolding passes create_kmalloc_caches create_rounds create_round new_kmalloc_cache is_null
power_entries = refl

-- A request is served by the cache of an index that is in the table, large enough, and the
-- smallest of those that are.
pub record Served (size index s : ℕ) : Type 0 where
  pub slab : kmalloc_slab the_table size ≡ Choice.cache index
  pub macro : kmalloc_index size ≡ some index
  pub made : the_caches index ≡ some s
  pub fits : size ≤ s
  pub least : (j s' : ℕ) → j < 23 → the_caches j ≡ some s' → size ≤ s' → s ≤ s'

small-Served_at :
    (size index : ℕ) (o : Option ℕ)
    → the_caches index ≡ o
    → kmalloc_slab the_table size ≡ Choice.cache index
    → kmalloc_index size ≡ some index
    → least_of size o ≡ true
    → (s : ℕ) × Served size index s
small-Served_at size index none made slab macro h = absurd (ground (arith, h))
small-Served_at size index (some s) made slab macro h = (
  s,
  record {
    slab = slab;
    macro = macro;
    made = made;
    fits = ground (arith, h);
    least = λ j s' below e fits'.
        let pass : none_smaller size s (the_caches j) ≡ true =
          passes_entry (λ j. none_smaller size s (the_caches j)) 23 j below (ground (arith, h)) in
        let pass' : none_smaller size s (some s') ≡ true =
          sym (ap (none_smaller size s) e) ∙ pass in
        ground (arith, pass', fits');
  },
)

small-Served_by :
    (size : ℕ) (ch : Choice) (o : Option ℕ)
    → kmalloc_slab the_table size ≡ ch
    → kmalloc_index size ≡ o
    → (same_choice ch o && least_at size o) ≡ true
    → (index : ℕ) × (s : ℕ) × Served size index s
small-Served_by size (Choice.cache i) (some index) slab macro h =
    let e : i ≡ index = ground (arith, h) in
    let (s, served) =
      small-Served_at size index (the_caches index) refl (slab ∙ ap Choice.cache e) macro
        (ground (arith, h)) in
    (index, s, served)
small-Served_by size (Choice.cache i) none slab macro h = absurd (ground (arith, h))
small-Served_by size Choice.zero_size_ptr o slab macro h = absurd (ground (arith, h))
small-Served_by size Choice.bug o slab macro h = absurd (ground (arith, h))

power_of_entry : (j s : ℕ) → j < 23 → the_caches j ≡ some s → (s ≤ 192) ⊎ ((5 ≤ j) × (s ≡ 2 ^ j))
power_of_entry j s below e =
    let pass : power_entry j ≡ true = passes_entry power_entry 23 j below power_entries in
    let pass' : entry_ok j (some s) ≡ true = sym (ap (entry_ok j) e) ∙ pass in ground (arith, pass')

power-made : (r : ℕ) → 8 ≤ r → r < 23 → the_caches r ≡ some (2 ^ r)
power-made r low high = go (the_caches r) refl (passes_entry power_entry 23 r high power_entries)
  where
    go : (o : Option ℕ) → the_caches r ≡ o → entry_ok r o ≡ true → the_caches r ≡ some (2 ^ r)
    go none e ok = absurd (ground (arith, ok))
    go (some s) e ok = let same : s ≡ 2 ^ r = ground (arith, ok) in e ∙ ap some same

-- Above 192 bytes the index is the number of digits of `size - 1`.
module _ (size : ℕ) (low : 192 < size) (high : size ≤ kmalloc_max_cache_size) where
  abbrev r : ℕ
  r = fls (size - 1)

  digits_below : 2 ^ (r - 1) < size
  digits_below = let d = fls_digits (size - 1) (omega arith) (omega arith) in omega (arith, d.1)

  digits_above : size ≤ 2 ^ r
  digits_above = let d = fls_digits (size - 1) (omega arith) (omega arith) in omega (arith, d.2)

  digits_range : (8 ≤ r) × (r < 23)
  digits_range = (
    elim (Bool-cases (leb 8 r)) [
      | inl large ↦ ground (arith, large)
      | inr small ↦
          let few : r ≤ 7 = ground (arith, small) in
          let most : 2 ^ r ≤ 2 ^ 7 = pow-le-pow_right (omega arith) few in
          absurd (omega (arith, most, digits_above))
    ],
    elim (Bool-cases (ltb r 23)) [
      | inl small ↦ ground (arith, small)
      | inr large ↦
          let many : 22 ≤ r - 1 = ground (arith, large) in
          let least : 2 ^ 22 ≤ 2 ^ (r - 1) = pow-le-pow_right (omega arith) many in
          absurd (omega (arith, least, digits_below))
    ],
  )

  large-slab : kmalloc_slab the_table size ≡ Choice.cache r
  unfolding kmalloc_slab
  large-slab =
      let t1 : leb size 192 ≡ false = ground arith in
      let t2 : ltb kmalloc_max_cache_size size ≡ false = ground arith in rw (t1, t2) refl

  large-macro : kmalloc_index size ≡ some r
  unfolding kmalloc_index
  large-macro =
      let t1 : (size == 0) ≡ false = ground arith in
      let t2 : leb size 32 ≡ false = ground arith in
      let t3 : (ltb 64 size && leb size 96) ≡ false = ground arith in
      let t4 : (ltb 128 size && leb size 192) ≡ false = ground arith in
      let range = digits_range in
      rw (t1, t2, t3, t4)
        (first_power-least 24 3 r size (omega (arith, range.0)) (omega (arith, range.1))
          digits_below digits_above)

  large-Served : Served size r (2 ^ r)
  large-Served =
      let range = digits_range in
      record {
        slab = large-slab;
        macro = large-macro;
        made = power-made r range.0 range.1;
        fits = digits_above;
        least = λ j s' below e fits'. elim (power_of_entry j s' below e) [
          | inl small ↦ absurd (omega arith)
          | inr (low', is) ↦ elim (Bool-cases (leb r j)) [
            | inl more ↦
                let le : r ≤ j = ground (arith, more) in
                let p : 2 ^ r ≤ 2 ^ j = pow-le-pow_right (omega arith) le in omega (arith, p, is)
            | inr less ↦
                let le : j ≤ r - 1 = ground (arith, less) in
                let p : 2 ^ j ≤ 2 ^ (r - 1) = pow-le-pow_right (omega arith) le in
                absurd (omega (arith, p, is, digits_below))
          ]
        ];
      }

-- A request of up to `KMALLOC_MAX_CACHE_SIZE` bytes goes to the cache whose index `kmalloc_index`
-- computes: it exists, its objects are large enough, and no cache with smaller objects is.
pub kmalloc_slab-Served :
    (size : ℕ)
    → 0 < size
    → size ≤ kmalloc_max_cache_size
    → (index : ℕ) × (s : ℕ) × Served size index s
kmalloc_slab-Served size pos high = elim (Bool-cases (ltb 192 size)) [
  | inl large ↦
      let low : 192 < size = ground (arith, large) in
      (fls (size - 1), 2 ^ fls (size - 1), large-Served size low high)
  | inr small ↦
      let e : suc (size - 1) ≡ size = omega arith in
      let pass : good (suc (size - 1)) ≡ true =
        passes_entry (λ i. good (suc i)) 192 (size - 1) (ground (arith, small)) small_sizes in
      small-Served_by size (kmalloc_slab the_table size) (kmalloc_index size) refl refl
        (sym (ap good e) ∙ pass)
]
