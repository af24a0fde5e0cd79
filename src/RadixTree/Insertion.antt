-- ===== src/RadixTree/Insertion.antt =====
-- The theorem on `radix_tree_insert` and `radix_tree_lookup` of radix_tree/radix-tree.c.
use xlinux.Common.{
  ℕ, zero, suc, ◌+◌, ◌-◌, ◌*◌, ◌/◌, ◌^◌, ◌≤◌, ◌<◌, ◌≡◌, ◌≢◌, ◌⊎◌, inl, inr, Bool, true, false, ◌==◌,
  ltb, arith, refl, sym, ap, ◌∙◌, Bool-cases, ltb→lt,
}
use xlinux.Common.Table.{passes, passes_entry}
use xlinux.RadixTree.{
  Entry, empty, item, node, shift_maxindex, max_index, levels, lookup_entry, radix_tree_lookup,
  extend, Insert, stored, exists, cannot_grow, radix_tree_insert,
}
use xlinux.RadixTree.Slots.{Fits, above, Inserted, placed, occupied, insert_slot-Inserted}

-- A tree of at most 11 levels, which cover 64 bits.
abbrev pub Valid : Entry → Type 0
Valid root = (n : ℕ) × (n ≤ 11) × Fits n root

abbrev is_item : Entry → Bool
is_item (item x) = true
is_item _ = false

-- The largest index below a head with `n` levels that is not empty.
abbrev max_at : ℕ → ℕ
max_at zero = 0
max_at (suc m) = shift_maxindex (6 * m)

max_index-at : (n : ℕ) (e : Entry) → Fits n e → e ≢ empty → max_index e ≡ max_at n
unfolding max_index
max_index-at n empty f ne = absurd (ne refl)
max_index-at zero (item x) f ne = refl
max_index-at (suc n) (item x) f ne = absurd f
max_index-at zero (node shift slots) f ne = absurd f
max_index-at (suc n) (node shift slots) f ne = ap shift_maxindex f.0

-- The levels cover every index up to the largest.
shift_maxindex-lt : (m : ℕ) → m < 11 → shift_maxindex (6 * m) < 2 ^ (6 * suc m)
unfolding shift_maxindex passes
shift_maxindex-lt m low =
    ltb→lt (shift_maxindex (6 * m)) (2 ^ (6 * suc m))
      (passes_entry (λ m. ltb (shift_maxindex (6 * m)) (2 ^ (6 * suc m))) 11 m low refl)

above-zero : (n j : ℕ) → n ≤ 11 → j ≤ max_at n → above n j ≡ 0
above-zero zero j low h = omega arith
above-zero (suc m) j low h = grind (arith, shift_maxindex-lt m (omega arith))

-- The outcome of an insertion at an index into a valid tree: the item is added where nothing was,
-- and every other index keeps its entry; there was an item; or the tree is not empty and too low.
pub data Stored (root : Entry) (index x : ℕ) : Insert → Type 0 where
  added :
      (root' : Entry)
      → Valid root'
      → radix_tree_lookup root index ≡ empty
      → radix_tree_lookup root' index ≡ item x
      → ((j : ℕ) → j ≢ index → radix_tree_lookup root' j ≡ radix_tree_lookup root j)
      → Stored root index x (stored root')
  taken : (y : ℕ) → radix_tree_lookup root index ≡ item y → Stored root index x exists
  too_low : root ≢ empty → max_index root < index → Stored root index x cannot_grow

within :
    (root : Entry) (j : ℕ) → j ≤ max_index root → radix_tree_lookup root j ≡ lookup_entry root j
unfolding radix_tree_lookup
within root j h = let inside : ltb (max_index root) j ≡ false = ground arith in rw inside refl

beyond : (root : Entry) (j : ℕ) → max_index root < j → radix_tree_lookup root j ≡ empty
unfolding radix_tree_lookup
beyond root j h = let out : ltb (max_index root) j ≡ true = ground arith in rw out refl

lookup-empty : (j : ℕ) → radix_tree_lookup empty j ≡ empty
unfolding radix_tree_lookup lookup_entry
lookup-empty j = elim (Bool-cases (ltb (max_index empty) j)) [
  | inl out ↦ rw out refl
  | inr inside ↦ rw inside refl
]

-- A head that is empty or has `n` levels.
abbrev Tops : ℕ → Entry → Type 0
Tops n root = (root ≡ empty) ⊎ (max_index root ≡ max_at n)

reads :
    (n : ℕ) (root : Entry) (j : ℕ)
    → Tops n root
    → j ≤ max_at n
    → radix_tree_lookup root j ≡ lookup_entry root j
unfolding lookup_entry
reads n root j (inl e) h = rw e (lookup-empty j)
reads n root j (inr e) h = within root j (omega (arith, e))

misses :
    (n : ℕ) (root : Entry) (j : ℕ) → Tops n root → max_at n < j → radix_tree_lookup root j ≡ empty
misses n root j (inl e) h = rw e (lookup-empty j)
misses n root j (inr e) h = beyond root j (omega (arith, e))

item-not_empty : (e : Entry) (index x : ℕ) → lookup_entry e index ≡ item x → e ≢ empty
unfolding lookup_entry
item-not_empty e index x h z =
    let f : false ≡ true = ap is_item (ap (λ s. lookup_entry s index) (sym z) ∙ h) in
    absurd (ground (arith, f))

-- An index that the levels cover.
covered :
    (n : ℕ) (root : Entry) (index x : ℕ) (r : Insert)
    → n ≤ 11
    → index ≤ max_at n
    → Tops n root
    → Inserted n root index x r
    → Stored root index x r
covered n root index x _ low h top (occupied y held) = taken y (reads n root index top h ∙ held)
covered n root index x _ low h top (placed e' fits before after others) =
    added e' (n, low, fits) (reads n root index top h ∙ before) (reads n e' index top' h ∙ after)
      (λ j ne. elim (Bool-cases (ltb (max_at n) j)) [
        | inl out ↦
            let far : max_at n < j = ltb→lt (max_at n) j out in
            misses n e' j top' far ∙ sym (misses n root j top far)
        | inr inside ↦
            let near : j ≤ max_at n = ground arith in
            reads n e' j top' near
            ∙ others j (above-zero n j low near ∙ sym (above-zero n index low h)) ne
            ∙ sym (reads n root j top near)
      ])
  where
    top' : Tops n e'
    top' = inr (max_index-at n e' fits (item-not_empty e' index x after))

top_level : shift_maxindex (6 * 10) ≡ 2 ^ 64 - 1
unfolding shift_maxindex
top_level = refl

extend-covers :
    (fuel n index : ℕ)
    → fuel + n ≡ 11
    → n ≤ 10
    → index < 2 ^ 64
    → (extend fuel n index ≤ 10) × (index ≤ shift_maxindex (6 * extend fuel n index))
unfolding extend
extend-covers zero n index e low h = absurd (omega arith)
extend-covers (suc fuel) n index e low h = elim (Bool-cases (ltb (shift_maxindex (6 * n)) index)) [
  | inl small ↦ elim (Bool-cases (n == 10)) [
    | inl last ↦
        let e : n ≡ 10 = ground arith in
        absurd (
          omega (
            arith,
            ltb→lt (shift_maxindex (6 * n)) index small,
            ap (λ k. shift_maxindex (6 * k)) e,
            top_level,
          ))
    | inr more ↦ rw small (extend-covers fuel (suc n) index (omega arith) (ground arith) h)
  ]
  | inr enough ↦ rw enough (low, ground arith)
]

abbrev is_empty : Entry → Bool
is_empty empty = true
is_empty _ = false

full-not_empty : (e : Entry) → is_empty e ≡ false → e ≢ empty
full-not_empty e f z = absurd (ground (arith, f, ap is_empty z))

max_index-bare : (max_index empty ≡ 0) × ((y : ℕ) → max_index (item y) ≡ 0)
unfolding max_index
max_index-bare = (refl, λ y. refl)

-- `radix_tree_insert` on a valid tree at an index of 64 bits: either lookup found nothing at the
-- index, and in the new tree, which is valid, it finds the item there and at every other index what
-- it found before; or the result is `-EEXIST` and lookup finds an item at the index; or it panics,
-- and then the tree is not empty and the index is above its largest.
pub radix_tree_insert-Stored :
    (root : Entry) (index x : ℕ)
    → Valid root
    → index < 2 ^ 64
    → Stored root index x (radix_tree_insert root index x)
unfolding radix_tree_insert levels
radix_tree_insert-Stored empty index x valid h = elim (Bool-cases (ltb (max_index empty) index)) [
  | inl out ↦
      let (small, fits) = extend-covers 11 0 index refl (omega arith) h in
      rw out (
        covered (suc (extend 11 0 index)) empty index x _ (omega arith) fits (inl refl)
          (insert_slot-Inserted (suc (extend 11 0 index)) empty index x tt))
  | inr inside ↦ rw inside (
      covered 0 empty index x _ (omega arith) (ground (arith, inside, max_index-bare.0)) (inl refl)
        (insert_slot-Inserted 0 empty index x tt))
]
radix_tree_insert-Stored (item y) index x (zero, low, fits) h =
    elim (Bool-cases (ltb (max_index (item y)) index)) [
      | inl out ↦ rw out (too_low (full-not_empty (item y) refl) (ltb→lt _ _ out))
      | inr inside ↦ rw inside (
          covered 0 (item y) index x _ (omega arith) (ground (arith, inside, max_index-bare.1 y))
            (inr (max_index-at 0 (item y) tt (full-not_empty (item y) refl)))
            (insert_slot-Inserted 0 (item y) index x tt))
    ]
radix_tree_insert-Stored (item y) index x (suc n, low, fits) h = absurd fits
radix_tree_insert-Stored (node shift slots) index x (zero, low, fits) h = absurd fits
radix_tree_insert-Stored (node shift slots) index x (suc n, low, fits) h =
    let top : max_index (node shift slots) ≡ max_at (suc n) =
      max_index-at (suc n) (node shift slots) fits (full-not_empty (node shift slots) refl) in
    let count : suc (shift / 6) ≡ suc n = omega (arith, fits.0) in
    elim (Bool-cases (ltb (max_index (node shift slots)) index)) [
      | inl out ↦ rw out (too_low (full-not_empty (node shift slots) refl) (ltb→lt _ _ out))
      | inr inside ↦
          rw (inside, count)
            (covered (suc n) (node shift slots) index x _ low (ground (arith, inside, top))
              (inr top) (insert_slot-Inserted (suc n) (node shift slots) index x fits))
    ]
