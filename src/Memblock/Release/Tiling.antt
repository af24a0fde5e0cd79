-- ===== src/Memblock/Release/Tiling.antt =====
-- The theorem on `__free_memory_core` of memblock/memblock.c and its lemmas.
use xlinux.Common.{
  ℕ, zero, suc, ◌+◌, ◌-◌, ◌*◌, ◌/◌, ◌%◌, ◌^◌, ◌≤◌, ◌<◌, ◌≡◌, ◌↔◌, min, some, List, [], ◌∷◌, ltb,
  leb, arith, ltb→lt, Bool-cases, inl, inr, refl, ◌∙◌, ap, sym,
}
use native.Mathlib.Nat.{one-le-pow, mul_assoc}
use xlinux.Common.Bits.{pow-add_lem}
use xlinux.Bitops.{ffs}
use xlinux.Bitops.LowestBit.{ffs_lowest, ffs_zero, multiple_of}
use xlinux.Memblock.{word64}
use xlinux.Memblock.Release.{
  max_order, Block, shrink, next_order, free_pages_memory, pfn_up, pfn_down, free_memory_core,
}

-- `blocks` cover the frames from `start` up to `end`, one after the other, each aligned to its size.
abbrev pub Tiles : ℕ → ℕ → List Block → Type 0
Tiles start end [] = start ≡ end
Tiles start end (b ∷ bs) =
    (b.pfn ≡ start)
    × (b.order < max_order)
    × (start % 2 ^ b.order ≡ 0)
    × Tiles (start + 2 ^ b.order) end bs

pub pages : List Block → ℕ
pages [] = 0
pages (b ∷ bs) = 2 ^ b.order + pages bs

pow_small : (o : ℕ) → o < max_order → 2 ^ o ≤ 1024
pow_small o h =
    let e : o + (10 - o) ≡ 10 = omega arith in
    let p : 2 ^ o * 2 ^ (10 - o) ≡ 2 ^ 10 = rw (← pow-add_lem o (10 - o), e) in
    let q = one-le-pow (10 - o) 2 (omega arith) in grind (arith, p, q)

dvd_shrink : (x a b : ℕ) → a ≤ b → x % 2 ^ b ≡ 0 → x % 2 ^ a ≡ 0
dvd_shrink x a b h e =
    let s : (b - a) + a ≡ b = omega arith in
    let p : 2 ^ (b - a) * 2 ^ a ≡ 2 ^ b = rw (← pow-add_lem (b - a) a, s) in
    let whole : x ≡ x / 2 ^ b * 2 ^ b = grind arith in
    let regroup : x ≡ x / 2 ^ b * 2 ^ (b - a) * 2 ^ a =
      whole ∙ ap (λ (t : ℕ). x / 2 ^ b * t) (sym p) ∙ sym (mul_assoc (x / 2 ^ b) _ _) in
    (multiple_of x _ _ (one-le-pow a 2 (omega arith)) regroup).0

shrink_fits :
    (order start end : ℕ)
    → order < max_order
    → start < end
    → end ≤ 2 ^ 52
    → (shrink order start end ≤ order) × (start + 2 ^ shrink order start end ≤ end)
unfolding shrink
shrink_fits zero start end ho h top = (omega arith, omega arith)
shrink_fits (suc order) start end ho h top =
    elim (Bool-cases (ltb end (word64 (start + 2 ^ suc order)))) [
      | inl over ↦ rw over (omega (arith, shrink_fits order start end (omega arith) h top))
      | inr fits ↦ rw fits (omega arith, ground (arith, pow_small (suc order)))
    ]

-- The lowest set bit bounds the alignment; for 0 `__ffs` returns 63.
ffs_aligned : (x : ℕ) → x < 2 ^ 64 → x % 2 ^ ffs x ≡ 0
ffs_aligned zero h = rw ffs_zero
ffs_aligned (suc n) h = (ffs_lowest (suc n) (omega arith) h).1

next_order_lem :
    (start end : ℕ)
    → start < end
    → end ≤ 2 ^ 52
    → (next_order start end < max_order)
      × (start + 2 ^ next_order start end ≤ end)
      × (start % 2 ^ next_order start end ≡ 0)
unfolding next_order
next_order_lem start end h top =
    let fits = shrink_fits (min (max_order - 1) (ffs start)) start end (omega arith) h top in
    (
      omega arith,
      fits.1,
      dvd_shrink start _ (ffs start) (omega arith) (ffs_aligned start (omega arith)),
    )

free_pages_memory-Tiles :
    (fuel start end : ℕ)
    → end ≤ 2 ^ 52
    → start ≤ end
    → end - start < fuel
    → (bs : List Block) × (free_pages_memory fuel start end ≡ some bs)
      × Tiles start end bs
      × (start + pages bs ≡ end)
unfolding free_pages_memory pages
free_pages_memory-Tiles zero start end top le h = absurd (omega arith)
free_pages_memory-Tiles (suc fuel) start end top le h = elim (Bool-cases (ltb start end)) [
  | inl more ↦
      let o = next_order start end in
      let next = next_order_lem start end (ltb→lt start end more) top in
      let pos = one-le-pow o 2 (omega arith) in
      let same : word64 (start + 2 ^ o) ≡ start + 2 ^ o = omega arith in
      let (bs, got, tiles, sum) =
        free_pages_memory-Tiles fuel (start + 2 ^ o) end top (omega arith) (omega arith) in
      (
        record { pfn = start; order = o } ∷ bs,
        simp (more, same, got),
        (refl, next.0, next.2, tiles),
        omega arith,
      )
  | inr done ↦ ([], simp done, ground arith, ground arith)
]

-- What a call for the bytes from `start` to `end` frees, and the count that it returns.
pub record Freed (max_low_pfn start end : ℕ) (bs : List Block) (count : ℕ) : Type 0 where
  pub counted : pages bs ≡ count
  pub first : ℕ
  pub tiles : Tiles first (first + count) bs
  pub frames :
      (pfn : ℕ)
      → ((first ≤ pfn) × (pfn < first + count))
        ↔ ((start ≤ pfn * 4096) × (suc pfn * 4096 ≤ end) × (pfn < max_low_pfn))

-- For a start at least a page below `2 ^ 64`, `__free_memory_core` returns, and the blocks that it
-- frees are consecutive, each aligned to its size and below `MAX_ORDER`, and their pages add up to
-- the count returned. Their frames are exactly those that lie wholly in the byte range and are
-- below `max_low_pfn`.
pub free_memory_core-Freed :
    (max_low_pfn start end : ℕ)
    → start ≤ 2 ^ 64 - 2 ^ 12
    → end < 2 ^ 64
    → (bs : List Block) × (count : ℕ) × (free_memory_core max_low_pfn start end ≡ some (bs, count))
      × Freed max_low_pfn start end bs count
unfolding free_memory_core
free_memory_core-Freed max_low_pfn start end hs he =
    let s = pfn_up start in
    let e = min (pfn_down end) max_low_pfn in
    elim (Bool-cases (leb e s)) [
      | inl nothing ↦ (
        [],
        0,
        simp nothing,
        record {
          counted = unfold pages in refl;
          first = s;
          tiles = omega arith;
          frames = λ pfn. (
            λ h. absurd (omega (arith, h.0, h.1)),
            λ h. absurd (ground (arith, nothing, h.0, h.1, h.2)),
          );
        },
      )
      | inr some_left ↦
          let lt : s < e = ground arith in
          let (bs, got, tiles, sum) =
            free_pages_memory-Tiles (suc (e - s)) s e (omega arith) (omega arith) (omega arith) in
          let same : s + (e - s) ≡ e = omega arith in
          (
            bs,
            e - s,
            simp (some_left, got),
            record {
              counted = omega arith;
              first = s;
              tiles = rw same tiles;
              frames = λ pfn. (
                λ h. (omega (arith, h.0), omega (arith, h.1, lt), omega (arith, h.1, lt)),
                λ h. (omega (arith, h.0), omega (arith, h.1, h.2, lt)),
              );
            },
          )
    ]
