-- ===== src/Slab/Release/Used.antt =====
-- slab/slab.c: a slab with an object that is not free has used objects.
use xlinux.Common.{
  ℕ, zero, suc, ◌+◌, ◌-◌, ◌≤◌, ◌<◌, ◌≡◌, inl, inr, none, some, List, [], ◌∷◌, ltb, ◌==◌,
  if◌then◌else◌, arith, refl, ap, sym, ◌∙◌, Bool-cases, Option-cases, length,
}
use xlinux.Common.Counts.{count}
use xlinux.Slab.{Cache, Slab}
use xlinux.Slab.Places.{Geometry, window, free_indices, SlabOk}

-- How many members of the list are below the bound.
abbrev sum_counts : List ℕ → ℕ → ℕ
sum_counts l zero = 0
sum_counts l (suc n) = count n l + sum_counts l n

sum_counts-empty : (n : ℕ) → sum_counts [] n ≡ 0
sum_counts-empty zero = refl
sum_counts-empty (suc n) = omega (arith, sum_counts-empty n)

sum_counts-cons :
    (q : ℕ) (l : List ℕ) (n : ℕ)
    → sum_counts (q ∷ l) n ≡ (if ltb q n then 1 else 0) + sum_counts l n
sum_counts-cons q l zero = ground arith
sum_counts-cons q l (suc n) = ground (arith, sum_counts-cons q l n)

sum_counts-length :
    (l : List ℕ) (n : ℕ) → ((i : ℕ) → 0 < count i l → i < n) → sum_counts l n ≡ length l
sum_counts-length [] n below = sum_counts-empty n
sum_counts-length (q ∷ l) n below =
    let first = below q (ground arith) in
    let rest = sum_counts-length l n (λ i h. below i (ground (arith, h))) in
    ground (arith, sum_counts-cons q l n, first, rest)

sum_counts-gap :
    (l : List ℕ) (n : ℕ)
    → ((i : ℕ) → i < n → count i l ≤ 1)
    → (sum_counts l n ≤ n) × ((i : ℕ) → i < n → count i l ≡ 0 → sum_counts l n < n)
sum_counts-gap l zero once = (omega arith, λ i h z. absurd (omega arith))
sum_counts-gap l (suc n) once =
    let (most, fewer) = sum_counts-gap l n (λ i h. once i (omega arith)) in
    let last = once n (omega arith) in
    (
      omega (arith, most, last),
      λ i h z. elim (Bool-cases (i == n)) [
        | inl same ↦
            let e : i ≡ n = ground (arith, same) in
            let zero_last = ap (λ i. count i l) (sym e) ∙ z in omega (arith, most, zero_last)
        | inr other ↦ let f = fewer i (ground (arith, other)) z in omega (arith, last, f)
      ],
    )

length-window : (f : ℕ → ℕ) (a n : ℕ) → length (window f a n) ≡ n
length-window f a zero = refl
length-window f a (suc n) = omega (arith, length-window f (suc a) n)

free_length :
    (c : Cache) (s : Slab) (fl : ℕ)
    → s.freelist ≡ some fl
    → length (free_indices c s) ≡ c.num - s.active
free_length c s fl e =
    ap
      (λ o.
        length (elim o [ none ↦ [] | some fl ↦ window s.bytes (fl + s.active) (c.num - s.active) ]))
      e
    ∙ length-window s.bytes (fl + s.active) (c.num - s.active)

pub gap-used :
    (c : Cache) (g : Geometry c) (page idx : ℕ) (s : Slab)
    → SlabOk c page s
    → ((i : ℕ) → i < c.num → count i (free_indices c s) ≤ 1)
    → idx < c.num
    → count idx (free_indices c s) ≡ 0
    → 0 < s.active
gap-used c g page idx s ok once below gap = elim (Option-cases s.freelist) [
  | inl e ↦ let all = (ok.null e).0 in omega (arith, all, below)
  | inr (fl, e) ↦
      let fewer = (sum_counts-gap (free_indices c s) c.num once).1 idx below gap in
      let total = sum_counts-length (free_indices c s) c.num ok.range in
      omega (arith, fewer, total, free_length c s fl e)
]
