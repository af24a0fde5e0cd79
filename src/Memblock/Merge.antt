-- ===== src/Memblock/Merge.antt =====
-- The theorem on `memblock_merge_regions` of memblock/memblock.c and its lemmas.
use xlinux.Common.{
  ℕ, suc, ◌+◌, ◌≤◌, ◌<◌, ◌≡◌, List, [], ◌∷◌, ◌==◌, arith, Bool-cases, inl, inr, length, refl,
}
use xlinux.Memblock.{Region, region, phys_addr_max, merge_from, merge_regions}
use xlinux.Memblock.Cover.{covers, total, IsSorted, IsSorted-low, word64_small}

-- Sorted, and between two entries at least one address that neither holds.
abbrev pub IsApart : ℕ → List Region → Type 0
IsApart lo [] = lo ≤ suc phys_addr_max
IsApart lo (r ∷ rs) =
    (lo ≤ r.base)
    × (0 < r.size)
    × (r.base + r.size ≤ phys_addr_max)
    × IsApart (suc (r.base + r.size)) rs

-- The ways in which the merge goes on.
data Merge : Region → List Region → List Region → Type 0 where
  last : {this : Region} → Merge this [] (this ∷ [])
  join :
      {this next : Region} {rs out : List Region}
      → this.base + this.size ≡ next.base
      → Merge (region this.base (this.size + next.size)) rs out
      → Merge this (next ∷ rs) out
  move :
      {this next : Region} {rs out : List Region}
      → this.base + this.size < next.base
      → Merge next rs out
      → Merge this (next ∷ rs) (this ∷ out)

join-IsSorted :
    (this next : Region) (rs : List Region) (lo : ℕ)
    → IsSorted lo (this ∷ next ∷ rs)
    → this.base + this.size ≡ next.base
    → IsSorted lo (region this.base (this.size + next.size) ∷ rs)
join-IsSorted this next rs lo (a, b, c, d) e = (
  a,
  omega arith,
  omega arith,
  IsSorted-low (next.base + next.size) (this.base + (this.size + next.size)) rs d.3 (omega arith),
)

merge_from-Merge :
    (this : Region) (rs : List Region) (lo : ℕ)
    → IsSorted lo (this ∷ rs)
    → Merge this rs (merge_from this rs)
unfolding merge_from
merge_from-Merge this [] lo s = last
merge_from-Merge this (next ∷ rs) lo s =
    let sum : this.size + next.size ≤ phys_addr_max = omega arith in
    rw (word64_small (this.base + this.size) s.2, word64_small (this.size + next.size) sum)
      (elim (Bool-cases (this.base + this.size == next.base)) [
        | inl touch ↦
            let e : this.base + this.size ≡ next.base = ground arith in
            rw touch (
              join e (
                merge_from-Merge (region this.base (this.size + next.size)) rs lo
                  (join-IsSorted this next rs lo s e)))
        | inr apart ↦
            rw apart (move (ground arith) (merge_from-Merge next rs (this.base + this.size) s.3))
      ])

covers-Merge :
    {this : Region} {rs out : List Region} (x : ℕ)
    → Merge this rs out
    → covers out x ≡ covers (this ∷ rs) x
unfolding covers
covers-Merge x last = refl
covers-Merge x (join e m) = ground (arith, covers-Merge x m)
covers-Merge x (move h m) = ground (arith, covers-Merge x m)

total-Merge :
    {this : Region} {rs out : List Region} → Merge this rs out → total out ≡ total (this ∷ rs)
unfolding total
total-Merge last = refl
total-Merge (join e m) = omega (arith, total-Merge m)
total-Merge (move h m) = omega (arith, total-Merge m)

length-Merge :
    {this : Region} {rs out : List Region}
    → Merge this rs out
    → (0 < length out) × (length out ≤ suc (length rs))
length-Merge last = omega arith
length-Merge (join e m) = omega (arith, length-Merge m)
length-Merge (move h m) = omega (arith, length-Merge m)

IsApart-Merge :
    {this : Region} {rs out : List Region} (lo lo' : ℕ)
    → Merge this rs out
    → IsSorted lo (this ∷ rs)
    → lo' ≤ this.base
    → IsApart lo' out
IsApart-Merge lo lo' last s h = omega arith
IsApart-Merge {this} lo lo' (join {next} {rs} e m) s h =
    IsApart-Merge lo lo' m (join-IsSorted this next rs lo s e) h
IsApart-Merge {this} lo lo' (move k m) s h =
    (h, s.1, s.2, IsApart-Merge (this.base + this.size) (suc (this.base + this.size)) m s.3 k)

-- What the merge keeps, and the order it leaves.
pub record Merged (before after : List Region) : Type 0 where
  pub same_cover : (x : ℕ) → covers after x ≡ covers before x
  pub same_total : total after ≡ total before
  pub shorter : length after ≤ length before
  pub not_emptied : 0 < length before → 0 < length after
  pub apart : IsApart 0 after

-- On entries in ascending order without overlap, `memblock_merge_regions` keeps the addresses and
-- the sum of the sizes, leaves no more entries than before and at least one where there was one,
-- and leaves a gap between neighbours.
pub merge_regions-Merged : (rs : List Region) → IsSorted 0 rs → Merged rs (merge_regions rs)
unfolding merge_regions
merge_regions-Merged [] s = record {
  same_cover = λ x. refl;
  same_total = refl;
  shorter = omega arith;
  not_emptied = λ h. h;
  apart = omega arith;
}
merge_regions-Merged (r ∷ rs) s =
    let m = merge_from-Merge r rs 0 s in
    record {
      same_cover = λ x. covers-Merge x m;
      same_total = total-Merge m;
      shorter = omega (arith, length-Merge m);
      not_emptied = λ h. (length-Merge m).0;
      apart = IsApart-Merge 0 0 m s (omega arith);
    }

pub IsApart-IsSorted : (lo : ℕ) (rs : List Region) → IsApart (suc lo) rs → IsSorted lo rs
IsApart-IsSorted lo [] a = omega arith
IsApart-IsSorted lo (r ∷ rs) a = (omega arith, a.1, a.2, IsApart-IsSorted (r.base + r.size) rs a.3)
