-- ===== src/Memblock/Alloc/Gaps.antt =====
-- Lemmas on the gaps that `__next_mem_range_rev` of memblock/memblock.c visits.
use xlinux.Common.{
  ℕ, zero, suc, ◌+◌, ◌≤◌, ◌<◌, ◌≡◌, true, false, List, [], ◌∷◌, arith, length, refl,
}
use xlinux.Memblock.{Region, phys_addr_max}
use xlinux.Memblock.Cover.{covers}
use xlinux.Memblock.Alloc.{region_at, end_of, gap_start, gap_end}

-- Entries in address order from `lo` on, without overlap, below the top.
abbrev pub IsOrdered : ℕ → List Region → Type 0
IsOrdered lo [] = lo ≤ phys_addr_max
IsOrdered lo (r ∷ rs) =
    (lo ≤ r.base) × (r.base + r.size ≤ phys_addr_max) × IsOrdered (r.base + r.size) rs

abbrev start_from : ℕ → List Region → ℕ → ℕ
start_from lo rs zero = lo
start_from lo rs (suc i) = end_of (region_at rs i)

start_from-cons :
    (lo : ℕ) (r : Region) (rs : List Region) (i : ℕ)
    → r.base + r.size ≤ phys_addr_max
    → start_from lo (r ∷ rs) (suc i) ≡ start_from (r.base + r.size) rs i
start_from-cons lo r rs zero h = omega arith
start_from-cons lo r rs (suc i) h = refl

not_below :
    (lo : ℕ) (rs : List Region) (i x : ℕ)
    → IsOrdered lo rs
    → i ≤ length rs
    → start_from lo rs i ≤ x
    → lo ≤ x
not_below lo rs zero x s h le = le
not_below lo [] (suc i) x s h le = absurd (omega arith)
not_below lo (r ∷ rs) (suc i) x s h le = omega (
  arith,
  not_below (r.base + r.size) rs i x s.2 (omega arith) (rw (start_from-cons lo r rs i s.1) at le),
)

covers_before : (lo : ℕ) (rs : List Region) (x : ℕ) → IsOrdered lo rs → x < lo → covers rs x ≡ false
unfolding covers
covers_before lo [] x s h = refl
covers_before lo (r ∷ rs) x s h =
    ground (arith, covers_before (r.base + r.size) rs x s.2 (omega arith))

not_covered :
    (lo : ℕ) (rs : List Region) (i x : ℕ)
    → IsOrdered lo rs
    → i ≤ length rs
    → start_from lo rs i ≤ x
    → x < gap_end rs i
    → covers rs x ≡ false
unfolding covers gap_end
not_covered lo [] i x s h le lt = refl
not_covered lo (r ∷ rs) zero x s h le lt = ground (arith, covers_before (r.base + r.size) rs x s.2)
not_covered lo (r ∷ rs) (suc i) x s h le lt =
    let le' = rw (start_from-cons lo r rs i s.1) at le in
    ground (
      arith,
      not_below (r.base + r.size) rs i x s.2 (omega arith) le',
      not_covered (r.base + r.size) rs i x s.2 (omega arith) le',
    )

-- Between two neighbouring entries no address is held.
pub gap-free :
    (rs : List Region) (i x : ℕ)
    → IsOrdered 0 rs
    → i ≤ length rs
    → gap_start rs i ≤ x
    → x < gap_end rs i
    → covers rs x ≡ false
unfolding gap_start
gap-free rs zero x s h le lt = not_covered 0 rs zero x s h le lt
gap-free rs (suc i) x s h le lt = not_covered 0 rs (suc i) x s h le lt

-- An entry of the array holds its addresses.
pub covers-region_at :
    (lo : ℕ) (rs : List Region) (i x : ℕ)
    → IsOrdered lo rs
    → i < length rs
    → (region_at rs i).base ≤ x
    → x < end_of (region_at rs i)
    → covers rs x ≡ true
unfolding covers
covers-region_at lo [] i x s h le lt = absurd (omega arith)
covers-region_at lo (r ∷ rs) zero x s h le lt = ground arith
covers-region_at lo (r ∷ rs) (suc i) x s h le lt =
    ground (arith, covers-region_at (r.base + r.size) rs i x s.2)
