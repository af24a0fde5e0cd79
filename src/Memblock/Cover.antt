-- ===== src/Memblock/Cover.antt =====
-- What the region arrays of memblock/memblock.c stand for: a set of addresses.
use xlinux.Common.{
  ℕ, ◌+◌, ◌-◌, ◌≤◌, ◌<◌, min, ◌≡◌, Bool, true, false, ◌||◌, ◌&&◌, List, [], ◌∷◌, ltb, leb,
  if◌then◌else◌, arith, Bool-cases, inl, inr, ltb→lt, length, ◌⊎◌, refl, ap,
}
use xlinux.Memblock.{
  Region, word64, phys_addr_max, Pass, insert_region, keep, untouched, add_remainder, add_pass,
}

abbrev pub inside : ℕ → ℕ → ℕ → Bool
inside lo hi x = leb lo x && ltb x hi

-- Whether some entry holds the address `x`.
unfoldable pub covers : List Region → ℕ → Bool
covers [] x = false
covers (r ∷ rs) x = inside r.base (r.base + r.size) x || covers rs x

-- The bytes that the entries hold.
unfoldable pub total : List Region → ℕ
total [] = 0
total (r ∷ rs) = r.size + total rs

-- Entries in address order from `lo` on, not empty, without overlap, below the top.
abbrev pub IsSorted : ℕ → List Region → Type 0
IsSorted lo [] = lo ≤ phys_addr_max
IsSorted lo (r ∷ rs) =
    (lo ≤ r.base) × (0 < r.size) × (r.base + r.size ≤ phys_addr_max) × IsSorted (r.base + r.size) rs

pub IsSorted-low : (lo lo' : ℕ) (rs : List Region) → IsSorted lo rs → lo' ≤ lo → IsSorted lo' rs
IsSorted-low lo lo' [] s h = omega arith
IsSorted-low lo lo' (r ∷ rs) s h = (omega arith, s.1, s.2, s.3)

pub covers_below : (rs : List Region) (lo x : ℕ) → IsSorted lo rs → x < lo → covers rs x ≡ false
unfolding covers
covers_below [] lo x s h = ground arith
covers_below (r ∷ rs) lo x s h =
    ground (arith, covers_below rs (r.base + r.size) x s.3 (omega arith))

pub word64_small : (n : ℕ) → n ≤ phys_addr_max → word64 n ≡ n
word64_small n h = omega arith

-- The ways in which a round of the loop goes on, over sorted entries.
pub data Scan (insert : Bool) (end : ℕ) : ℕ → List Region → Pass → Type 0 where
  finished : {base : ℕ} {rs : List Region} → end ≤ base → Scan insert end base rs (untouched rs)
  remains :
      {base : ℕ} {rs : List Region}
      → base < end
      → IsSorted end rs
      → Scan insert end base rs (insert_region insert base (end - base) (untouched rs))
  passed :
      {base : ℕ} {r : Region} {rs : List Region} {p : Pass}
      → r.base + r.size ≤ base
      → Scan insert end base rs p
      → Scan insert end base (r ∷ rs) (keep r p)
  gap :
      {base : ℕ} {r : Region} {rs : List Region} {p : Pass}
      → base < r.base
      → r.base < end
      → Scan insert end (min (r.base + r.size) end) rs p
      → Scan insert end base (r ∷ rs) (insert_region insert base (r.base - base) (keep r p))
  over :
      {base : ℕ} {r : Region} {rs : List Region} {p : Pass}
      → r.base ≤ base
      → r.base < end
      → base < r.base + r.size
      → Scan insert end (min (r.base + r.size) end) rs p
      → Scan insert end base (r ∷ rs) (keep r p)

add_remainder-Scan :
    (insert : Bool) (base end : ℕ) (rs : List Region)
    → IsSorted end rs
    → Scan insert end base rs (add_remainder insert base end rs)
add_remainder-Scan insert base end rs s = elim (Bool-cases (ltb base end)) [
  | inl more ↦ rw more (remains (ltb→lt base end more) s)
  | inr done ↦ rw done (finished (ground arith))
]

pub add_pass-Scan :
    (insert : Bool) (rs : List Region) (lo base end : ℕ)
    → IsSorted lo rs
    → end ≤ phys_addr_max
    → Scan insert end base rs (add_pass insert base end rs)
unfolding add_pass
add_pass-Scan insert [] lo base end s top = add_remainder-Scan insert base end [] top
add_pass-Scan insert (r ∷ rs) lo base end s top =
    let rend = r.base + r.size in
    let ih = λ (b : ℕ). add_pass-Scan insert rs rend b end s.3 top in
    rw (word64_small rend s.2) (elim (Bool-cases (leb end r.base)) [
      | inl past ↦
          rw past (add_remainder-Scan insert base end (r ∷ rs) (ground arith, s.1, s.2, s.3))
      | inr before ↦ rw before (elim (Bool-cases (leb rend base)) [
        | inl behind ↦ rw behind (passed (ground arith) (ih base))
        | inr beyond ↦ rw beyond (elim (Bool-cases (ltb base r.base)) [
          | inl low ↦ rw low (gap (ground arith) (ground arith) (ih (min rend end)))
          | inr high ↦
              rw high (over (ground arith) (ground arith) (ground arith) (ih (min rend end)))
        ])
      ])
    ])

module _ {end : ℕ} where
  -- Inserting adds exactly the addresses from `base` up to `end`.
  pub covers-Scan :
      {base : ℕ} {rs : List Region} {p : Pass} (lo x : ℕ)
      → Scan true end base rs p
      → IsSorted lo rs
      → covers p.entries x ≡ (inside base end x || covers rs x)
  unfolding covers
  covers-Scan lo x (finished h) s = ground arith
  covers-Scan lo x (remains h t) s = ground arith
  covers-Scan lo x (passed {r} h c) s = ground (arith, covers-Scan (r.base + r.size) x c s.3)
  covers-Scan lo x (gap {r} {rs} h k c) s =
      ground (arith, covers-Scan (r.base + r.size) x c s.3, covers_below rs (r.base + r.size) x s.3)
  covers-Scan lo x (over {r} {rs} h k b c) s =
      ground (arith, covers-Scan (r.base + r.size) x c s.3, covers_below rs (r.base + r.size) x s.3)

  pub IsSorted-Scan :
      {base : ℕ} {rs : List Region} {p : Pass} (lo : ℕ)
      → Scan true end base rs p
      → IsSorted lo rs
      → end ≤ phys_addr_max
      → (lo ≤ base) ⊎ (end ≤ base)
      → IsSorted lo p.entries
  IsSorted-Scan lo (finished h) s top low = s
  IsSorted-Scan lo (remains {base} {rs} h t) s top low = (
    omega arith,
    omega arith,
    omega arith,
    IsSorted-low end (base + (end - base)) rs t (omega arith),
  )
  IsSorted-Scan lo (passed {r} h c) s top low =
      (s.0, s.1, s.2, IsSorted-Scan (r.base + r.size) c s.3 top (inl h))
  IsSorted-Scan lo (gap {r} h k c) s top low = (
    omega arith,
    omega arith,
    omega arith,
    (omega arith, s.1, s.2, IsSorted-Scan (r.base + r.size) c s.3 top (ground arith)),
  )
  IsSorted-Scan lo (over {r} h k b c) s top low =
      (s.0, s.1, s.2, IsSorted-Scan (r.base + r.size) c s.3 top (ground arith))

  pub length-Scan :
      {base : ℕ} {rs : List Region} {p : Pass}
      → Scan true end base rs p
      → length p.entries ≡ length rs + p.nr_new
  length-Scan (finished h) = omega arith
  length-Scan (remains h t) = omega arith
  length-Scan (passed h c) = omega (arith, length-Scan c)
  length-Scan (gap h k c) = omega (arith, length-Scan c)
  length-Scan (over h k b c) = omega (arith, length-Scan c)

  pub total-Scan :
      {base : ℕ} {rs : List Region} {p : Pass}
      → Scan true end base rs p
      → total p.entries ≡ total rs + p.added
  unfolding total
  total-Scan (finished h) = omega arith
  total-Scan (remains h t) = omega arith
  total-Scan (passed h c) = omega (arith, total-Scan c)
  total-Scan (gap h k c) = omega (arith, total-Scan c)
  total-Scan (over h k b c) = omega (arith, total-Scan c)

  -- Nothing to insert: the range is covered already, and the entries stay.
  pub entries-Scan :
      {insert : Bool} {base : ℕ} {rs : List Region} {p : Pass}
      → Scan insert end base rs p
      → p.nr_new ≡ 0
      → p.entries ≡ rs
  entries-Scan (finished h) z = refl
  entries-Scan (remains h t) z = absurd (omega arith)
  entries-Scan (passed {r} h c) z = ap (λ l. r ∷ l) (entries-Scan c z)
  entries-Scan (gap h k c) z = absurd (omega arith)
  entries-Scan (over {r} h k b c) z = ap (λ l. r ∷ l) (entries-Scan c z)

-- Both rounds count the same regions.
pub nr_new-add_pass :
    (rs : List Region) (base end : ℕ)
    → (add_pass false base end rs).nr_new ≡ (add_pass true base end rs).nr_new
unfolding add_pass
nr_new-add_pass [] base end = ground arith
nr_new-add_pass (r ∷ rs) base end =
    let rend = word64 (r.base + r.size) in
    let next = if leb rend base then base else min rend end in
    ground (arith, nr_new-add_pass rs next end)
