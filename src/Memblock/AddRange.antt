-- ===== src/Memblock/AddRange.antt =====
-- `memblock_add_range`: the outcome as a set of addresses, and the invariant of a region array.
use xlinux.Common.{
  ℕ, ◌+◌, ◌*◌, ◌≤◌, ◌<◌, ◌≡◌, ◌⊎◌, Bool, true, false, ◌||◌, List, [], ◌∷◌, Option, none, some, ltb,
  ◌==◌, if◌then◌else◌, arith, Bool-cases, inl, inr, length, refl, sym, ◌∙◌, ap,
}
use xlinux.Memblock.{
  Region, region, phys_addr_max, MemblockType, Pass, cap_size, add_pass, is_empty, tail_of,
  insert_round, add_range,
}
use xlinux.Memblock.Cover.{
  inside, covers, total, IsSorted, word64_small, Scan, add_pass-Scan, covers-Scan, IsSorted-Scan,
  length-Scan, total-Scan, entries-Scan, nr_new-add_pass,
}
use xlinux.Memblock.Merge.{IsApart, IsApart-IsSorted, merge_regions-Merged}

-- The array holds its one dummy entry only.
pub record IsDummy (t : MemblockType) : Type 0 where
  pub start : ℕ
  pub in_range : start ≤ phys_addr_max
  pub regions : t.regions ≡ region start 0 ∷ []
  pub no_bytes : t.total_size ≡ 0

-- The array holds regions in order, with gaps between them, and counts their bytes.
pub record IsLive (t : MemblockType) : Type 0 where
  pub some_region : 0 < length t.regions
  pub apart : IsApart 0 t.regions
  pub counted : t.total_size ≡ total t.regions

pub record IsValid (t : MemblockType) : Type 0 where
  pub room : length t.regions ≤ t.max_cnt
  pub max_pos : 0 < t.max_cnt
  pub shape : IsDummy t ⊎ IsLive t

-- `after` holds the addresses of `before` and those from `base` to the capped end.
pub record Added (before : MemblockType) (base size : ℕ) (after : MemblockType) : Type 0 where
  pub valid : IsValid after
  pub same_max : after.max_cnt ≡ before.max_cnt
  pub cover :
      (x : ℕ)
      → covers after.regions x
        ≡ (inside base (base + cap_size base size) x || covers before.regions x)

IsApart-IsSorted_first : (rs : List Region) → IsApart 0 rs → IsSorted 0 rs
IsApart-IsSorted_first [] a = omega arith
IsApart-IsSorted_first (r ∷ rs) a = (a.0, a.1, a.2, IsApart-IsSorted (r.base + r.size) rs a.3)

total-le : (lo : ℕ) (rs : List Region) → IsSorted lo rs → lo + total rs ≤ phys_addr_max
unfolding total
total-le lo [] s = omega arith
total-le lo (r ∷ rs) s = omega (arith, total-le (r.base + r.size) rs s.3)

is_empty-IsApart : (rs : List Region) → 0 < length rs → IsApart 0 rs → is_empty rs ≡ false
unfolding is_empty
is_empty-IsApart [] l a = absurd (omega arith)
is_empty-IsApart (r ∷ rs) l a = ground arith

nr_new-le :
    {insert : Bool} {end base : ℕ} {rs : List Region} {p : Pass}
    → Scan insert end base rs p
    → p.nr_new ≤ length rs + 1
nr_new-le (Scan.finished h) = omega arith
nr_new-le (Scan.remains h t) = omega arith
nr_new-le (Scan.passed h c) = omega (arith, nr_new-le c)
nr_new-le (Scan.gap h k c) = omega (arith, nr_new-le c)
nr_new-le (Scan.over h k b c) = omega (arith, nr_new-le c)

cap_size-le : (base size : ℕ) → base ≤ phys_addr_max → base + cap_size base size ≤ phys_addr_max
unfolding cap_size
cap_size-le base size h = omega arith

module _ (t : MemblockType) (base size : ℕ) (top : base ≤ phys_addr_max) (live : IsLive t)
    (room : length t.regions ≤ t.max_cnt) (max_pos : 0 < t.max_cnt) where
  abbrev end : ℕ
  end = base + cap_size base size

  abbrev pass : Pass
  pass = add_pass true base end t.regions

  scan : Scan true end base t.regions pass
  scan =
      add_pass-Scan true t.regions 0 base end (IsApart-IsSorted_first t.regions live.apart)
        (cap_size-le base size top)

  pass-IsSorted : IsSorted 0 pass.entries
  pass-IsSorted =
      IsSorted-Scan 0 scan (IsApart-IsSorted_first t.regions live.apart) (cap_size-le base size top)
        (inl (omega arith))

  cover_pass : (x : ℕ) → covers pass.entries x ≡ (inside base end x || covers t.regions x)
  cover_pass x = covers-Scan 0 x scan (IsApart-IsSorted_first t.regions live.apart)

  -- No new region is counted only if the range is covered.
  unchanged-Added : pass.nr_new ≡ 0 → Added t base size t
  unchanged-Added z = record {
    valid = record { room = room; max_pos = max_pos; shape = inr live };
    same_max = refl;
    cover = λ x. ap (λ rs. covers rs x) (sym (entries-Scan scan z)) ∙ cover_pass x;
  }

  insert_round-Added :
      length t.regions + pass.nr_new ≤ t.max_cnt
      → (pass.nr_new == 0) ≡ false
      → Added t base size (insert_round t base end)
  unfolding insert_round
  insert_round-Added fits new =
      let m = merge_regions-Merged pass.entries pass-IsSorted in
      rw new (record {
        valid = record {
          room = omega (arith, m.shorter, length-Scan scan);
          max_pos = max_pos;
          shape = inr (record {
            some_region = m.not_emptied (omega (arith, length-Scan scan));
            apart = m.apart;
            counted = omega (
              arith,
              live.counted,
              total-Scan scan,
              m.same_total,
              total-le 0 pass.entries pass-IsSorted,
            );
          });
        };
        same_max = refl;
        cover = λ x. m.same_cover x ∙ cover_pass x;
      })

-- What a call may return: the range is added, or it panics and the array was at least half full.
abbrev pub Outcome : MemblockType → ℕ → ℕ → Option MemblockType → Type 0
Outcome t base size (some after) = Added t base size after
Outcome t base size none = t.max_cnt < 2 * length t.regions + 1

module _ (t : MemblockType) (base size : ℕ) (top : base ≤ phys_addr_max) where
  nothing-Added : IsValid t → cap_size base size ≡ 0 → Added t base size t
  nothing-Added v z = record { valid = v; same_max = refl; cover = λ x. rw z (ground arith) }

  module _ (d : IsDummy t) where
    covers_dummy : (x : ℕ) → covers t.regions x ≡ false
    unfolding covers
    covers_dummy x = rw d.regions (ground arith)

    only_entry : tail_of t.regions ≡ []
    only_entry = rw d.regions

    is_empty_dummy : is_empty t.regions ≡ true
    unfolding is_empty
    is_empty_dummy = rw d.regions

    first-Added :
        0 < t.max_cnt
        → 0 < cap_size base size
        → Added t base size (record t {
          regions = region base (cap_size base size) ∷ [];
          total_size = cap_size base size;
        })
    unfolding covers total
    first-Added max_pos pos = record {
      valid = record {
        room = omega arith;
        max_pos = max_pos;
        shape = inr (record {
          some_region = omega arith;
          apart = (
            omega arith,
            pos,
            cap_size-le base size top,
            omega (arith, cap_size-le base size top),
          );
          counted = omega arith;
        });
      };
      same_max = refl;
      cover = λ x. ground (arith, covers_dummy x);
    }

  live-Outcome :
      (v : IsValid t) (live : IsLive t)
      → 0 < cap_size base size
      → (count : ℕ) → count ≡ (pass t base size top live v.room v.max_pos).nr_new
      → Outcome t base size (
          if count == 0
          then some t
          else if ltb t.max_cnt (length t.regions + count)
          then none
          else some (insert_round t base (base + cap_size base size)))
  live-Outcome v live pos count e = elim (Bool-cases (count == 0)) [
    | inl zero_new ↦
        rw zero_new (unchanged-Added t base size top live v.room v.max_pos (ground arith))
    | inr new ↦ rw new (elim (Bool-cases (ltb t.max_cnt (length t.regions + count))) [
      | inl full ↦ rw full (ground (arith, nr_new-le (scan t base size top live v.room v.max_pos)))
      | inr fits ↦
          rw fits
            (insert_round-Added t base size top live v.room v.max_pos (ground arith) (ground arith))
    ])
  ]

  -- On a valid array and a base below the top of the address space, `memblock_add_range` returns a
  -- valid array of the same capacity that holds exactly the old addresses and those from `base` to
  -- the capped end; or it panics, and then the array was at least half full.
  pub add_range-Outcome : IsValid t → Outcome t base size (add_range t base size)
  unfolding add_range
  add_range-Outcome v = elim (Bool-cases (cap_size base size == 0)) [
    | inl none_left ↦ rw none_left (nothing-Added v (ground arith))
    | inr some_left ↦
        rw (word64_small _ (cap_size-le base size top), some_left)
          (elim v.shape [
            | inl d ↦ rw (is_empty_dummy d, only_entry d) (first-Added d v.max_pos (ground arith))
            | inr live ↦ rw (is_empty-IsApart t.regions live.some_region live.apart) (
                live-Outcome v live (ground arith) _
                  (nr_new-add_pass t.regions base (base + cap_size base size)))
          ])
  ]
