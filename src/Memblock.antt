-- ===== src/Memblock.antt =====
-- memblock/memblock.c: the early allocator's two region arrays, and adding a range to one.
-- A `struct memblock_type` is its live entries: `regions` holds the first `cnt` of the array,
-- so `cnt` is its length, and an insertion by `memmove` is an insertion into the list.
-- `phys_addr_t` is a 64-bit word: sums wrap at `2 ^ 64`.
pub mod Cover
pub mod AddRange
pub mod Alloc
pub mod Release
mod Tests
pub mod Merge
use xlinux.Common.{
  ℕ, zero, suc, ◌+◌, ◌-◌, ◌%◌, ◌^◌, min, Bool, true, false, Option, none, some, List, [], ◌∷◌, ltb,
  leb, ◌==◌, if◌then◌else◌, length,
}

abbrev pub word64 : ℕ → ℕ
word64 n = n % 2 ^ 64

-- `PHYS_ADDR_MAX`, which is `~(phys_addr_t)0`.
abbrev pub phys_addr_max : ℕ
phys_addr_max = 2 ^ 64 - 1

-- `INIT_MEMBLOCK_REGIONS`
abbrev pub init_memblock_regions : ℕ
init_memblock_regions = 128

pub record Region : Type 0 where
  pub base : ℕ
  pub size : ℕ

abbrev pub region : ℕ → ℕ → Region
region b s = record { base = b; size = s }

pub record MemblockType : Type 0 where
  pub regions : List Region
  pub max_cnt : ℕ
  pub total_size : ℕ

-- The static initialiser: one empty dummy entry.
abbrev pub empty_type : MemblockType
empty_type = record { regions = region 0 0 ∷ []; max_cnt = init_memblock_regions; total_size = 0 }

-- `memblock_cap_size`: the size that keeps the range below the top of the address space.
unfoldable pub cap_size : ℕ → ℕ → ℕ
cap_size base size = min size (phys_addr_max - base)

-- What one pass of `memblock_add_range` leaves: the counter, the entries from the scanned one on,
-- and the bytes that `memblock_insert_region` added to `total_size`.
pub record Pass : Type 0 where
  pub nr_new : ℕ
  pub entries : List Region
  pub added : ℕ

-- `nr_new++; if (insert) memblock_insert_region(type, idx, base, size)`, in front of `p.entries`.
abbrev pub insert_region : Bool → ℕ → ℕ → Pass → Pass
insert_region insert base size p = record {
  nr_new = suc p.nr_new;
  entries = if insert then region base size ∷ p.entries else p.entries;
  added = if insert then size + p.added else p.added;
}

-- The entries that the loop passes over stay in front.
abbrev pub keep : Region → Pass → Pass
keep r p = record p { entries = r ∷ p.entries }

abbrev pub untouched : List Region → Pass
untouched rs = record { nr_new = 0; entries = rs; added = 0 }

-- The code behind the loop: `if (base < end) ...`, in front of the entries that were not scanned.
abbrev pub add_remainder : Bool → ℕ → ℕ → List Region → Pass
add_remainder insert base end rs =
    if ltb base end then insert_region insert base (end - base) (untouched rs) else untouched rs

-- One round of the loop of `memblock_add_range`, over the entries from index `idx` on.
pub add_pass : Bool → ℕ → ℕ → List Region → Pass
add_pass insert base end [] = add_remainder insert base end []
add_pass insert base end (r ∷ rs) =
    let rend = word64 (r.base + r.size) in
    let next = if leb rend base then base else min rend end in
    let rest = add_pass insert next end rs in
    if leb end r.base
    then add_remainder insert base end (r ∷ rs)
    else if leb rend base
    then keep r rest
    else if ltb base r.base
    then insert_region insert base (r.base - base) (keep r rest)
    else keep r rest

-- `memblock_merge_regions`, with `this` in hand and the entries behind it.
pub merge_from : Region → List Region → List Region
merge_from this [] = this ∷ []
merge_from this (next ∷ rs) =
    let joined = word64 (this.base + this.size) == next.base in
    let rest =
      merge_from (if joined then region this.base (word64 (this.size + next.size)) else next) rs in
    if joined then rest else this ∷ rest

pub merge_regions : List Region → List Region
unfolding merge_from
merge_regions [] = []
merge_regions (r ∷ rs) = merge_from r rs

-- `type->regions[0].size == 0`; `cnt` is never 0, and the entry behind an empty list is zeroed.
pub is_empty : List Region → Bool
is_empty [] = true
is_empty (r ∷ rs) = r.size == 0

abbrev pub tail_of : List Region → List Region
tail_of [] = []
tail_of (r ∷ rs) = rs

-- The second round, with `insert` true, and the merge behind it.
pub insert_round : MemblockType → ℕ → ℕ → MemblockType
insert_round t base end =
    let p = add_pass true base end t.regions in
    if p.nr_new == 0 then t else record t {
      regions = merge_regions p.entries;
      total_size = word64 (t.total_size + p.added);
    }

-- `memblock_add_range`; `none` is the panic on a full array.
pub add_range : MemblockType → ℕ → ℕ → Option MemblockType
add_range t base size0 =
    let size = cap_size base size0 in
    let end = word64 (base + size) in
    let count = (add_pass false base end t.regions).nr_new in
    if size == 0
    then some t
    else if is_empty t.regions
    then some (record t { regions = region base size ∷ tail_of t.regions; total_size = size })
    else if count == 0
    then some t
    else if ltb t.max_cnt (length t.regions + count)
    then none
    else some (insert_round t base end)
