-- ===== src/Memblock/Alloc.antt =====
-- memblock/memblock.c: the walk over free ranges from the top (`__next_mem_range_rev`, used by
-- `for_each_free_mem_range_reverse`), and the allocations that search it.
-- The packed `u64 *idx` is a record of its two halves, each one more than the C index, so that
-- the index -1 is 0 and the end mark `ULLONG_MAX` is `none`.
pub mod Gaps
pub mod Found
pub mod Reserve
mod Tests
use xlinux.Common.{
  ℕ, zero, suc, ◌+◌, ◌-◌, ◌*◌, ◌^◌, min, max, Bool, true, false, Option, none, some, List, [], ◌∷◌,
  ltb, leb, ◌==◌, if◌then◌else◌, length, get_elem?, bit_and,
}
use mathlib.Core.Option
use xlinux.Memblock.{Region, region, MemblockType, word64, phys_addr_max, add_range}

pub record Cursor : Type 0 where
  pub idx_a : ℕ
  pub idx_b : ℕ

pub record Range : Type 0 where
  pub start : ℕ
  pub stop : ℕ

abbrev pub range : ℕ → ℕ → Range
range a b = record { start = a; stop = b }

-- An entry of the static array; those never written are zero.
abbrev pub region_at : List Region → ℕ → Region
region_at rs i = Option.get_or (get_elem? rs i) (region 0 0)

abbrev pub end_of : Region → ℕ
end_of r = word64 (r.base + r.size)

-- `idx_b ? (r[-1].base + r[-1].size) : 0`
unfoldable pub gap_start : List Region → ℕ → ℕ
gap_start rs zero = 0
gap_start rs (suc i) = end_of (region_at rs i)

-- `(idx_b < type_b->cnt) ? r->base : PHYS_ADDR_MAX`
unfoldable pub gap_end : List Region → ℕ → ℕ
gap_end rs i = if ltb i (length rs) then (region_at rs i).base else phys_addr_max

-- The inner loop over the gaps between reservations, for one memory region.
pub data GapScan : Type 0 where
  found : Range → Bool → ℕ → GapScan
  left : ℕ → GapScan

-- `found range advance_a idx_b`: the ranges meet, and `advance_a` says which index falls;
-- `left idx_b`: the loop ended by its `break` or by its test.
pub gap_scan : List Region → ℕ → ℕ → ℕ → GapScan
gap_scan rs m_start m_end zero = left zero
gap_scan rs m_start m_end (suc i) =
    let r_start = gap_start rs i in
    let r_end = gap_end rs i in
    let rest = gap_scan rs m_start m_end i in
    if leb r_end m_start
    then left (suc i)
    else if ltb r_start m_end
    then found (range (max m_start r_start) (min m_end r_end)) (leb r_start m_start) (suc i)
    else rest

-- `__next_mem_range_rev` with both types given, from a cursor on.
pub next_mem_range_rev : List Region → List Region → ℕ → ℕ → Option (Range × Cursor)
next_mem_range_rev ms rs zero b = none
next_mem_range_rev ms rs (suc i) b =
    let m = region_at ms i in
    elim (gap_scan rs m.base (end_of m) b) [
      | found r true b' ↦ some (r, record { idx_a = i; idx_b = b' })
      | found r false b' ↦ some (r, record { idx_a = suc i; idx_b = b' - 1 })
      | left b' ↦ next_mem_range_rev ms rs i b'
    ]

-- `clamp(val, lo, hi)`
abbrev pub clamp : ℕ → ℕ → ℕ → ℕ
clamp val lo hi = min (max val lo) hi

-- `round_down(x, y)`: `x & ~(y - 1)` on 64 bits.
unfoldable pub round_down : ℕ → ℕ → ℕ
round_down x y = bit_and x (2 ^ 64 - 1 - (y - 1))

-- The candidate of one iteration of `__memblock_find_range_top_down`, or `continue`.
pub candidate : ℕ → ℕ → ℕ → ℕ → Range → Option ℕ
candidate start end size align r =
    let this_start = clamp r.start start end in
    let this_end = clamp r.stop start end in
    let cand = round_down (this_end - size) align in
    if ltb this_end size then none else if leb this_start cand then some cand else none

-- `__memblock_find_range_top_down`, on fuel; `none` is that the fuel ran out.
pub find_top_down : List Region → List Region → ℕ → ℕ → ℕ → ℕ → (fuel : ℕ) → (a b : ℕ) → Option ℕ
find_top_down ms rs start end size align zero a b = none
find_top_down ms rs start end size align (suc fuel) a b = elim (next_mem_range_rev ms rs a b) [
  | none ↦ some 0
  | some (r, c) ↦ elim (candidate start end size align r) [
    | some cand ↦ some cand
    | none ↦ find_top_down ms rs start end size align fuel c.idx_a c.idx_b
  ]
]

-- `struct memblock`, with the flag `_memblock_stopped`.
pub record Memblock : Type 0 where
  pub current_limit : ℕ
  pub memory : MemblockType
  pub reserved : MemblockType
  pub stopped : Bool

abbrev pub page_size : ℕ
page_size = 4096

abbrev pub smp_cache_bytes : ℕ
smp_cache_bytes = 64

-- `memblock_find_in_range_node`; the walk starts at the top and takes a step for each index.
pub find_in_range_node : Memblock → ℕ → ℕ → Option ℕ
find_in_range_node mb size align =
    let a = length mb.memory.regions in
    let b = suc (length mb.reserved.regions) in
    find_top_down mb.memory.regions mb.reserved.regions page_size mb.current_limit size align
      (suc (a + b)) a b

-- `memblock_reserve`; `none` is the panic on a full array.
pub reserve : Memblock → ℕ → ℕ → Option Memblock
reserve mb base size =
    Option.map (λ t. record mb { reserved = t }) (add_range mb.reserved base size)

-- `memblock_add`
pub add : Memblock → ℕ → ℕ → Option Memblock
add mb base size = Option.map (λ t. record mb { memory = t }) (add_range mb.memory base size)

-- `memblock_alloc_range_nid`: the address, 0 for no space, and the new state; `none` is a panic.
pub alloc_range_nid : Memblock → ℕ → ℕ → Option (ℕ × Memblock)
alloc_range_nid mb size align0 =
    let align = if align0 == 0 then smp_cache_bytes else align0 in
    if mb.stopped then none else elim (find_in_range_node mb size align) [
      | none ↦ none
      | some zero ↦ some (0, mb)
      | some (suc n) ↦ Option.map (λ mb'. (suc n, mb')) (reserve mb (suc n) size)
    ]
