-- ===== src/Memblock/Release.antt =====
-- memblock/memblock.c: handing a range of page frames over to the buddy allocator in blocks.
pub mod Tiling
mod Tests
use xlinux.Common.{
  ℕ, zero, suc, ◌+◌, ◌-◌, ◌/◌, ◌^◌, min, Bool, true, false, Option, none, some, List, [], ◌∷◌, ltb,
  leb, ◌==◌, if◌then◌else◌,
}
use mathlib.Core.Option
use xlinux.Bitops.{ffs}
use xlinux.Memblock.{word64}

-- `MAX_ORDER` of include/mmzone.h and `PAGE_SHIFT` of include/page.h.
abbrev pub max_order : ℕ
max_order = 11

abbrev pub page_shift : ℕ
page_shift = 12

-- The call `memblock_free_pages(pfn_to_page(pfn), order)`.
pub record Block : Type 0 where
  pub pfn : ℕ
  pub order : ℕ

-- `while (start + (1UL << order) > end) order--;`, which stops at 0 as `start < end`.
pub shrink : ℕ → ℕ → ℕ → ℕ
shrink zero start end = zero
shrink (suc order) start end =
    let rest = shrink order start end in
    if ltb end (word64 (start + 2 ^ suc order)) then rest else suc order

-- The order of the next block of `__free_pages_memory`.
pub next_order : ℕ → ℕ → ℕ
next_order start end = shrink (min (max_order - 1) (ffs start)) start end

-- `__free_pages_memory` on fuel: the blocks that it frees, in order; `none` is that the fuel ran out.
pub free_pages_memory : ℕ → ℕ → ℕ → Option (List Block)
free_pages_memory zero start end = none
free_pages_memory (suc fuel) start end =
    let order = next_order start end in
    let rest = free_pages_memory fuel (word64 (start + 2 ^ order)) end in
    if ltb start end
    then Option.map (λ bs. record { pfn = start; order = order } ∷ bs) rest
    else some []

-- `PFN_UP` and `PFN_DOWN`
abbrev pub pfn_up : ℕ → ℕ
pfn_up x = word64 (x + 2 ^ page_shift - 1) / 2 ^ page_shift

abbrev pub pfn_down : ℕ → ℕ
pfn_down x = x / 2 ^ page_shift

-- `__free_memory_core`: the blocks that it frees and the number of pages that it returns. The loop
-- frees at least one page in each round, so a round for each page is enough.
pub free_memory_core : ℕ → ℕ → ℕ → Option (List Block × ℕ)
free_memory_core max_low_pfn start end =
    let start_pfn = pfn_up start in
    let end_pfn = min (pfn_down end) max_low_pfn in
    if leb end_pfn start_pfn
    then some ([], 0)
    else Option.map (λ bs. (bs, end_pfn - start_pfn))
        (free_pages_memory (suc (end_pfn - start_pfn)) start_pfn end_pfn)
