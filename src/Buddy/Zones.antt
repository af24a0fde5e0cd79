-- ===== src/Buddy/Zones.antt =====
-- buddy/buddy.c: the sizes of the zones at boot, and the list of zones to allocate from.
pub mod Sizing
pub mod Totals
pub mod Fallback
mod Tests
use xlinux.Common.{
  ℕ, zero, suc, ◌+◌, ◌-◌, ◌*◌, ◌/◌, ◌%◌, ◌^◌, min, max, Bool, true, false, ◌&&◌, ◌||◌, Option, none,
  some, List, [], ◌∷◌, ltb, leb, ◌==◌, if◌then◌else◌, map,
}
use xlinux.Memblock.{Region}
use xlinux.Memblock.Alloc.{clamp}

-- The difference of two `unsigned long`.
abbrev pub sub : ℕ → ℕ → ℕ
sub a b = (a + (2 ^ 64 - b)) % 2 ^ 64

-- The frames of the regions that `for_each_mem_pfn_range` visits: `PFN_UP` and `PFN_DOWN` of their
-- ends, where a whole frame is between them.
pub mem_pfn_ranges : List Region → List (ℕ × ℕ)
mem_pfn_ranges [] = []
mem_pfn_ranges (r ∷ l) =
    let up = (r.base + 4095) % 2 ^ 64 / 4096 in
    let down = (r.base + r.size) % 2 ^ 64 / 4096 in
    let rest = mem_pfn_ranges l in if leb down up then rest else (up, down) ∷ rest

-- The loop of `get_pfn_range_for_nid`.
pub widen : List (ℕ × ℕ) → ℕ → ℕ → ℕ × ℕ
widen [] start_pfn end_pfn = (start_pfn, end_pfn)
widen ((s, e) ∷ l) start_pfn end_pfn = widen l (min start_pfn s) (max end_pfn e)

pub get_pfn_range_for_nid : List (ℕ × ℕ) → ℕ × ℕ
get_pfn_range_for_nid ranges =
    let (start_pfn, end_pfn) = widen ranges (2 ^ 64 - 1) 0 in
    (if start_pfn == 2 ^ 64 - 1 then 0 else start_pfn, end_pfn)

-- `zone_spanned_pages_in_node` of a zone with the given lowest and highest possible frame.
pub zone_spanned_pages_in_node : ℕ → ℕ → ℕ → ℕ → ℕ
zone_spanned_pages_in_node zone_low zone_high node_start_pfn node_end_pfn =
    let zone_start_pfn = clamp node_start_pfn zone_low zone_high in
    let zone_end_pfn = clamp node_end_pfn zone_low zone_high in
    if (node_start_pfn == 0) && (node_end_pfn == 0)
    then 0
    else if ltb zone_end_pfn node_start_pfn || ltb node_end_pfn zone_start_pfn
    then 0
    else sub (min zone_end_pfn node_end_pfn) (max zone_start_pfn node_start_pfn)

-- The loop of `__absent_pages_in_range`.
pub absent_from : List (ℕ × ℕ) → ℕ → ℕ → ℕ → ℕ
absent_from [] range_start range_end nr_absent = nr_absent
absent_from ((s, e) ∷ l) range_start range_end nr_absent =
    absent_from l range_start range_end
      (sub nr_absent (sub (clamp e range_start range_end) (clamp s range_start range_end)))

-- `__absent_pages_in_range`
pub absent_pages_in_range : List (ℕ × ℕ) → ℕ → ℕ → ℕ
absent_pages_in_range ranges range_start range_end =
    absent_from ranges range_start range_end (sub range_end range_start)

pub zone_absent_pages_in_node : List (ℕ × ℕ) → ℕ → ℕ → ℕ → ℕ → ℕ
zone_absent_pages_in_node ranges zone_low zone_high node_start_pfn node_end_pfn =
    if (node_start_pfn == 0) && (node_end_pfn == 0)
    then 0
    else absent_pages_in_range ranges (clamp node_start_pfn zone_low zone_high)
        (clamp node_end_pfn zone_low zone_high)

-- The pages that `calculate_node_totalpages` finds present in a zone.
pub real_size : List (ℕ × ℕ) → ℕ → ℕ → ℕ × ℕ → ℕ
real_size ranges node_start_pfn node_end_pfn (zone_low, zone_high) =
    sub (zone_spanned_pages_in_node zone_low zone_high node_start_pfn node_end_pfn)
      (zone_absent_pages_in_node ranges zone_low zone_high node_start_pfn node_end_pfn)

-- The loop of `calculate_node_totalpages`: `totalpages` and `realtotalpages` over the zones.
pub calculate_node_totalpages : List (ℕ × ℕ) → ℕ → ℕ → List (ℕ × ℕ) → ℕ × ℕ
calculate_node_totalpages ranges node_start_pfn node_end_pfn [] = (0, 0)
calculate_node_totalpages ranges node_start_pfn node_end_pfn ((lo, hi) ∷ zones) =
    let rest = calculate_node_totalpages ranges node_start_pfn node_end_pfn zones in
    (
      (zone_spanned_pages_in_node lo hi node_start_pfn node_end_pfn + rest.0) % 2 ^ 64,
      (real_size ranges node_start_pfn node_end_pfn (lo, hi) + rest.1) % 2 ^ 64,
    )

-- The loop of `free_area_init` over the zones before `ZONE_MOVABLE`, which keeps no frames.
pub area_bounds : ℕ → List ℕ → List (ℕ × ℕ)
area_bounds start_pfn [] = (0, 0) ∷ []
area_bounds start_pfn (m ∷ l) = (start_pfn, max m start_pfn) ∷ area_bounds (max m start_pfn) l

-- `zone_sizes_init`: the possible frames of `ZONE_DMA32`, `ZONE_NORMAL` and `ZONE_MOVABLE`.
pub zone_sizes_init : ℕ → ℕ → List (ℕ × ℕ)
zone_sizes_init start_pfn max_low_pfn =
    area_bounds start_pfn (min (2 ^ 20) max_low_pfn ∷ max_low_pfn ∷ [])

-- The totals that `free_area_init_node` finds: the pages of the node, spanned and present. The page
-- structures and the zones that it sets up behind them are not in the model.
pub free_area_init_node : List (ℕ × ℕ) → List (ℕ × ℕ) → ℕ × ℕ
free_area_init_node ranges zones =
    let (start_pfn, end_pfn) = get_pfn_range_for_nid ranges in
    calculate_node_totalpages ranges start_pfn end_pfn zones

-- `build_zonerefs_node`: the indices of the managed zones below `n`, the highest first.
pub build_zonerefs_node : (ℕ → ℕ) → ℕ → List ℕ
build_zonerefs_node managed_pages zero = []
build_zonerefs_node managed_pages (suc zone_type) =
    let rest = build_zonerefs_node managed_pages zone_type in
    if managed_pages zone_type == 0 then rest else zone_type ∷ rest

-- `__next_zones_zonelist`, from the head of the list on; the end of the list has index 0 and no
-- zone.
pub next_zones_zonelist : List ℕ → ℕ → List ℕ
next_zones_zonelist [] highest_zoneidx = []
next_zones_zonelist (z ∷ l) highest_zoneidx =
    let rest = next_zones_zonelist l highest_zoneidx in
    if ltb highest_zoneidx z then rest else z ∷ l
