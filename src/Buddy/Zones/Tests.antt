-- ===== src/Buddy/Zones/Tests.antt =====
-- A node with a hole in its memory, and the theorems there.
use xlinux.Common.{ℕ, ◌==◌, if◌then◌else◌, ◌-◌, ◌≡◌, List, [], ◌∷◌, arith}
use xlinux.Buddy.Zones.{
  get_pfn_range_for_nid, zone_sizes_init, free_area_init_node, build_zonerefs_node,
  next_zones_zonelist,
}
use xlinux.Buddy.Zones.Sizing.{Ordered, frames}
use xlinux.Buddy.Zones.Totals.{free_area_init_node_lem}
use xlinux.Buddy.Zones.Fallback.{Chosen, zonelist-Chosen}

-- 2 GB from 0x80000000 on, and 1 GB above 4 GB.
abbrev memory : List (ℕ × ℕ)
memory = (0x80000, 0xfff00) ∷ (0x100000, 0x140000) ∷ []

memory-Ordered : Ordered 0x80000 0x140000 memory
memory-Ordered = (omega arith, omega arith, (omega arith, omega arith, omega arith))

free_area_init_node_lem_example :
    ((free_area_init_node memory (zone_sizes_init 0x80000 0x140000)).1 ≡ frames memory)
    × ((free_area_init_node memory (zone_sizes_init 0x80000 0x140000)).0
        ≡ (get_pfn_range_for_nid memory).1 - (get_pfn_range_for_nid memory).0)
free_area_init_node_lem_example =
    free_area_init_node_lem 0x80000 0x140000 memory memory-Ordered (omega arith)

-- The zone of high frames alone is managed.
abbrev managed : ℕ → ℕ
managed zone = if zone == 1 then 500 else 0

zonelist-Chosen_example : Chosen managed 3 2 (next_zones_zonelist (build_zonerefs_node managed 3) 2)
zonelist-Chosen_example = zonelist-Chosen managed 2 3
