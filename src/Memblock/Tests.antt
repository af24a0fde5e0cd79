-- ===== src/Memblock/Tests.antt =====
-- Ranges added to a region array, and the theorems there.
use xlinux.Common.{◌≡◌, inr, [], ◌∷◌, some, arith, refl}
use xlinux.Memblock.{
  region, MemblockType, empty_type, cap_size, add_pass, merge_regions, is_empty, insert_round,
  add_range,
}
use xlinux.Memblock.Cover.{total}
use xlinux.Memblock.Merge.{Merged, merge_regions-Merged}
use xlinux.Memblock.AddRange.{IsLive, IsValid, Outcome, add_range-Outcome}

abbrev dram : MemblockType
dram = record {
  regions = region 0x8000_0000 0x800_0000 ∷ [];
  max_cnt = 128;
  total_size = 0x800_0000;
}

-- A range that overlaps, fills a gap and touches its neighbours gives one region.
bridge :
    add_range (record dram { regions = region 10 5 ∷ region 20 5 ∷ []; total_size = 10 }) 12 8
    ≡ some (record dram { regions = region 10 15 ∷ []; total_size = 15 })
unfolding add_range cap_size add_pass is_empty insert_round merge_regions
bridge = refl

first_range :
    add_range empty_type 4096 100
    ≡ some (record empty_type { regions = region 4096 100 ∷ []; total_size = 100 })
unfolding add_range cap_size add_pass is_empty
first_range = refl

dram-IsLive : IsLive dram
unfolding total
dram-IsLive = record { some_region = omega arith; apart = omega arith; counted = refl }

dram-IsValid : IsValid dram
dram-IsValid = record { room = omega arith; max_pos = omega arith; shape = inr dram-IsLive }

add_range-Outcome_example : Outcome dram 0x9000_0000 4096 (add_range dram 0x9000_0000 4096)
add_range-Outcome_example = add_range-Outcome dram 0x9000_0000 4096 (omega arith) dram-IsValid

merge_regions-Merged_example :
    Merged (region 10 5 ∷ region 15 5 ∷ []) (merge_regions (region 10 5 ∷ region 15 5 ∷ []))
merge_regions-Merged_example = merge_regions-Merged (region 10 5 ∷ region 15 5 ∷ []) (omega arith)
