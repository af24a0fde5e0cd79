-- ===== src/Memblock/Alloc/Tests.antt =====
-- Allocations from memblock at a boot state, and their theorems there.
use xlinux.Common.{ℕ, ◌≡◌, ◌⊎◌, inr, false, [], ◌∷◌, some, arith, refl}
use xlinux.Memblock.{
  region, MemblockType, cap_size, add_pass, merge_regions, is_empty, insert_round, add_range,
  phys_addr_max,
}
use xlinux.Memblock.Cover.{total}
use xlinux.Memblock.AddRange.{IsLive, IsValid}
use xlinux.Memblock.Alloc.{
  Memblock, gap_start, gap_end, gap_scan, next_mem_range_rev, round_down, candidate, find_top_down,
  find_in_range_node, reserve, alloc_range_nid,
}
use xlinux.Memblock.Alloc.Found.{Placed, find_top_down-Placed}
use xlinux.Memblock.Alloc.Reserve.{IsReady, Allocated, alloc_range_nid-Allocated}

abbrev dram : MemblockType
dram = record {
  regions = region 0x8000_0000 0x800_0000 ∷ [];
  max_cnt = 128;
  total_size = 0x800_0000;
}

abbrev kernel : MemblockType
kernel = record {
  regions = region 0x8020_0000 0x20_0000 ∷ [];
  max_cnt = 128;
  total_size = 0x20_0000;
}

abbrev booted : Memblock
booted = record { current_limit = phys_addr_max; memory = dram; reserved = kernel; stopped = false }

top_page :
    alloc_range_nid booted 4096 4096
    ≡ some (
      0x87ff_f000,
      record booted {
        reserved = record kernel {
          regions = region 0x8020_0000 0x20_0000 ∷ region 0x87ff_f000 4096 ∷ [];
          total_size = 0x20_1000;
        };
      },
    )
unfolding alloc_range_nid find_in_range_node find_top_down next_mem_range_rev gap_scan gap_start
    gap_end candidate round_down reserve add_range cap_size add_pass is_empty insert_round
    merge_regions
top_page = refl

dram-IsLive : IsLive dram
unfolding total
dram-IsLive = record { some_region = omega arith; apart = omega arith; counted = refl }

kernel-IsLive : IsLive kernel
unfolding total
kernel-IsLive = record { some_region = omega arith; apart = omega arith; counted = refl }

dram-IsValid : IsValid dram
dram-IsValid = record { room = omega arith; max_pos = omega arith; shape = inr dram-IsLive }

kernel-IsValid : IsValid kernel
kernel-IsValid = record { room = omega arith; max_pos = omega arith; shape = inr kernel-IsLive }

booted-IsReady : IsReady booted
booted-IsReady = record {
  memory = dram-IsValid;
  reserved = kernel-IsValid;
  limit = omega arith;
  running = refl;
}

alloc_range_nid-Allocated_example :
    (addr : ℕ) × (after : Memblock) × (alloc_range_nid booted 4096 4096 ≡ some (addr, after))
    × (((addr ≡ 0) × (after ≡ booted)) ⊎ Allocated booted 4096 4096 addr after)
alloc_range_nid-Allocated_example =
    alloc_range_nid-Allocated booted 4096 booted-IsReady (omega arith) (omega arith) 4096 12
      (omega arith) refl

find_top_down-Placed_example :
    (res : ℕ) × (find_top_down dram.regions kernel.regions 4096 phys_addr_max 4096 4096 4 1 2
      ≡ some res)
    × ((res ≡ 0) ⊎ Placed dram.regions kernel.regions 4096 phys_addr_max 4096 4096 res)
find_top_down-Placed_example =
    find_top_down-Placed dram.regions kernel.regions (omega arith) (omega arith) 4096 phys_addr_max
      4096 12 (omega arith) (omega arith) (omega arith) 4 1 2 (omega arith) (omega arith)
      (omega arith)
