-- ===== src/Memblock/Release/Tests.antt =====
-- The blocks freed for a byte range, and the theorem there.
use xlinux.Common.{ℕ, ◌≡◌, List, [], ◌∷◌, some, arith, refl}
use xlinux.Bitops.{ffs_step, ffs}
use xlinux.Memblock.Release.{Block, shrink, next_order, free_pages_memory, free_memory_core}
use xlinux.Memblock.Release.Tiling.{Freed, free_memory_core-Freed}

abbrev block : ℕ → ℕ → Block
block p o = record { pfn = p; order = o }

split_blocks :
    free_memory_core 100 0x3001 0xb500 ≡ some (block 4 2 ∷ block 8 1 ∷ block 10 0 ∷ [], 7)
unfolding free_memory_core free_pages_memory next_order shrink ffs ffs_step
split_blocks = refl

free_memory_core-Freed_example :
    (bs : List Block) × (count : ℕ) × (free_memory_core 100 0x3001 0xb500 ≡ some (bs, count))
    × Freed 100 0x3001 0xb500 bs count
free_memory_core-Freed_example =
    free_memory_core-Freed 100 0x3001 0xb500 (omega arith) (omega arith)
