-- ===== src/Bitops/Tests.antt =====
-- Runs of include/log2.h, and its theorem at a concrete word.
use xlinux.Common.{◌-◌, ◌≤◌, ◌<◌, ◌%◌, ◌/◌, ◌^◌, ◌≡◌, arith, refl}
use xlinux.Bitops.{ffs_step, ffs, fls}
use xlinux.Bitops.HighestBit.{fls_digits}
use xlinux.Bitops.LowestBit.{ffs_lowest}

high_bit : ffs 0x8000_0000_0000_0000 ≡ 63
unfolding ffs ffs_step
high_bit = refl

ffs_lowest_example : (ffs 40 < 64) × (40 % 2 ^ ffs 40 ≡ 0) × (40 / 2 ^ ffs 40 % 2 ≡ 1)
ffs_lowest_example = ffs_lowest 40 (omega arith) (omega arith)

fls_digits_example : (fls 40 ≤ 32) × (2 ^ (fls 40 - 1) ≤ 40) × (40 < 2 ^ fls 40)
fls_digits_example = fls_digits 40 (omega arith) (omega arith)
