-- ===== src/Bitops.antt =====
-- include/log2.h: the search for the lowest set bit of a 64-bit word, and for the highest of a
-- 32-bit word.
pub mod LowestBit
pub mod HighestBit
mod Tests
use xlinux.Common.{ℕ, ◌+◌, ◌-◌, ◌*◌, ◌/◌, ◌%◌, ◌^◌, Bool, true, false, ◌==◌, if◌then◌else◌, bit_and}

-- One of the six tests of `__ffs`: `num` and `word` after it.
unfoldable pub ffs_step : ℕ → ℕ × ℕ → ℕ × ℕ
ffs_step k (num, word) =
    if bit_and word (2 ^ k - 1) == 0 then (num + k, word / 2 ^ k) else (num, word)

-- `__ffs`. The last test adds 1 to `num` and leaves `word`, which nothing reads any more.
unfoldable pub ffs : ℕ → ℕ
ffs word =
    (ffs_step 1 (ffs_step 2 (ffs_step 4 (ffs_step 8 (ffs_step 16 (ffs_step 32 (0, word))))))).0

-- One of the five tests of `fls`: `x` and `r` after it.
unfoldable pub fls_step : ℕ → ℕ × ℕ → ℕ × ℕ
fls_step k (x, r) =
    if bit_and x ((2 ^ k - 1) * 2 ^ (32 - k)) == 0 then (x * 2 ^ k % 2 ^ 32, r - k) else (x, r)

-- `fls`
unfoldable pub fls : ℕ → ℕ
fls x =
    if x == 0
    then 0
    else (fls_step 1 (fls_step 2 (fls_step 4 (fls_step 8 (fls_step 16 (x, 32)))))).1
