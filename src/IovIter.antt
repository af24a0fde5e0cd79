-- ===== src/IovIter.antt =====
-- iov_iter/iov_iter.c and include/uio.h: copying into a sequence of memory segments.
pub mod Writing
pub mod Iterating
pub mod Advancing
pub mod Copying
mod Tests
use xlinux.Common.{
  ℕ, ◌+◌, ◌-◌, ◌%◌, ◌^◌, min, Bool, true, false, Option, none, some, List, [], ◌∷◌, ◌++◌, ◌==◌, ltb,
  leb, ◌&&◌, if◌then◌else◌, length, take, drop,
}

abbrev pub Bytes : Type 0
Bytes = List ℕ

-- `enum iter_type`
pub data IterType : Type 0 where
  iter_iovec : IterType
  iter_kvec : IterType
  iter_bvec : IterType
  iter_pipe : IterType
  iter_discard : IterType

-- A `struct iov_iter`: its `type` is the kind and the direction. With the memory of its segments, those before the pointer `kvec` and those
-- from there on; their number there is `nr_segs`.
pub record IovIter : Type 0 where
  pub iter_type : IterType
  pub direction : ℕ
  pub iov_offset : ℕ
  pub count : ℕ
  pub passed : List Bytes
  pub kvec : List Bytes

-- `iov_iter_init`; the Boolean is `uaccess_kernel()`, and `none` is the `BUG_ON` of a direction
-- that is neither `READ` nor `WRITE`.
pub iov_iter_init : Bool → ℕ → List Bytes → ℕ → Option IovIter
iov_iter_init uaccess_kernel direction iov count =
    if ltb 1 direction
    then none
    else some (record {
      iter_type = if uaccess_kernel then IterType.iter_kvec else IterType.iter_iovec;
      direction = direction;
      iov_offset = 0;
      count = count;
      passed = [];
      kvec = iov;
    })

-- `memcpy` of `n` bytes over the start of a memory.
abbrev pub overwrite : ℕ → Bytes → Bytes → Bytes
overwrite n from old = take n from ++ drop n old

-- The variables `__p` and `skip` of `iterate_kvec`: the segment that `__p` points to, those it has
-- passed since `i->kvec`, and those behind.
pub record KvecCursor : Type 0 where
  pub before : List Bytes
  pub current : Bytes
  pub behind : List Bytes
  pub skip : ℕ

pub pass_segment : Bytes → Option KvecCursor → Option KvecCursor
pass_segment segment none = none
pass_segment segment (some c) = some (record c { before = segment ∷ c.before })

-- The loop of `iterate_kvec`, with the bytes that are still to be copied; `none` is a read behind
-- the last segment.
pub next_kvecs : Bytes → ℕ → List Bytes → Bytes → Option KvecCursor
next_kvecs current skip behind [] =
    some (record { before = []; current = current; behind = behind; skip = skip })
next_kvecs current skip [] (b ∷ from) = none
next_kvecs current skip (segment ∷ behind) (b ∷ from) =
    let iov_len = min (length (b ∷ from)) (length segment) in
    let skipped = next_kvecs segment skip behind (b ∷ from) in
    let written =
      next_kvecs (overwrite iov_len (b ∷ from) segment) iov_len behind (drop iov_len (b ∷ from)) in
    pass_segment current (if iov_len == 0 then skipped else written)

-- `iterate_kvec`
pub iterate_kvec : List Bytes → ℕ → Bytes → Option KvecCursor
iterate_kvec [] skip from = none
iterate_kvec (segment ∷ behind) skip from =
    let room =
      if ltb (length segment) skip then length segment + 2 ^ 64 - skip else length segment - skip in
    let iov_len = min (length from) room in
    next_kvecs (take skip segment ++ overwrite iov_len from (drop skip segment)) (skip + iov_len)
      behind (drop iov_len from)

-- The end of `iterate_and_advance`.
pub advance_kvec : IovIter → ℕ → KvecCursor → IovIter
advance_kvec i n c =
    if c.skip == length c.current
    then record i {
      iov_offset = 0;
      count = i.count - n;
      passed = i.passed ++ (c.before ++ (c.current ∷ []));
      kvec = c.behind;
    }
    else record i {
      iov_offset = c.skip;
      count = i.count - n;
      passed = i.passed ++ c.before;
      kvec = c.current ∷ c.behind;
    }

pub advanced : IovIter → ℕ → Option KvecCursor → Option (ℕ × IovIter)
advanced i n none = none
advanced i n (some c) = some (n, advance_kvec i n c)

-- `iterate_and_advance`, by the type of the iterator.
pub iterate_and_advance : IterType → Bytes → IovIter → Option (ℕ × IovIter)
iterate_and_advance IterType.iter_kvec from i =
    let n = min (length from) i.count in
    if i.count == 0
    then some (n, i)
    else advanced i n (iterate_kvec i.kvec i.iov_offset (take n from))
iterate_and_advance IterType.iter_bvec from i = if i.count == 0 then some (0, i) else none
iterate_and_advance IterType.iter_discard from i = if i.count == 0 then some (0, i) else none
iterate_and_advance IterType.iter_iovec from i = if i.count == 0 then some (0, i) else none
iterate_and_advance IterType.iter_pipe from i = if i.count == 0 then some (0, i) else none

-- `_copy_to_iter`: the number of bytes copied, and the iterator; `none` is a panic.
pub copy_to_iter_of : IterType → Bytes → IovIter → Option (ℕ × IovIter)
copy_to_iter_of IterType.iter_pipe from i = none
copy_to_iter_of IterType.iter_iovec from i = none
copy_to_iter_of IterType.iter_kvec from i = iterate_and_advance IterType.iter_kvec from i
copy_to_iter_of IterType.iter_bvec from i = iterate_and_advance IterType.iter_bvec from i
copy_to_iter_of IterType.iter_discard from i = iterate_and_advance IterType.iter_discard from i

pub copy_to_iter : Bytes → IovIter → Option (ℕ × IovIter)
copy_to_iter from i = copy_to_iter_of i.iter_type from i

-- The test for the types that `copy_page_to_iter` copies to.
pub is_bvec_or_kvec : IterType → Bool
is_bvec_or_kvec IterType.iter_kvec = true
is_bvec_or_kvec IterType.iter_bvec = true
is_bvec_or_kvec IterType.iter_iovec = false
is_bvec_or_kvec IterType.iter_pipe = false
is_bvec_or_kvec IterType.iter_discard = false

-- `page_copy_sane`, which panics where this is false.
pub page_copy_sane : ℕ → ℕ → Bool
page_copy_sane offset n = leb n ((n + offset) % 2 ^ 64) && leb ((n + offset) % 2 ^ 64) (2 ^ 12)

-- `copy_page_to_iter`, with the bytes of the page.
pub copy_page_to_iter : Bytes → ℕ → ℕ → IovIter → Option (ℕ × IovIter)
copy_page_to_iter page offset bytes i =
    if page_copy_sane offset bytes && is_bvec_or_kvec i.iter_type
    then copy_to_iter (take bytes (drop offset page)) i
    else none
