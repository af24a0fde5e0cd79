-- ===== src/Slab/Sizes.antt =====
-- slab/slab.c and include/slab.h: the caches of `kmalloc` and the geometry of a cache.
pub mod Kmalloc
pub mod Rounding
pub mod Orders
pub mod Fitting
use xlinux.Common.{
  ℕ, zero, suc, ◌+◌, ◌-◌, ◌*◌, ◌/◌, ◌%◌, ◌^◌, max, Bool, true, false, not, ◌&&◌, Option, none, some,
  List, [], ◌∷◌, ltb, leb, ◌==◌, if◌then◌else◌, get_elem?, set, bit_and,
}
use xlinux.Common.Tables.{update}
use xlinux.Bitops.{fls}
use xlinux.Slab.{Cache, page_size}

abbrev pub kmalloc_shift_low : ℕ
kmalloc_shift_low = 5

abbrev pub kmalloc_shift_high : ℕ
kmalloc_shift_high = 22

-- `KMALLOC_MIN_SIZE`
abbrev pub kmalloc_min_size : ℕ
kmalloc_min_size = 32

-- `KMALLOC_MAX_CACHE_SIZE`
abbrev pub kmalloc_max_cache_size : ℕ
kmalloc_max_cache_size = 4194304

abbrev pub size_index : List ℕ
size_index =
    3 ∷ 4 ∷ 5 ∷ 5 ∷ 6 ∷ 6 ∷ 6 ∷ 6 ∷ 1 ∷ 1 ∷ 1 ∷ 1 ∷ 7 ∷ 7 ∷ 7 ∷ 7 ∷ 2 ∷ 2 ∷ 2 ∷ 2 ∷ 2 ∷ 2 ∷ 2 ∷ 2
    ∷ []

-- The sizes of `kmalloc_info`.
abbrev pub kmalloc_info : List ℕ
kmalloc_info =
    0 ∷ 96 ∷ 192 ∷ 8 ∷ 16 ∷ 32 ∷ 64 ∷ 128 ∷ 256 ∷ 512 ∷ 1024 ∷ 2048 ∷ 4096 ∷ 8192 ∷ 16384 ∷ 32768
    ∷ 65536 ∷ 131072 ∷ 262144 ∷ 524288 ∷ 1048576 ∷ 2097152 ∷ 4194304 ∷ 8388608 ∷ 16777216 ∷ 33554432
    ∷ 67108864 ∷ []

pub size_index_elem : ℕ → ℕ
size_index_elem bytes = (bytes - 1) / 8

-- The loop of `setup_kmalloc_cache_index_table`, `n` rounds left.
pub adjust_index : ℕ → ℕ → List ℕ → List ℕ
adjust_index zero i table = table
adjust_index (suc n) i table =
    if leb 24 (size_index_elem i)
    then table
    else adjust_index n (i + 8) (set table (size_index_elem i) kmalloc_shift_low)

-- `setup_kmalloc_cache_index_table`: `i` is 8, 16 and 24.
pub setup_kmalloc_cache_index_table : List ℕ → List ℕ
setup_kmalloc_cache_index_table table = adjust_index 3 8 table

-- What `kmalloc_slab` returns: a pointer that is no cache, the cache of an index, or `BUG_ON`.
pub data Choice : Type 0 where
  zero_size_ptr : Choice
  cache : ℕ → Choice
  bug : Choice

pub index_choice : Option ℕ → Choice
index_choice none = Choice.bug
index_choice (some index) = Choice.cache index

pub kmalloc_slab : List ℕ → ℕ → Choice
kmalloc_slab table size =
    if leb size 192
    then if size == 0
      then Choice.zero_size_ptr
      else index_choice (get_elem? table (size_index_elem size))
    else if ltb kmalloc_max_cache_size size
    then Choice.bug
    else Choice.cache (fls (size - 1))

-- The tests of `kmalloc_index` from `size <= 8` on: the powers of two in turn; `none` is `BUG`.
pub first_power : ℕ → ℕ → ℕ → Option ℕ
first_power zero k size = none
first_power (suc n) k size =
    let rest = first_power n (suc k) size in if leb size (2 ^ k) then some k else rest

pub kmalloc_index : ℕ → Option ℕ
kmalloc_index size =
    if size == 0
    then some 0
    else if leb size kmalloc_min_size
    then some kmalloc_shift_low
    else if ltb 64 size && leb size 96
    then some 1
    else if ltb 128 size && leb size 192
    then some 2
    else first_power 24 3 size

-- `new_kmalloc_cache`: the entry of `kmalloc_caches` is the size of its cache.
pub new_kmalloc_cache : ℕ → (ℕ → Option ℕ) → ℕ → Option ℕ
new_kmalloc_cache idx caches = update caches idx (get_elem? kmalloc_info idx)

pub is_null : Option ℕ → Bool
is_null none = true
is_null (some size) = false

-- The body of the loop of `create_kmalloc_caches`.
pub create_round : ℕ → (ℕ → Option ℕ) → ℕ → Option ℕ
create_round i caches =
    let own = if is_null (caches i) then new_kmalloc_cache i caches else caches in
    let odd = if i == 6 && is_null (own 1) then new_kmalloc_cache 1 own else own in
    if i == 7 && is_null (odd 2) then new_kmalloc_cache 2 odd else odd

-- The first `n` rounds of its loop.
pub create_rounds : ℕ → (ℕ → Option ℕ) → ℕ → Option ℕ
create_rounds zero caches = caches
create_rounds (suc n) caches = create_round (kmalloc_shift_low + n) (create_rounds n caches)

pub create_kmalloc_caches : (ℕ → Option ℕ) → ℕ → Option ℕ
create_kmalloc_caches caches = create_rounds 18 caches

-- `ALIGN` on an `unsigned int`.
pub align : ℕ → ℕ → ℕ
align x a = bit_and ((x + (a - 1)) % 2 ^ 32) (2 ^ 32 - a)

-- The loop of `calculate_alignment`: `none` where it does not end within the fuel.
pub halve_alignment : ℕ → ℕ → ℕ → Option ℕ
halve_alignment zero size ralign = none
halve_alignment (suc n) size ralign =
    let rest = halve_alignment n size (ralign / 2) in
    if leb size (ralign / 2) then rest else some ralign

-- `calculate_alignment`, with the flag `SLAB_HWCACHE_ALIGN`.
pub calculate_alignment : Bool → ℕ → ℕ → Option ℕ
calculate_alignment false a size = some (align (max a 8) 8)
calculate_alignment true a size = elim (halve_alignment 7 size 64) [
  | none ↦ none
  | some ralign ↦ some (align (max (max a ralign) 8) 8)
]

-- The number that `cache_estimate` returns; `objfreelist` is the flag.
pub cache_estimate : ℕ → ℕ → Bool → ℕ
cache_estimate gfporder buffer_size objfreelist =
    if objfreelist
    then page_size * 2 ^ gfporder / buffer_size
    else page_size * 2 ^ gfporder / (buffer_size + 1)

-- The loop of `calculate_slab_order`, `n` rounds left: `num` and `gfporder`, where it sets them.
pub slab_order : ℕ → ℕ → ℕ → Bool → Option (ℕ × ℕ)
slab_order zero gfporder size objfreelist = none
slab_order (suc n) gfporder size objfreelist =
    let num = cache_estimate gfporder size objfreelist in
    let rest = slab_order n (suc gfporder) size objfreelist in
    if num == 0 then rest else if ltb 255 num then none else some (num, gfporder)

-- `calculate_slab_order`: the orders up to `KMALLOC_MAX_ORDER`, 10.
pub calculate_slab_order : ℕ → Bool → Option (ℕ × ℕ)
calculate_slab_order size objfreelist = slab_order 11 0 size objfreelist

-- `set_objfreelist_slab_cache`, of a cache without constructor.
pub set_objfreelist_slab_cache : ℕ → ℕ → Option (ℕ × ℕ)
set_objfreelist_slab_cache object_size size = elim (calculate_slab_order size true) [
  | none ↦ none
  | some (num, gfporder) ↦ if ltb object_size num then none else some (num, gfporder)
]

-- `set_on_slab_cache`
pub set_on_slab_cache : ℕ → Option (ℕ × ℕ)
set_on_slab_cache size = calculate_slab_order size false

abbrev pub with_geometry : ℕ → Bool → ℕ × ℕ → Cache
with_geometry size objfreelist (num, gfporder) = record {
  size = size;
  num = num;
  gfporder = gfporder;
  freelist_size = num;
  objfreelist = objfreelist;
}

-- The object size with its alignment, in `__kmem_cache_create`.
pub object_room : ℕ → ℕ → ℕ
object_room size a =
    let a = if ltb 8 a then a else 8 in
    let size = align (align size 8) a in if ltb size 16 then align 16 a else size

-- The geometry that `__kmem_cache_create` sets; `none` is the panic "bad cache!".
pub kmem_cache_create : ℕ → ℕ → Option Cache
kmem_cache_create object_size a =
    let size = object_room object_size a in
    elim (set_objfreelist_slab_cache object_size size) [
      | some shape ↦ some (with_geometry size true shape)
      | none ↦ elim (set_on_slab_cache size) [
        | some shape ↦ some (with_geometry size false shape)
        | none ↦ none
      ]
    ]
