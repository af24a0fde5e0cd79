-- ===== src/Slab.antt =====
-- slab/slab.c: the object caches. A `struct page` is its frame number, an object its address.
pub mod Release
pub mod Sizes
pub mod Places
mod Tests
use xlinux.Common.{
  ℕ, zero, suc, ◌+◌, ◌-◌, ◌*◌, ◌/◌, ◌%◌, ◌^◌, Bool, true, false, Option, none, some, List, [], ◌∷◌,
  ◌++◌, ltb, ◌==◌, if◌then◌else◌,
}
use xlinux.Common.Tables.{update}
use xlinux.Buddy.{list_del}

-- The geometry of a `struct kmem_cache`; `objfreelist` is the flag `CFLGS_OBJFREELIST_SLAB`.
pub record Cache : Type 0 where
  pub size : ℕ
  pub num : ℕ
  pub gfporder : ℕ
  pub freelist_size : ℕ
  pub objfreelist : Bool

-- The fields of a `struct page` that make it a slab, and the bytes of its memory by their address.
pub record Slab : Type 0 where
  pub s_mem : ℕ
  pub active : ℕ
  pub freelist : Option ℕ
  pub bytes : ℕ → ℕ

-- `struct kmem_cache_node` with its slabs, and `struct array_cache`.
pub record State : Type 0 where
  pub slab : ℕ → Slab
  pub slabs_partial : List ℕ
  pub slabs_full : List ℕ
  pub slabs_free : List ℕ
  pub total_slabs : ℕ
  pub free_slabs : ℕ
  pub free_objects : ℕ
  pub avail : ℕ
  pub limit : ℕ
  pub batchcount : ℕ
  pub entry : ℕ → ℕ

abbrev pub page_size : ℕ
page_size = 4096

-- `kmem_cache_node_init` and `init_arraycache`
pub kmem_cache_init : (ℕ → Slab) → ℕ → ℕ → State
kmem_cache_init pages limit batch = record {
  slab = pages;
  slabs_partial = [];
  slabs_full = [];
  slabs_free = [];
  total_slabs = 0;
  free_slabs = 0;
  free_objects = 0;
  avail = 0;
  limit = limit;
  batchcount = batch;
  entry = λ i. 0;
}

-- The head of a list, at the lists.
pub first_slab : List ℕ → List ℕ → State → Option (ℕ × State)
first_slab (page ∷ l) free st = some (page, st)
first_slab [] (page ∷ l) st = some (page, record st { free_slabs = st.free_slabs - 1 })
first_slab [] [] st = none

-- `get_first_slab`
pub get_first_slab : State → Option (ℕ × State)
get_first_slab st = first_slab st.slabs_partial st.slabs_free st

pub index_to_obj : Cache → Slab → ℕ → ℕ
index_to_obj c s idx = s.s_mem + c.size * idx

-- `get_free_obj`; `none` is `BUG_ON`.
pub get_free_obj : Slab → ℕ → Option ℕ
get_free_obj s idx = elim s.freelist [
  | none ↦ none
  | some freelist ↦ some (s.bytes (freelist + idx))
]

pub slab_get_obj : Cache → Slab → Option (ℕ × Slab)
slab_get_obj c s = elim (get_free_obj s s.active) [
  | none ↦ none
  | some idx ↦ some (index_to_obj c s idx, record s { active = suc s.active })
]

-- The body of the loop of `alloc_block`.
pub fill_entry : Cache → ℕ → State → Option State
fill_entry c page st = elim (slab_get_obj c (st.slab page)) [
  | none ↦ none
  | some (objp, s) ↦ some (record st {
    slab = update st.slab page s;
    entry = update st.entry st.avail objp;
    avail = suc st.avail;
  })
]

-- The loop of `alloc_block` and the value it leaves in `batchcount`. Where the decrement ends the
-- loop the code leaves -1, which its callers treat as 0.
pub alloc_loop : Cache → ℕ → ℕ → State → Option (ℕ × State)
alloc_loop c page zero st = some (0, st)
alloc_loop c page (suc batchcount) st = elim (ltb (st.slab page).active c.num) [
  | false ↦ some (suc batchcount, st)
  | true ↦ elim (fill_entry c page st) [ none ↦ none | some st' ↦ alloc_loop c page batchcount st' ]
]

-- `alloc_block`; `none` is `BUG_ON`.
pub alloc_block : Cache → ℕ → ℕ → State → Option (ℕ × State)
alloc_block c page batchcount st = elim (ltb (st.slab page).active c.num) [
  | false ↦ none
  | true ↦ alloc_loop c page batchcount st
]

-- `list_del(&page->slab_list)`: the page is on one of the lists at most.
pub unlist : ℕ → State → State
unlist page st = record st {
  slabs_partial = list_del page st.slabs_partial;
  slabs_full = list_del page st.slabs_full;
  slabs_free = list_del page st.slabs_free;
}

pub drop_freelist : Cache → Slab → Slab
drop_freelist c s = if c.objfreelist then record s { freelist = none } else s

pub fixup_slab_list : Cache → ℕ → State → State
fixup_slab_list c page st =
    let out = unlist page st in
    if (st.slab page).active == c.num
    then record out {
      slabs_full = page ∷ out.slabs_full;
      slab = update st.slab page (drop_freelist c (st.slab page));
    }
    else record out { slabs_partial = page ∷ out.slabs_partial }

-- `set_free_obj`: a byte of the array at `freelist`.
pub set_free_obj : ℕ → ℕ → ℕ → Slab → Slab
set_free_obj freelist idx val s = record s { bytes = update s.bytes (freelist + idx) (val % 2 ^ 8) }

-- The loop of `cache_init_objs`, its last `n` rounds done.
pub init_objs : ℕ → ℕ → Slab → Slab
init_objs freelist zero s = s
init_objs freelist (suc n) s = set_free_obj freelist n n (init_objs freelist n s)

-- `alloc_slabmgmt`, `slab_map_pages` and `cache_init_objs` of a cache without constructor.
pub cache_init_slab : Cache → ℕ → Slab → Slab
cache_init_slab c page s =
    let addr = page * page_size in
    let freelist =
      if c.objfreelist
      then addr + c.size * (c.num - 1)
      else addr + page_size * 2 ^ c.gfporder - c.freelist_size in
    init_objs freelist c.num (record s { s_mem = addr; active = 0; freelist = some freelist })

-- `cache_grow_begin` with the page that `alloc_pages` returned; `none` is a panic.
pub cache_grow_begin : Cache → Option ℕ → State → Option (ℕ × State)
cache_grow_begin c none st = none
cache_grow_begin c (some page) st =
    some (page, record st { slab = update st.slab page (cache_init_slab c page (st.slab page)) })

pub cache_grow_end : Cache → ℕ → State → State
cache_grow_end c page st =
    let more = record st { total_slabs = suc st.total_slabs } in
    let placed =
      if (st.slab page).active == 0
      then record more {
        slabs_free = more.slabs_free ++ (page ∷ []);
        free_slabs = suc more.free_slabs;
      }
      else fixup_slab_list c page more in
    record placed { free_objects = placed.free_objects + (c.num - (st.slab page).active) }

-- The loop of `cache_alloc_refill` and what it leaves of `batchcount`; `none` is `BUG_ON`, or
-- that the fuel is used up.
pub refill_loop : Cache → ℕ → ℕ → State → Option (ℕ × State)
refill_loop c fuel zero st = some (0, st)
refill_loop c zero (suc b) st = none
refill_loop c (suc fuel) (suc b) st = elim (get_first_slab st) [
  | none ↦ some (suc b, st)
  | some (page, st1) ↦ elim (alloc_block c page (suc b) st1) [
    | none ↦ none
    | some (left, st2) ↦ refill_loop c fuel left (fixup_slab_list c page st2)
  ]
]

-- `ac->entry[--ac->avail]`
pub pop_entry : State → ℕ × State
pop_entry st = (st.entry (st.avail - 1), record st { avail = st.avail - 1 })

-- `direct_grow` of `cache_alloc_refill`; the inner `none` is the result `NULL`.
pub direct_grow : Cache → Option ℕ → ℕ → State → Option (Option ℕ × State)
direct_grow c fresh batchcount st = elim (cache_grow_begin c fresh st) [
  | none ↦ none
  | some (page, st1) ↦ elim (alloc_block c page batchcount st1) [
    | none ↦ none
    | some (left, st2) ↦
        let st3 = cache_grow_end c page st2 in
        if st3.avail == 0
        then some (none, st3)
        else some (some (pop_entry st3).0, (pop_entry st3).1)
  ]
]

-- The end of `cache_alloc_refill`.
pub take_or_grow : Cache → Option ℕ → ℕ → State → Option (Option ℕ × State)
take_or_grow c fresh batchcount st =
    if st.avail == 0
    then direct_grow c fresh batchcount st
    else some (some (pop_entry st).0, (pop_entry st).1)

pub cache_alloc_refill : Cache → Option ℕ → State → Option (Option ℕ × State)
cache_alloc_refill c fresh st =
    if ltb 0 st.avail
    then none
    else if st.free_objects == 0
    then take_or_grow c fresh st.batchcount st
    else elim (refill_loop c st.batchcount st.batchcount st) [
      | none ↦ none
      | some (left, st') ↦
          take_or_grow c fresh left (record st' { free_objects = st'.free_objects - st'.avail })
    ]

-- `____cache_alloc`
pub cache_alloc : Cache → Option ℕ → State → Option (Option ℕ × State)
cache_alloc c fresh st =
    if ltb 0 st.avail
    then some (some (pop_entry st).0, (pop_entry st).1)
    else cache_alloc_refill c fresh st
