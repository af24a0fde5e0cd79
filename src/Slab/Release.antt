-- ===== src/Slab/Release.antt =====
-- slab/slab.c: freeing of objects.
pub mod Puts
pub mod Used
pub mod Gives
pub mod Flush
use xlinux.Common.{
  ℕ, zero, suc, ◌+◌, ◌-◌, ◌/◌, Option, none, some, [], ◌∷◌, ◌++◌, leb, ltb, ◌==◌, if◌then◌else◌,
}
use xlinux.Common.Tables.{update}
use xlinux.Slab.{Cache, Slab, State, page_size, set_free_obj, unlist}

-- `virt_to_head_page` of an address, for slabs whose pages are not compound.
abbrev pub virt_to_head_page : ℕ → ℕ
virt_to_head_page objp = objp / page_size

-- `obj_to_index`
pub obj_to_index : Cache → Slab → ℕ → ℕ
obj_to_index c s objp = (objp - s.s_mem) / c.size

-- `slab_put_obj`, at the freelist.
pub put_on : Cache → Option ℕ → ℕ → Slab → Slab
put_on c (some freelist) objp s =
    set_free_obj freelist (s.active - 1) (obj_to_index c s objp)
      (record s { active = s.active - 1 })
put_on c none objp s =
    set_free_obj objp (s.active - 1) (obj_to_index c s objp)
      (record s { active = s.active - 1; freelist = some objp })

pub slab_put_obj : Cache → ℕ → Slab → Slab
slab_put_obj c objp s = put_on c s.freelist objp s

-- The end of the body of the loop of `free_block`: the slab chains.
pub fixup_chain : ℕ → State → State
fixup_chain page st =
    if (st.slab page).active == 0
    then record st { slabs_free = page ∷ st.slabs_free; free_slabs = suc st.free_slabs }
    else record st { slabs_partial = st.slabs_partial ++ (page ∷ []) }

-- The body of the loop of `free_block`.
pub free_object : Cache → ℕ → State → State
free_object c objp st =
    let page = virt_to_head_page objp in
    let out = unlist page st in
    fixup_chain page
      (record out { slab = update st.slab page (slab_put_obj c objp (st.slab page)) })

-- The loop of `free_block` over the first entries.
pub free_loop : Cache → (ℕ → ℕ) → ℕ → State → State
free_loop c objpp zero st = st
free_loop c objpp (suc n) st = free_object c (objpp n) (free_loop c objpp n st)

pub free_block : Cache → (ℕ → ℕ) → ℕ → State → State
free_block c objpp nr_objects st =
    free_loop c objpp nr_objects (record st { free_objects = st.free_objects + nr_objects })

-- `cache_flusharray`: the list given to `slabs_destroy` is empty.
pub cache_flusharray : Cache → State → State
cache_flusharray c st =
    let st' = free_block c st.entry st.batchcount st in
    let left = st'.avail - st.batchcount in
    record st' {
      avail = left;
      entry = λ i. if ltb i left then st'.entry (st.batchcount + i) else st'.entry i;
    }

-- `__free_one`
pub free_one : ℕ → State → State
free_one objp st = record st { entry = update st.entry st.avail objp; avail = suc st.avail }

-- `___cache_free`
pub cache_free : Cache → ℕ → State → State
cache_free c objp st =
    if leb st.limit st.avail then free_one objp (cache_flusharray c st) else free_one objp st
