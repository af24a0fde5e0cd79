-- ===== src/Slab/Tests.antt =====
-- A cache of objects of 64 bytes, four on the stack, and the theorems there.
use xlinux.Common.{ℕ, ◌^◌, ◌<◌, ◌≡◌, true, none, some, arith, refl, inr}
use xlinux.Slab.{
  Cache, State, kmem_cache_init, cache_alloc, alloc_block, alloc_loop, fill_entry, slab_get_obj,
  get_free_obj, index_to_obj, cache_alloc_refill, take_or_grow, direct_grow, cache_grow_begin,
  cache_grow_end, cache_init_slab, init_objs, set_free_obj, fixup_slab_list, unlist, pop_entry,
  drop_freelist,
}
use xlinux.Slab.Release.{cache_free}
use xlinux.Slab.Release.Flush.{Freed, cache_free-Freed}
use xlinux.Slab.Places.Pop.{given}
use xlinux.Slab.Places.Alloc.{Result, Tuned, cache_alloc-Granted, kmem_cache_init-WellFormed}
use xlinux.Slab.Sizes.{kmem_cache_create}
use xlinux.Slab.Sizes.Fitting.{Fitted, kmem_cache_create-Fitted}
use xlinux.Slab.Sizes.Kmalloc.{Served, kmalloc_slab-Served}

abbrev small : Cache
small = record { size = 64; num = 64; gfporder = 0; freelist_size = 64; objfreelist = true }

small-Fitted : Fitted small 64 6
small-Fitted = record {
  geometry = record {
    sized = omega arith;
    inhabited = omega arith;
    few = omega arith;
    one_page = inr (omega arith);
  };
  above = omega arith;
  aligned = (1, refl);
  objects = omega arith;
  inside = λ own. omega arith;
  behind = λ apart. absurd (ground (arith, apart));
  indices = refl;
}

abbrev start : State
start = kmem_cache_init (λ q. record { s_mem = 0; active = 0; freelist = none; bytes = λ a. 0 }) 4 2

start-Tuned : Tuned start
unfolding kmem_cache_init
start-Tuned = record { fits = omega arith; wanted = omega arith; batch = omega arith }

-- A new slab on page 5 puts its objects 0 and 1 on the stack, and the second is returned.
cache_alloc-Granted_example : Result small 4 start (cache_alloc small (some 5) start) (λ x. 0)
unfolding kmem_cache_init
cache_alloc-Granted_example =
    cache_alloc-Granted small 5 start (λ x. 0) (small-Fitted.geometry)
      (kmem_cache_init-WellFormed small _ 4 2) start-Tuned refl

runs : elim (cache_alloc small (some 5) start) [ none ↦ none | some (x, st) ↦ x ] ≡ some 20544
unfolding kmem_cache_init cache_alloc cache_alloc_refill take_or_grow direct_grow cache_grow_begin
    cache_init_slab init_objs set_free_obj alloc_block alloc_loop fill_entry slab_get_obj
    get_free_obj index_to_obj cache_grow_end fixup_slab_list unlist pop_entry drop_freelist
runs = refl

abbrev first : Result small 4 start (cache_alloc small (some 5) start) (λ x. 0)
unfolding kmem_cache_init
first =
    cache_alloc-Granted small 5 start (λ x. 0) (small-Fitted.geometry)
      (kmem_cache_init-WellFormed small _ 4 2) start-Tuned refl

first-Tuned : Tuned first.1
unfolding kmem_cache_init
first-Tuned =
    let r = first.3 in
    record {
      fits = omega (arith, r.fewer, r.limit);
      wanted = omega (arith, r.batchcount);
      batch = omega (arith, r.batchcount, r.limit);
    }

cache_free-Freed_example : Freed small first.1 (cache_free small first.0 first.1) (λ x. 0)
cache_free-Freed_example =
    cache_free-Freed small first.0 first.1 (λ x. 0) (small-Fitted.geometry) (first.3.after)
      first-Tuned

first_had : 0 < given first.0 (λ x. 0) first.0
first_had = ground arith

kmalloc_slab-Served_example : (index : ℕ) × (s : ℕ) × Served 100 index s
kmalloc_slab-Served_example = kmalloc_slab-Served 100 (omega arith) (omega arith)

kmem_cache_create-Fitted_example :
    (c : Cache) × (kmem_cache_create 100 (2 ^ 6) ≡ some c) × Fitted c 100 6
kmem_cache_create-Fitted_example =
    kmem_cache_create-Fitted 100 6 (omega arith) (omega arith) (omega arith) (omega arith)
