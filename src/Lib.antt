-- ===== src/Lib.antt =====
-- xlinux is a small RISC-V kernel in C, assembled from loadable modules. This library models the
-- parts of it that manage memory and address spaces, trees, text, deferred work, the block queue
-- and the virtio ring.
--
-- The parts, each with the file that models it and the code it comes from:
--   * Memblock.antt, Memblock/Alloc.antt, Memblock/Release.antt: memblock/memblock.c, the memory
--     allocator at boot. A `struct memblock_type` is the list of its live regions. `add_range`,
--     `merge_regions` and `insert_region` are `memblock_add_range`, `memblock_merge_regions` and
--     `memblock_insert_region`; `next_mem_range_rev` is `__next_mem_range_rev`;
--     `alloc_range_nid` is `memblock_alloc_range_nid`; `free_memory_core` is `__free_memory_core`,
--     which hands the free frames over to the buddy allocator.
--   * Buddy.antt: buddy/buddy.c, the page allocator behind it. A page is its frame number, and
--     `Zone` holds the free lists and the fields of the pages. `free_one_page` is
--     `__free_one_page`, `rmqueue_smallest` is `__rmqueue_smallest`, `free_pages_core` is
--     `__free_pages_core`, and `free_pages` is `__free_pages`. Buddy/Pcp.antt adds the list of
--     single pages of a CPU: `alloc_pages` is `__alloc_pages_nodemask` with one zone.
--     Buddy/Zones.antt has the sizes of the zones at boot, from the regions of memblock, and the
--     list of zones: `free_area_init_node`, `build_zonerefs_node`, `next_zones_zonelist`.
--   * Slab.antt, Slab/Release.antt, Slab/Sizes.antt: slab/slab.c and include/slab.h, the object
--     allocator on top. `Cache` is the geometry of a `struct kmem_cache`, `State` its node and its
--     stack of entries, `Slab` the page fields with the bytes of the slab. `cache_alloc` is
--     `____cache_alloc` with the page that `alloc_pages` would return, `cache_free` is
--     `___cache_free`; Slab/Sizes.antt has the tables of `kmalloc` and `__kmem_cache_create`.
--   * RadixTree.antt: radix_tree/radix-tree.c. A slot is an `Entry`; `radix_tree_insert` and
--     `radix_tree_lookup` have the names of the code.
--   * Rbtree.antt: rbtree/rbtree.c and include/rbtree.h. A tree is built of its nodes, and a place
--     in it is the path to the root, which the parent pointers give; `rb_insert` is the loop of
--     `__rb_insert` from such a place.
--   * Mmap.antt: mm/mmap.c, the tree of the areas of an address space: `find_vma`,
--     `find_vma_links` and `insert_vm_struct`.
--   * Virtio.antt: virtio/virtio_ring.c, the split queue that a driver shares with a device.
--     `Queue` is `struct vring_virtqueue` with its rings, and the functions have the names of the
--     code; `virtqueue_get_buf` is `virtqueue_get_buf_ctx_split`. Virtio/Interrupts.antt has the
--     interrupt and its suppression.
--   * Deadline.antt: block/mq-deadline.c, the order of block requests.
--   * CString.antt, CString/Memory.antt, Ctype.antt: lib/string.c, include/string.h,
--     include/types.h. Text that is only read is a list of bytes; functions that write act on a
--     memory, a function from addresses to bytes.
--   * Vsprintf.antt, Vsprintf/Format.antt: lib/vsprintf.c, numbers, format strings and the bounded
--     buffer.
--   * IovIter.antt: iov_iter/iov_iter.c and include/uio.h, copies into a sequence of segments.
--     `IovIter` has the memory of its segments, which do not overlap; `copy_to_iter` is
--     `_copy_to_iter`, and `iterate_kvec` and `iterate_and_advance` are the macros.
--   * Softirq.antt: softirq/softirq.c, with include/interrupt.h and include/ffs.h. A state is the
--     pending bits and whatever the actions act on; `irq_exit` and `raise_softirq_irqoff` have the
--     names of the code.
--   * Bitops.antt: include/log2.h, `__ffs` and `fls`.
-- Common.antt passes on the names and lemmas that all of these use. The modules below a part hold
-- its theorems, and those called Tests hold runs and the theorems at concrete inputs.
--
-- State is passed explicitly. A panic, a `BUG_ON` or a fault is a result of its own: `none`, or a
-- constructor of the part's result type. Words of 64, 32 and 16 bits wrap around where the code can
-- reach the bound: the remainders are written out. The block that an allocation below a
-- part would return (`alloc_pages` for the slabs, `kmalloc` for the indirect tables of the ring) and
-- the outcome of the transport's `notify` are arguments.
--
-- Fuel. The search of memblock has the sum of the two indices plus one; the format loop the
-- length of the format plus one, since a directive takes at least one byte; the loop of
-- `__free_one_page` the orders left below `MAX_ORDER - 1`; `radix_tree_extend` eleven levels,
-- which cover 64 bits; the chain of `detach_buf_split` the number of descriptors; the loop of
-- `cache_alloc_refill` its batch, since a round takes at least one object; the loop of
-- `__do_softirq` 32 rounds, since each takes a bit. All are enough by the theorems that say that
-- the functions return. `strcpy` and `strreplace` take the fuel as an argument of their theorems.
--
-- Not modelled: locks and interrupts, since every operation runs to its end; the failure of the
-- node allocator of the radix tree; the search through several zones in buddy/buddy.c; the
-- removal from red-black trees; the list of areas, and mapping and unmapping; the forward walks
-- of memblock; the creation of a ring's memory; constructors of objects and the start of the
-- object allocator from static caches; and the drivers, file systems, the scheduler, page tables
-- and the device model of the other directories.
pub mod Common
pub mod Bitops
pub mod Ctype
pub mod CString
pub mod Vsprintf
pub mod Memblock
pub mod Buddy
pub mod Virtio
pub mod Deadline
pub mod RadixTree
pub mod Slab
pub mod Rbtree
pub mod Mmap
pub mod IovIter
pub mod Softirq
