-- ===== src/Mmap/Tests.antt =====
-- mm/mmap.c: runs of the search and the insertion, and the theorems on them.
use xlinux.Common.{ℕ, ◌≡◌, refl, none, true, arith}
use xlinux.Rbtree.{Color, Tree}
use xlinux.Rbtree.Shape.{Balanced, items}
use xlinux.Mmap.{Vma, find_vma, find_vma_links, insert_vm_struct, Inserted}
use xlinux.Mmap.Areas.{Sorted}
use xlinux.Mmap.Find.{find_vma-first_above, first_above}
use xlinux.Mmap.Links.{Linking, insert_vm_struct-Linking}

abbrev area : ℕ → ℕ → Vma
area from to = record { vm_start = from; vm_end = to; vm_pgoff = 0; is_anonymous = true }

-- The areas [4, 6), [8, 12) and [16, 20).
abbrev three_areas : Tree Vma
three_areas =
    Tree.node Color.black (Tree.node Color.red Tree.leaf (area 4 6) Tree.leaf) (area 8 12)
      (Tree.node Color.red Tree.leaf (area 16 20) Tree.leaf)

three_areas-Sorted : Sorted 0 (items three_areas)
three_areas-Sorted =
    (omega arith, omega arith, (omega arith, omega arith, (omega arith, omega arith, omega arith)))

three_areas-Balanced : Balanced Color.black 1 three_areas
three_areas-Balanced =
    Balanced.black_root Color.red Color.red 0 (Tree.node Color.red Tree.leaf (area 4 6) Tree.leaf)
      (Tree.node Color.red Tree.leaf (area 16 20) Tree.leaf) (area 8 12)
      (Balanced.red_root 0 Tree.leaf Tree.leaf (area 4 6) Balanced.null Balanced.null)
      (Balanced.red_root 0 Tree.leaf Tree.leaf (area 16 20) Balanced.null Balanced.null)

overlap_is_refused : insert_vm_struct three_areas (area 10 14) ≡ Inserted.no_memory
unfolding insert_vm_struct find_vma_links
overlap_is_refused = refl

find_vma-first_above_example :
    find_vma three_areas 13 none ≡ first_above 13 (items three_areas) none
find_vma-first_above_example = find_vma-first_above 0 three_areas 13 none three_areas-Sorted

insert_vm_struct-Linking_example :
    Linking 0 three_areas (area 12 14) (insert_vm_struct three_areas (area 12 14))
insert_vm_struct-Linking_example =
    insert_vm_struct-Linking 0 1 three_areas (area 12 14) three_areas-Balanced three_areas-Sorted
      (omega arith) (omega arith)
