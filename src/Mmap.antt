-- ===== src/Mmap.antt =====
-- mm/mmap.c and mm/util.c: the areas of an address space.
pub mod Areas
pub mod Find
pub mod Links
mod Tests
use xlinux.Common.{
  ℕ, Option, none, some, List, [], ◌∷◌, ◌/◌, ◌^◌, ltb, leb, ◌==◌, if◌then◌else◌, Bool, true, false,
}
use xlinux.Rbtree.{Color, Tree, Step, rb_insert_color}

-- A `struct vm_area_struct`: its bounds, its offset in pages, and whether `vm_ops` is `NULL`.
pub record Vma : Type 0 where
  pub vm_start : ℕ
  pub vm_end : ℕ
  pub vm_pgoff : ℕ
  pub is_anonymous : Bool

-- The loop of `find_vma_links` from a node on, whose position is known: the area before the place
-- for the new one, and the place; `none` is `-ENOMEM`.
pub find_vma_links :
    Tree Vma → ℕ → ℕ → Option Vma → List (Step Vma) → Option (Option Vma × List (Step Vma))
find_vma_links Tree.leaf addr end prev path = some (prev, path)
find_vma_links (Tree.node color l vma r) addr end prev path =
    let lower = find_vma_links l addr end prev (Step.left_of color vma r ∷ path) in
    let upper = find_vma_links r addr end (some vma) (Step.right_of color vma l ∷ path) in
    if ltb addr vma.vm_end then if ltb vma.vm_start end then none else lower else upper

-- `find_vma` from a node on; the variable `vma` is not set before the loop, and `none` stands for
-- the value it has then.
pub find_vma : Tree Vma → ℕ → Option Vma → Option Vma
find_vma Tree.leaf addr vma = vma
find_vma (Tree.node color l tmp r) addr vma =
    let lower = find_vma l addr (some tmp) in
    let upper = find_vma r addr vma in
    if ltb addr tmp.vm_end then if leb tmp.vm_start addr then some tmp else lower else upper

-- What `insert_vm_struct` returns: `-ENOMEM`, a fault of the insertion, or the new tree.
pub data Inserted : Type 0 where
  no_memory : Inserted
  fault : Inserted
  linked : Tree Vma → Inserted

pub link : Option (Tree Vma) → Inserted
link none = Inserted.fault
link (some t) = Inserted.linked t

-- The area with the offset that `insert_vm_struct` gives to an anonymous one.
abbrev pub with_offset : Vma → Vma
with_offset vma = record {
  vm_start = vma.vm_start;
  vm_end = vma.vm_end;
  vm_pgoff = if vma.is_anonymous then vma.vm_start / 2 ^ 12 else vma.vm_pgoff;
  is_anonymous = vma.is_anonymous;
}

-- `insert_vm_struct` on the tree of areas; the list of the areas is not in the model.
pub insert_vm_struct : Tree Vma → Vma → Inserted
insert_vm_struct t vma = elim (find_vma_links t vma.vm_start vma.vm_end none []) [
  | none ↦ Inserted.no_memory
  | some (prev, path) ↦ link (rb_insert_color path (with_offset vma))
]
