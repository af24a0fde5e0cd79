-- ===== src/Buddy/Pcp.antt =====
-- buddy/buddy.c: allocation through the list of single pages of a CPU.
pub mod Bulk
pub mod Pages
mod Tests
use xlinux.Common.{
  ℕ, zero, suc, ◌+◌, ◌-◌, ◌%◌, ◌^◌, Bool, true, false, Option, none, some, List, [], ◌∷◌, ◌++◌, leb,
  ◌==◌, if◌then◌else◌, length,
}
use xlinux.Buddy.{Zone, max_order, rmqueue_smallest}

-- `struct per_cpu_pages`; `count` is an `int`.
pub record Pcp : Type 0 where
  pub count : ℕ
  pub batch : ℕ
  pub lists : List ℕ

-- `rmqueue_bulk` at order 0: the pages for the tail of the list, in order; `none` is the panic of
-- `__rmqueue`.
pub rmqueue_bulk : ℕ → Zone → Option (List ℕ × Zone)
rmqueue_bulk zero z = some ([], z)
rmqueue_bulk (suc n) z =
    let (r, z') = rmqueue_smallest 0 z in
    let rest = rmqueue_bulk n z' in
    elim r [
      | none ↦ none
      | some page ↦ elim rest [ none ↦ none | some (l, z'') ↦ some (page ∷ l, z'') ]
    ]

-- The end of `__rmqueue_pcplist`, at the list: its first page. An empty list makes `rmqueue` panic.
pub take_head : List ℕ → Pcp → Zone → Option (ℕ × Pcp × Zone)
take_head [] pcp z = none
take_head (page ∷ l) pcp z =
    some (page, record pcp { lists = l; count = (pcp.count + (2 ^ 32 - 1)) % 2 ^ 32 }, z)

pub take_first : Pcp → Zone → Option (ℕ × Pcp × Zone)
take_first pcp z = take_head pcp.lists pcp z

-- `__rmqueue_pcplist`, at the list: an empty one is filled with a batch first.
pub fill_and_take : List ℕ → Pcp → Zone → Option (ℕ × Pcp × Zone)
fill_and_take [] pcp z = elim (rmqueue_bulk pcp.batch z) [
  | none ↦ none
  | some (l, z') ↦ take_first (record pcp { lists = l; count = (pcp.count + length l) % 2 ^ 32 }) z'
]
fill_and_take (page ∷ l) pcp z = take_first pcp z

pub rmqueue_pcplist : Pcp → Zone → Option (ℕ × Pcp × Zone)
rmqueue_pcplist pcp z = fill_and_take pcp.lists pcp z

-- `rmqueue`; `none` is a panic.
pub rmqueue : ℕ → Pcp → Zone → Option (ℕ × Pcp × Zone)
rmqueue zero pcp z = rmqueue_pcplist pcp z
rmqueue (suc order) pcp z =
    let (r, z') = rmqueue_smallest (suc order) z in
    elim r [ none ↦ none | some page ↦ some (page, pcp, z') ]

-- `__alloc_pages_nodemask` with one zone; the contents of pages are not modelled.
pub alloc_pages : ℕ → Pcp → Zone → Option (ℕ × Pcp × Zone)
alloc_pages order pcp z = if leb max_order order then none else rmqueue order pcp z
