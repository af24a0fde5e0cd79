-- ===== src/Buddy.antt =====
-- buddy/buddy.c: the free lists of a zone, freeing and allocation of blocks of pages.
-- A `struct page` is its frame number; what the code keeps in it is a table of the zone.
pub mod Blocks
pub mod Joins
pub mod Leaves
pub mod Free
pub mod Merged
pub mod Halves
pub mod Take
pub mod Counts
pub mod Pcp
pub mod Zones
mod Sample
mod Tests
use xlinux.Common.{
  ℕ, zero, suc, ◌+◌, ◌-◌, ◌%◌, ◌^◌, Bool, true, false, not, ◌&&◌, Option, none, some, List, [], ◌∷◌,
  ◌++◌, ltb, ◌==◌, if◌then◌else◌, bit_and, bit_xor,
}
use xlinux.Common.Tables.{update}

-- `struct zone` with the fields of its pages: the list of free blocks and its length for every
-- order, the flag `PageBuddy`, `page->private`, `page->_refcount` and the zone number.
pub record Zone : Type 0 where
  pub free_list : ℕ → List ℕ
  pub nr_free : ℕ → ℕ
  pub buddy : ℕ → Bool
  pub page_order : ℕ → ℕ
  pub refcount : ℕ → ℕ
  pub zone_id : ℕ → ℕ
  pub managed_pages : ℕ

abbrev pub max_order : ℕ
max_order = 11

-- `list_del`: the node of a page leaves the list.
abbrev pub list_del : ℕ → List ℕ → List ℕ
list_del p [] = []
list_del p (q ∷ l) = let rest = list_del p l in if p == q then l else q ∷ rest

-- `zone_init_free_lists`
pub zone_init_free_lists : Zone → Zone
zone_init_free_lists z = record z { free_list = λ order. []; nr_free = λ order. 0 }

-- `__find_buddy_pfn`
pub find_buddy_pfn : ℕ → ℕ → ℕ
find_buddy_pfn pfn order = bit_xor pfn (2 ^ order)

-- `page_is_buddy`
pub page_is_buddy : Zone → ℕ → ℕ → ℕ → Bool
page_is_buddy z page b order =
    if not (z.buddy b)
    then false
    else if not (z.page_order b == order)
    then false
    else if not (z.zone_id page == z.zone_id b)
    then false
    else true

pub set_page_order : ℕ → ℕ → Zone → Zone
set_page_order page order z = record z {
  page_order = update z.page_order page order;
  buddy = update z.buddy page true;
}

-- `buddy_merge_likely`
pub buddy_merge_likely : Zone → ℕ → ℕ → ℕ → Bool
buddy_merge_likely z pfn buddy_pfn order =
    let combined = bit_and buddy_pfn pfn in
    if not (ltb order (max_order - 2))
    then false
    else page_is_buddy z combined (find_buddy_pfn combined (suc order)) (suc order)

pub add_to_free_list : ℕ → ℕ → Zone → Zone
add_to_free_list page order z = record z {
  free_list = update z.free_list order (page ∷ z.free_list order);
  nr_free = update z.nr_free order (suc (z.nr_free order));
}

pub add_to_free_list_tail : ℕ → ℕ → Zone → Zone
add_to_free_list_tail page order z = record z {
  free_list = update z.free_list order (z.free_list order ++ (page ∷ []));
  nr_free = update z.nr_free order (suc (z.nr_free order));
}

pub del_page_from_free_list : ℕ → ℕ → Zone → Zone
del_page_from_free_list page order z = record z {
  free_list = update z.free_list order (list_del page (z.free_list order));
  buddy = update z.buddy page false;
  page_order = update z.page_order page 0;
  nr_free = update z.nr_free order (z.nr_free order - 1);
}

-- `done_merging` of `__free_one_page`
pub done_merging : ℕ → ℕ → ℕ → Zone → Zone
done_merging pfn buddy_pfn order z =
    let marked = set_page_order pfn order z in
    if buddy_merge_likely marked pfn buddy_pfn order
    then add_to_free_list_tail pfn order marked
    else add_to_free_list pfn order marked

-- The loop of `__free_one_page`; `up` orders are left below `MAX_ORDER - 1`, and `last` is the
-- value of `buddy_pfn` from the round before.
pub merge_up : ℕ → ℕ → ℕ → ℕ → Zone → Zone
merge_up zero pfn last order z = done_merging pfn last order z
merge_up (suc up) pfn last order z =
    let b = find_buddy_pfn pfn order in
    let stop = done_merging pfn b order z in
    let go_on = merge_up up (bit_and b pfn) b (suc order) (del_page_from_free_list b order z) in
    if not (page_is_buddy z pfn b order) then stop else go_on

-- `__free_one_page`
pub free_one_page : ℕ → ℕ → Zone → Zone
free_one_page pfn order z = merge_up (max_order - 1 - order) pfn 0 order z

-- `put_page_testzero`: the counter is an `int`.
pub put_page_testzero : ℕ → Zone → Bool × Zone
put_page_testzero page z =
    let c = (z.refcount page + (2 ^ 32 - 1)) % 2 ^ 32 in
    (c == 0, record z { refcount = update z.refcount page c })

-- `__free_pages`, with the dispatch of `free_the_page` to `__free_pages_ok` on both branches.
pub free_pages : ℕ → ℕ → Zone → Zone
free_pages page order z =
    let tested = put_page_testzero page z in
    if tested.0 then free_one_page page order (tested.1) else tested.1

-- The loop of `__free_pages_core`.
pub clear_counts : ℕ → ℕ → Zone → Zone
clear_counts zero p z = z
clear_counts (suc n) p z = clear_counts n (suc p) (record z { refcount = update z.refcount p 0 })

-- `__free_pages_core`
pub free_pages_core : ℕ → ℕ → Zone → Zone
free_pages_core page order z =
    let cleared = clear_counts (2 ^ order) page z in
    let managed = record cleared {
      managed_pages = cleared.managed_pages + 2 ^ order;
      refcount = update cleared.refcount page 1;
    } in
    free_pages page order managed

-- `expand`: `high` is `low` plus the first number; the upper halves go back to the lists.
pub expand : ℕ → ℕ → ℕ → Zone → Zone
expand zero page low z = z
expand (suc n) page low z =
    let high = low + n in
    expand n page low
      (set_page_order (page + 2 ^ high) high (add_to_free_list (page + 2 ^ high) high z))

-- `__rmqueue_smallest`: `up` orders are left below `MAX_ORDER`, the current one is the requested
-- one plus `n`.
pub rmqueue_from : ℕ → ℕ → ℕ → Zone → Option ℕ × Zone
rmqueue_from zero n order z = (none, z)
rmqueue_from (suc up) n order z =
    let rest = rmqueue_from up (suc n) order z in
    elim (z.free_list (order + n)) [
      | [] ↦ rest
      | page ∷ l ↦ (some page, expand n page order (del_page_from_free_list page (order + n) z))
    ]

-- `__rmqueue_smallest`
pub rmqueue_smallest : ℕ → Zone → Option ℕ × Zone
rmqueue_smallest order z = rmqueue_from (max_order - order) 0 order z
