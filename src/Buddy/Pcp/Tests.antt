-- ===== src/Buddy/Pcp/Tests.antt =====
-- Runs on a zone with one block of two pages, and the theorems there.
use xlinux.Common.{ℕ, ◌≡◌, Option, none, some, List, [], ◌∷◌, arith, refl}
use xlinux.Buddy.{Zone, free_one_page, rmqueue_smallest}
use xlinux.Buddy.Sample.{full_zone, half_zone-Freed}
use xlinux.Buddy.Pcp.{Pcp, rmqueue_bulk, alloc_pages}
use xlinux.Buddy.Pcp.Bulk.{Bulk, rmqueue_bulk-Bulk}
use xlinux.Buddy.Pcp.Pages.{Consistent, Allocated, alloc_pages-Allocated}

-- The free pages are 4 and 5.
abbrev pair_zone : Zone
pair_zone = free_one_page 4 1 full_zone

-- An empty list that is filled with two pages at a time.
abbrev no_pages : Pcp
no_pages = record { count = 0; batch = 2; lists = [] }

no_pages-Consistent : Consistent pair_zone no_pages
no_pages-Consistent = record {
  wf = half_zone-Freed.wf;
  once = λ x. omega arith;
  apart = λ x c. absurd (omega arith);
}

-- The page of an allocation, and the list behind it.
abbrev page_and_list : Option (ℕ × Pcp × Zone) → Option (ℕ × List ℕ)
page_and_list none = none
page_and_list (some (page, pcp, z)) = some (page, pcp.lists)

runs :
    (page_and_list (alloc_pages 0 no_pages pair_zone) ≡ some (4, 5 ∷ []))
    × (page_and_list (alloc_pages 1 no_pages pair_zone) ≡ some (4, []))
    × (page_and_list (alloc_pages 2 no_pages pair_zone) ≡ none)
    × (page_and_list (alloc_pages 0 (record no_pages { batch = 3 }) pair_zone) ≡ none)
unfolding alloc_pages xlinux.Buddy.Pcp.rmqueue xlinux.Buddy.Pcp.rmqueue_pcplist
    xlinux.Buddy.Pcp.fill_and_take rmqueue_bulk xlinux.Buddy.Pcp.take_first
    xlinux.Buddy.Pcp.take_head rmqueue_smallest xlinux.Buddy.rmqueue_from xlinux.Buddy.expand
    free_one_page xlinux.Buddy.merge_up xlinux.Buddy.page_is_buddy xlinux.Buddy.done_merging
    xlinux.Buddy.find_buddy_pfn xlinux.Buddy.set_page_order xlinux.Buddy.buddy_merge_likely
    xlinux.Buddy.add_to_free_list xlinux.Buddy.add_to_free_list_tail
    xlinux.Buddy.del_page_from_free_list
runs = (refl, refl, refl, refl)

rmqueue_bulk-Bulk_example : Bulk pair_zone 2 (rmqueue_bulk 2 pair_zone)
rmqueue_bulk-Bulk_example = rmqueue_bulk-Bulk 2 pair_zone half_zone-Freed.wf

alloc_pages-Allocated_example : Allocated 0 no_pages pair_zone (alloc_pages 0 no_pages pair_zone)
alloc_pages-Allocated_example = alloc_pages-Allocated 0 no_pages pair_zone no_pages-Consistent
