-- ===== src/Buddy/Tests.antt =====
-- Runs on a zone without free pages, and the theorems there.
use xlinux.Common.{ℕ, ◌+◌, ◌^◌, ◌≤◌, ◌<◌, ◌≡◌, ◌⊎◌, ◌↔◌, inl, inr, [], ◌∷◌, arith, refl, none, some}
use xlinux.Buddy.{Zone, free_one_page, free_pages, free_pages_core, rmqueue_smallest}
use xlinux.Buddy.Blocks.{IsFree, WellFormed, IsClear}
use xlinux.Buddy.Free.{Freed, free_one_page-Freed}
use xlinux.Buddy.Merged.{Merged, free_one_page-Merged}
use xlinux.Buddy.Sample.{full_zone, full_zone-WellFormed, full_zone-IsClear, half_zone-Freed}
use xlinux.Buddy.Halves.{IsClear-unused}
use xlinux.Buddy.Take.{Taken, rmqueue_smallest-Taken}
use xlinux.Buddy.Counts.{free_pages_core-Released, free_pages-Leaks}

-- Two blocks of two pages become one of four.
abbrev quad_zone : Zone
quad_zone = free_one_page 6 1 (free_one_page 4 1 full_zone)

half_zone-IsClear : IsClear (free_one_page 4 1 full_zone) 6 1
half_zone-IsClear = IsClear-unused (free_one_page 4 1 full_zone) 6 1 (λ x lo hi h.
    elim ((half_zone-Freed.free x).0 h) [
      | inl (q, k, _, _) ↦ absurd (ground (arith, k))
      | inr (l, u) ↦ absurd (omega arith)
    ])

quad_zone-WellFormed : WellFormed quad_zone
quad_zone-WellFormed =
    let done =
      free_one_page-Freed (free_one_page 4 1 full_zone) 6 1 half_zone-Freed.wf (omega arith)
        (3, refl) half_zone-IsClear in
    done.wf

runs :
    (quad_zone.free_list 2 ≡ 4 ∷ [])
    × (quad_zone.free_list 1 ≡ [])
    × ((rmqueue_smallest 0 quad_zone).0 ≡ some 4)
    × ((rmqueue_smallest 0 quad_zone).1.free_list 0 ≡ 5 ∷ [])
    × ((rmqueue_smallest 3 quad_zone).0 ≡ none)
unfolding free_one_page xlinux.Buddy.merge_up xlinux.Buddy.page_is_buddy xlinux.Buddy.done_merging
    xlinux.Buddy.find_buddy_pfn xlinux.Buddy.set_page_order xlinux.Buddy.buddy_merge_likely
    xlinux.Buddy.add_to_free_list xlinux.Buddy.add_to_free_list_tail
    xlinux.Buddy.del_page_from_free_list rmqueue_smallest xlinux.Buddy.rmqueue_from
    xlinux.Buddy.expand
runs = (refl, refl, refl, refl, refl)

quad_zone-counts : (x : ℕ) → quad_zone.refcount x ≡ 0
unfolding free_one_page xlinux.Buddy.merge_up xlinux.Buddy.page_is_buddy xlinux.Buddy.done_merging
    xlinux.Buddy.find_buddy_pfn xlinux.Buddy.set_page_order xlinux.Buddy.buddy_merge_likely
    xlinux.Buddy.add_to_free_list xlinux.Buddy.add_to_free_list_tail
    xlinux.Buddy.del_page_from_free_list rmqueue_smallest xlinux.Buddy.rmqueue_from
    xlinux.Buddy.expand
quad_zone-counts x = refl

takes_four : rmqueue_smallest 0 quad_zone ≡ (some 4, (rmqueue_smallest 0 quad_zone).1)
unfolding free_one_page xlinux.Buddy.merge_up xlinux.Buddy.page_is_buddy xlinux.Buddy.done_merging
    xlinux.Buddy.find_buddy_pfn xlinux.Buddy.set_page_order xlinux.Buddy.buddy_merge_likely
    xlinux.Buddy.add_to_free_list xlinux.Buddy.add_to_free_list_tail
    xlinux.Buddy.del_page_from_free_list rmqueue_smallest xlinux.Buddy.rmqueue_from
    xlinux.Buddy.expand
takes_four = refl

free_one_page-Merged_example :
    Freed (free_one_page 4 1 full_zone) 6 1 quad_zone × Merged quad_zone 6 1
free_one_page-Merged_example =
    free_one_page-Merged (free_one_page 4 1 full_zone) 6 1 half_zone-Freed.wf (omega arith)
      (3, refl) half_zone-IsClear

rmqueue_smallest-Taken_example : Taken quad_zone 0 (rmqueue_smallest 0 quad_zone)
rmqueue_smallest-Taken_example =
    rmqueue_smallest-Taken quad_zone 0 quad_zone-WellFormed (omega arith)

free_pages_core-Released_example :
    WellFormed (free_pages_core 4 1 full_zone)
    × ((x : ℕ)
        → IsFree (free_pages_core 4 1 full_zone) x
          ↔ (IsFree full_zone x ⊎ ((4 ≤ x) × (x < 4 + 2 ^ 1))))
    × ((free_pages_core 4 1 full_zone).managed_pages ≡ full_zone.managed_pages + 2 ^ 1)
free_pages_core-Released_example =
    free_pages_core-Released full_zone 4 1 full_zone-WellFormed (omega arith) (2, refl)
      (full_zone-IsClear 4 1)

free_pages-Leaks_example :
    IsFree (free_pages 4 0 (rmqueue_smallest 0 quad_zone).1) 5
    ↔ (IsFree quad_zone 5 × ¬ ((4 ≤ 5) × (5 < 4 + 2 ^ 0)))
free_pages-Leaks_example =
    free_pages-Leaks quad_zone 0 4 ((rmqueue_smallest 0 quad_zone).1) quad_zone-WellFormed
      (omega arith) (λ x _. quad_zone-counts x) takes_four 5
