-- ===== src/Buddy/Counts.antt =====
-- Theorems on `__free_pages_core` and `__free_pages` of buddy/buddy.c.
use xlinux.Common.{
  ℕ, zero, suc, ◌+◌, ◌-◌, ◌^◌, ◌≤◌, ◌<◌, ◌≡◌, ◌⊎◌, ◌↔◌, inl, inr, arith, refl, ap, ◌∙◌, some,
}
use mathlib.Core.Path.{subst}
use xlinux.Common.Buddies.{Aligned}
use native.Mathlib.Nat.{one-le-pow}
use xlinux.Common.Tables.{update}
use xlinux.Buddy.{Zone, max_order, rmqueue_smallest}
use xlinux.Buddy.Blocks.{IsFree, WellFormed, IsClear}
use xlinux.Buddy.{free_one_page, put_page_testzero, free_pages, clear_counts, free_pages_core}
use xlinux.Buddy.Take.{Taken, found, rmqueue_smallest-Taken}
use xlinux.Buddy.Free.{free_one_page-Freed}
use xlinux.Buddy.Halves.{IsFree-used}

-- The zone with other reference counts and another number of managed pages.
abbrev pub recount : (ℕ → ℕ) → ℕ → Zone → Zone
recount counts managed z = record z { refcount = counts; managed_pages = managed }

recount-WellFormed :
    (z : Zone) (counts : ℕ → ℕ) (managed : ℕ) → WellFormed z → WellFormed (recount counts managed z)
recount-WellFormed z counts managed wf = record {
  lists = wf.lists;
  lengths = wf.lengths;
  small = wf.small;
  aligned = wf.aligned;
  apart = wf.apart;
}

clear_counts-recount :
    (n p : ℕ) (z : Zone)
    → clear_counts n p z ≡ recount (clear_counts n p z).refcount z.managed_pages z
unfolding clear_counts
clear_counts-recount zero p z = refl
clear_counts-recount (suc n) p z =
    clear_counts-recount n (suc p) (recount (update z.refcount p 0) z.managed_pages z)

-- `__free_pages` at the last reference: the block is freed, and its count is 0.
free_pages_last :
    (z : Zone) (page order : ℕ)
    → z.refcount page ≡ 1
    → free_pages page order z
      ≡ free_one_page page order (recount (update z.refcount page 0) z.managed_pages z)
unfolding free_pages put_page_testzero
free_pages_last z page order h = rw h refl

-- `__free_pages` at a count of 0: the count wraps around and no list changes.
free_pages_unheld :
    (z : Zone) (page order : ℕ)
    → z.refcount page ≡ 0
    → free_pages page order z ≡ recount (update z.refcount page (2 ^ 32 - 1)) z.managed_pages z
unfolding free_pages put_page_testzero
free_pages_unheld z page order h = rw h refl

free_pages_core_eq :
    (z : Zone) (page order : ℕ)
    → (counts : ℕ → ℕ) × (free_pages_core page order z
        ≡ free_one_page page order (recount counts (z.managed_pages + 2 ^ order) z))
unfolding free_pages_core
free_pages_core_eq z page order =
    let counts = (clear_counts (2 ^ order) page z).refcount in
    (
      update (update counts page 1) page 0,
      ap
            (λ (c : Zone). free_pages page order (record c {
              managed_pages = c.managed_pages + 2 ^ order;
              refcount = update c.refcount page 1;
            }))
            (clear_counts-recount (2 ^ order) page z)
          ∙ free_pages_last (recount (update counts page 1) (z.managed_pages + 2 ^ order) z) page
              order (ground arith),
    )

-- `__free_pages_core` on an aligned block of a well-formed zone, of which no page is free, counts
-- its `2 ^ order` pages as managed, makes exactly them free in addition and keeps the zone
-- well-formed.
pub free_pages_core-Released :
    (z : Zone) (page order : ℕ)
    → WellFormed z
    → order < max_order
    → Aligned order page
    → IsClear z page order
    → WellFormed (free_pages_core page order z)
      × ((x : ℕ)
          → IsFree (free_pages_core page order z) x
            ↔ (IsFree z x ⊎ ((page ≤ x) × (x < page + 2 ^ order))))
      × ((free_pages_core page order z).managed_pages ≡ z.managed_pages + 2 ^ order)
free_pages_core-Released z page order wf low al clear =
    let (counts, e) = free_pages_core_eq z page order in
    let z' = recount counts (z.managed_pages + 2 ^ order) z in
    let done =
      free_one_page-Freed z' page order
        (recount-WellFormed z counts (z.managed_pages + 2 ^ order) wf) low al clear in
    rw e (done.wf, done.free, done.managed)

-- A block that `__rmqueue_smallest` takes from a well-formed zone whose free pages have the count 0
-- stays lost: `__free_pages` on it frees no page.
pub free_pages-Leaks :
    (z : Zone) (order page : ℕ) (z' : Zone)
    → WellFormed z
    → order < max_order
    → ((x : ℕ) → IsFree z x → z.refcount x ≡ 0)
    → rmqueue_smallest order z ≡ (some page, z')
    → (x : ℕ)
    → IsFree (free_pages page order z') x ↔ (IsFree z x × ¬ ((page ≤ x) × (x < page + 2 ^ order)))
free_pages-Leaks z order page z' wf low zeros e x =
    go (subst (Taken z order) e (rmqueue_smallest-Taken z order wf low))
  where
    go :
        Taken z order (some page, z')
        → IsFree (free_pages page order z') x
          ↔ (IsFree z x × ¬ ((page ≤ x) × (x < page + 2 ^ order)))
    go (found _ _ wf' al clear free same) =
        let held : z.refcount page ≡ 0 =
          zeros page ((free page).1 (inr (omega arith, omega (arith, one-le-pow order 2)))) in
        let unheld : z'.refcount page ≡ 0 = ap (λ f. f page) same ∙ held in
        rw (free_pages_unheld z' page order unheld) (
          λ h. ((free x).1 (inl h), λ b. IsFree-used z' page order x clear (b.0) (b.1) h),
          λ h. elim ((free x).0 (h.0)) [ inl still ↦ still | inr b ↦ absurd (h.1 b) ],
        )
