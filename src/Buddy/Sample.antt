-- ===== src/Buddy/Sample.antt =====
-- A zone without free pages, for the runs.
use xlinux.Common.{ℕ, false, [], arith, refl}
use xlinux.Buddy.{Zone, free_one_page}
use xlinux.Buddy.Blocks.{WellFormed, IsClear}
use xlinux.Buddy.Free.{Freed, free_one_page-Freed}

abbrev pub full_zone : Zone
full_zone = record {
  free_list = λ order. [];
  nr_free = λ order. 0;
  buddy = λ p. false;
  page_order = λ p. 0;
  refcount = λ p. 0;
  zone_id = λ p. 0;
  managed_pages = 0;
}

pub full_zone-WellFormed : WellFormed full_zone
full_zone-WellFormed = record {
  lists = λ o p. refl;
  lengths = λ o. refl;
  small = λ p h. absurd (ground (arith, h));
  aligned = λ p h. absurd (ground (arith, h));
  apart = λ p q h. absurd (ground (arith, h));
}

pub full_zone-IsClear : (p order : ℕ) → IsClear full_zone p order
full_zone-IsClear p order q h = absurd (ground (arith, h))

pub half_zone-Freed : Freed full_zone 4 1 (free_one_page 4 1 full_zone)
half_zone-Freed =
    free_one_page-Freed full_zone 4 1 full_zone-WellFormed (omega arith) (2, refl)
      (full_zone-IsClear 4 1)
