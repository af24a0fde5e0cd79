-- ===== src/Buddy/Merged.antt =====
-- buddy/buddy.c: `__free_one_page` merges a block with its buddies as far as it can.
use xlinux.Common.{
  ℕ, zero, suc, ◌+◌, ◌-◌, ◌^◌, ◌≤◌, ◌<◌, ◌≡◌, ◌≢◌, ◌⊎◌, inl, inr, true, false, arith, refl, ap, sym,
  ◌∙◌, Bool-cases, bit_and,
}
use xlinux.Common.Buddies.{Aligned, Pair, upper, lower, buddies}
use native.Mathlib.Nat.{one-le-pow, pow-suc}
use xlinux.Buddy.{
  Zone, max_order, find_buddy_pfn, page_is_buddy, del_page_from_free_list, set_page_order,
  add_to_free_list, add_to_free_list_tail, buddy_merge_likely, done_merging, merge_up,
  free_one_page,
}
use xlinux.Common.Tables.{update_same, update_other}
use xlinux.Buddy.Blocks.{IsBlock, WellFormed, IsClear}
use xlinux.Buddy.Free.{Freed, free_one_page-Freed}

-- A free block of the order and of the zone of a page.
pub record IsBuddy (z : Zone) (page b order : ℕ) : Type 0 where
  pub block : IsBlock z b
  pub same_order : z.page_order b ≡ order
  pub same_zone : z.zone_id page ≡ z.zone_id b

-- The pages from `p` on lie in one free block that cannot grow: it has the largest order, or its
-- buddy is not a free block of its order and zone.
pub record Merged (z : Zone) (p order : ℕ) : Type 0 where
  pub page : ℕ
  pub size : ℕ
  pub block : IsBlock z page
  pub has_order : z.page_order page ≡ size
  pub starts : page ≤ p
  pub ends : p + 2 ^ order ≤ page + 2 ^ size
  pub largest : (size ≡ max_order - 1) ⊎ ¬ IsBuddy z page (find_buddy_pfn page size) size

page_is_buddy-IsBuddy :
    (z : Zone) (p b order : ℕ) → page_is_buddy z p b order ≡ false → ¬ IsBuddy z p b order
unfolding page_is_buddy
page_is_buddy-IsBuddy z p b order h i = ground (arith, h, i.block, i.same_order, i.same_zone)

-- Only the marks of the freed page change.
record Marked (z : Zone) (p order : ℕ) (z' : Zone) : Type 0 where
  block : IsBlock z' p
  has_order : z'.page_order p ≡ order
  buddy : (q : ℕ) → q ≢ p → z'.buddy q ≡ z.buddy q
  orders : (q : ℕ) → q ≢ p → z'.page_order q ≡ z.page_order q
  zones : z'.zone_id ≡ z.zone_id

done_merging-Marked : (z : Zone) (p b order : ℕ) → Marked z p order (done_merging p b order z)
unfolding done_merging add_to_free_list add_to_free_list_tail set_page_order
done_merging-Marked z p b order =
    elim (Bool-cases (buddy_merge_likely (set_page_order p order z) p b order)) [
      | inl tail ↦ rw tail (record {
        block = update_same z.buddy p true;
        has_order = update_same z.page_order p order;
        buddy = λ q ne. update_other z.buddy p true q ne;
        orders = λ q ne. update_other z.page_order p order q ne;
        zones = refl;
      })
      | inr head ↦ rw head (record {
        block = update_same z.buddy p true;
        has_order = update_same z.page_order p order;
        buddy = λ q ne. update_other z.buddy p true q ne;
        orders = λ q ne. update_other z.page_order p order q ne;
        zones = refl;
      })
    ]

done_merging-Merged :
    (z : Zone) (p last order : ℕ)
    → (order ≡ max_order - 1)
      ⊎ ((find_buddy_pfn p order ≢ p) × ¬ IsBuddy z p (find_buddy_pfn p order) order)
    → Merged (done_merging p last order z) p order
done_merging-Merged z p last order h =
    let m = done_merging-Marked z p last order in
    record {
      page = p;
      size = order;
      block = m.block;
      has_order = m.has_order;
      starts = omega arith;
      ends = omega arith;
      largest = elim h [
        | inl top ↦ inl top
        | inr (other, none_free) ↦ inr (λ i. none_free (record {
          block = sym (m.buddy (find_buddy_pfn p order) other) ∙ i.block;
          same_order = sym (m.orders (find_buddy_pfn p order) other) ∙ i.same_order;
          same_zone =
              ap (λ f. f p) (sym m.zones)
              ∙ i.same_zone
              ∙ ap (λ f. f (find_buddy_pfn p order)) m.zones;
        }))
      ];
    }

Pair-other : (k p b c : ℕ) → Pair k p b c → b ≢ p
Pair-other k p b c (upper e f) same = absurd (omega (arith, e, same, one-le-pow k 2))
Pair-other k p b c (lower e f) same = absurd (omega (arith, e, same, one-le-pow k 2))

Pair-Merged :
    (z : Zone) (p b c order : ℕ) → Pair order p b c → Merged z c (suc order) → Merged z p order
Pair-Merged z p b c order pair m = record {
  page = m.page;
  size = m.size;
  block = m.block;
  has_order = m.has_order;
  starts = elim pair [
    | upper e f ↦ omega (arith, m.starts, f)
    | lower e f ↦ omega (arith, m.starts, f, e)
  ];
  ends = elim pair [
    | upper e f ↦ omega (arith, m.ends, f, pow-suc 2 order)
    | lower e f ↦ omega (arith, m.ends, f, e, pow-suc 2 order)
  ];
  largest = m.largest;
}

find_buddy_pfn-Pair :
    (order p : ℕ)
    → Aligned order p
    → Pair order p (find_buddy_pfn p order) (bit_and (find_buddy_pfn p order) p)
      × Aligned (suc order) (bit_and (find_buddy_pfn p order) p)
unfolding find_buddy_pfn
find_buddy_pfn-Pair order p al = buddies order p al

merge_up-Merged :
    (up p last order : ℕ) (z : Zone)
    → up + order ≡ max_order - 1
    → Aligned order p
    → Merged (merge_up up p last order z) p order
unfolding merge_up
merge_up-Merged zero p last order z n al = done_merging-Merged z p last order (inl (omega arith))
merge_up-Merged (suc up) p last order z n al =
    let b = find_buddy_pfn p order in
    let (pair, higher) = find_buddy_pfn-Pair order p al in
    elim (Bool-cases (page_is_buddy z p b order)) [
      | inl is ↦ rw is (
          Pair-Merged (merge_up up (bit_and b p) b (suc order) (del_page_from_free_list b order z))
            p b (bit_and b p) order pair
            (merge_up-Merged up (bit_and b p) b (suc order) (del_page_from_free_list b order z)
              (omega arith) higher))
      | inr stop ↦ rw stop (
          done_merging-Merged z p b order
            (inr (Pair-other order p b (bit_and b p) pair, page_is_buddy-IsBuddy z p b order stop)))
    ]

-- Freeing a block of `2 ^ order` pages of a well-formed zone, aligned to its size, of which no page
-- is free, keeps the zone well-formed, makes exactly these pages free in addition, and changes no
-- counter. The block is merged: its pages lie in one free block, which has the largest order or a
-- buddy that is not a free block of its order and zone.
pub free_one_page-Merged :
    (z : Zone) (pfn order : ℕ)
    → WellFormed z
    → order < max_order
    → Aligned order pfn
    → IsClear z pfn order
    → Freed z pfn order (free_one_page pfn order z) × Merged (free_one_page pfn order z) pfn order
unfolding free_one_page
free_one_page-Merged z pfn order wf low al clear = (
  free_one_page-Freed z pfn order wf low al clear,
  merge_up-Merged (max_order - 1 - order) pfn 0 order z (omega arith) al,
)
