-- ===== src/Buddy/Free.antt =====
-- The theorem on `__free_one_page` of buddy/buddy.c and its lemmas.
use xlinux.Common.{
  ℕ, zero, suc, ◌+◌, ◌-◌, ◌^◌, ◌≤◌, ◌<◌, ◌≡◌, ◌⊎◌, ◌↔◌, inl, inr, true, List, [], ◌∷◌, ◌++◌, ◌==◌,
  if◌then◌else◌, length, length-append, arith, refl, ap, ◌∙◌, Bool-cases, bit_and,
}
use xlinux.Common.Buddies.{Aligned, Pair, upper, lower, buddies}
use native.Mathlib.Nat.{one-le-pow, pow-suc}
use xlinux.Buddy.{
  Zone, max_order, find_buddy_pfn, page_is_buddy, del_page_from_free_list, set_page_order,
  add_to_free_list, add_to_free_list_tail, buddy_merge_likely, done_merging, merge_up,
  free_one_page,
}
use xlinux.Common.Counts.{count, count-append}
use xlinux.Buddy.Blocks.{IsBlock, IsFree, WellFormed, IsClear}
use xlinux.Buddy.Joins.{with_block, with_block-WellFormed, with_block-IsFree}
use xlinux.Buddy.Leaves.{Removed, del_page_from_free_list-Removed}

-- The zone `z'` has the free pages of `z` and those of the block, and is well-formed; the counters
-- of the pages and of the zone are those of `z`.
pub record Freed (z : Zone) (p order : ℕ) (z' : Zone) : Type 0 where
  pub wf : WellFormed z'
  pub free : (x : ℕ) → IsFree z' x ↔ (IsFree z x ⊎ ((p ≤ x) × (x < p + 2 ^ order)))
  pub refcounts : z'.refcount ≡ z.refcount
  pub managed : z'.managed_pages ≡ z.managed_pages

pub with_block-Freed :
    (z : Zone) (p order : ℕ) (l : List ℕ)
    → WellFormed z
    → order < max_order
    → Aligned order p
    → IsClear z p order
    → ((q : ℕ) → count q l ≡ (if q == p then 1 else 0) + count q (z.free_list order))
    → length l ≡ suc (length (z.free_list order))
    → Freed z p order (with_block z p order l)
with_block-Freed z p order l wf low al clear joins longer = record {
  wf = with_block-WellFormed z p order l wf low al clear joins longer;
  free = with_block-IsFree z p order l wf low al clear joins longer;
  refcounts = refl;
  managed = refl;
}

done_merging-Freed :
    (z : Zone) (p b order : ℕ)
    → WellFormed z
    → order < max_order
    → Aligned order p
    → IsClear z p order
    → Freed z p order (done_merging p b order z)
unfolding done_merging add_to_free_list add_to_free_list_tail set_page_order
done_merging-Freed z p b order wf low al clear =
    elim (Bool-cases (buddy_merge_likely (set_page_order p order z) p b order)) [
      | inl tail ↦ rw tail (
          with_block-Freed z p order (z.free_list order ++ (p ∷ [])) wf low al clear
            (λ q. omega (arith, count-append q (z.free_list order) (p ∷ [])))
            (omega (arith, length-append (z.free_list order) (p ∷ []))))
      | inr head ↦
          rw head
            (with_block-Freed z p order (p ∷ z.free_list order) wf low al clear (λ q. refl) refl)
    ]

page_is_buddy-IsBlock :
    (z : Zone) (p b order : ℕ)
    → page_is_buddy z p b order ≡ true
    → IsBlock z b × (z.page_order b ≡ order)
unfolding page_is_buddy
page_is_buddy-IsBlock z p b order h = ground arith

-- The block and its buddy make one block that is clear without the buddy.
Pair-IsClear :
    (z z' : Zone) (p b c order : ℕ)
    → Pair order p b c
    → IsClear z p order
    → Removed z b order z'
    → IsClear z' c (suc order)
Pair-IsClear z z' p b c order (upper e f) clear rem q h =
    let (k, g) = rem.blocks q h in
    let one = clear q k in
    let two = rem.clear q h in
    ground (arith, one-le-pow (z.page_order q) 2, pow-suc 2 order, ap (λ o. 2 ^ o) g)
Pair-IsClear z z' p b c order (lower e f) clear rem q h =
    let (k, g) = rem.blocks q h in
    let one = clear q k in
    let two = rem.clear q h in
    ground (arith, one-le-pow (z.page_order q) 2, pow-suc 2 order, ap (λ o. 2 ^ o) g)

Pair-Freed :
    (z z' z'' : Zone) (p b c order : ℕ)
    → Pair order p b c
    → Removed z b order z'
    → Freed z' c (suc order) z''
    → Freed z p order z''
Pair-Freed z z' z'' p b c order pair rem done = record {
  wf = done.wf;
  free = λ x. (λ h. back x ((done.free x).0 h), forth x);
  refcounts = done.refcounts ∙ rem.refcounts;
  managed = done.managed ∙ rem.managed;
}
  where
    split :
        (x : ℕ)
        → c ≤ x
        → x < c + 2 ^ suc order
        → ((b ≤ x) × (x < b + 2 ^ order)) ⊎ ((p ≤ x) × (x < p + 2 ^ order))
    split x lo hi = elim pair [
      | upper e f ↦ ground (arith, pow-suc 2 order)
      | lower e f ↦ ground (arith, pow-suc 2 order)
    ]

    join :
        (x : ℕ)
        → ((b ≤ x) × (x < b + 2 ^ order)) ⊎ ((p ≤ x) × (x < p + 2 ^ order))
        → (c ≤ x) × (x < c + 2 ^ suc order)
    join x h = elim pair [
      | upper e f ↦ ground (arith, pow-suc 2 order)
      | lower e f ↦ ground (arith, pow-suc 2 order)
    ]

    back :
        (x : ℕ)
        → IsFree z' x ⊎ ((c ≤ x) × (x < c + 2 ^ suc order))
        → IsFree z x ⊎ ((p ≤ x) × (x < p + 2 ^ order))
    back x (inl h) = inl ((rem.free x).1 (inl h))
    back x (inr (lo, hi)) = elim (split x lo hi) [
      | inl in_b ↦ inl ((rem.free x).1 (inr in_b))
      | inr in_p ↦ inr in_p
    ]

    forth : (x : ℕ) → IsFree z x ⊎ ((p ≤ x) × (x < p + 2 ^ order)) → IsFree z'' x
    forth x (inr in_p) = (done.free x).1 (inr (join x (inr in_p)))
    forth x (inl h) = elim ((rem.free x).0 h) [
      | inl rest ↦ (done.free x).1 (inl rest)
      | inr in_b ↦ (done.free x).1 (inr (join x (inl in_b)))
    ]

merge_up-Freed :
    (up p last order : ℕ) (z : Zone)
    → up + order ≡ max_order - 1
    → WellFormed z
    → Aligned order p
    → IsClear z p order
    → Freed z p order (merge_up up p last order z)
unfolding merge_up find_buddy_pfn
merge_up-Freed zero p last order z n wf al clear =
    done_merging-Freed z p last order wf (omega arith) al clear
merge_up-Freed (suc up) p last order z n wf al clear =
    let b = find_buddy_pfn p order in
    let (pair, higher) = buddies order p al in
    elim (Bool-cases (page_is_buddy z p b order)) [
      | inl is ↦
          let (listed, e) = page_is_buddy-IsBlock z p b order is in
          let rem = del_page_from_free_list-Removed z b order wf listed e in
          let z' = del_page_from_free_list b order z in
          let c = bit_and b p in
          rw is (
            Pair-Freed z z' (merge_up up c b (suc order) z') p b c order pair rem (
              merge_up-Freed up c b (suc order) z' (omega arith) rem.wf higher
                (Pair-IsClear z z' p b c order pair clear rem)))
      | inr stop ↦ rw stop (done_merging-Freed z p b order wf (omega arith) al clear)
    ]

-- Freeing a block of `2 ^ order` pages of a well-formed zone, aligned to its size, of which no page
-- is free, keeps the zone well-formed, makes exactly these pages free in addition, and changes no
-- counter.
pub free_one_page-Freed :
    (z : Zone) (pfn order : ℕ)
    → WellFormed z
    → order < max_order
    → Aligned order pfn
    → IsClear z pfn order
    → Freed z pfn order (free_one_page pfn order z)
unfolding free_one_page
free_one_page-Freed z pfn order wf low al clear =
    merge_up-Freed (max_order - 1 - order) pfn 0 order z (omega arith) wf al clear
