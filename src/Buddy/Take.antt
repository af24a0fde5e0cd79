-- ===== src/Buddy/Take.antt =====
-- The theorem on `__rmqueue_smallest` of buddy/buddy.c and its lemmas.
use xlinux.Common.{
  ℕ, zero, suc, ◌+◌, ◌-◌, ◌*◌, ◌^◌, ◌≤◌, ◌<◌, ◌≡◌, ◌⊎◌, ◌↔◌, inl, inr, ◌&&◌, List, [], ◌∷◌, ◌==◌,
  if◌then◌else◌, leb, arith, refl, sym, ap, ◌∙◌, Bool-cases, Option, none, some,
}
use mathlib.Core.Path.{subst}
use xlinux.Common.Bits.{pow-add_lem}
use xlinux.Common.Buddies.{Aligned}
use native.Mathlib.Nat.{one-le-pow}
use xlinux.Buddy.{Zone, max_order, del_page_from_free_list, expand, rmqueue_from, rmqueue_smallest}
use xlinux.Common.Counts.{count}
use xlinux.Buddy.Blocks.{IsBlock, IsFree, WellFormed, IsClear}
use xlinux.Buddy.Leaves.{Removed, del_page_from_free_list-Removed}
use xlinux.Buddy.Halves.{pow_grows, Expanded, expand-Expanded}

-- What a search for a block of the order leaves: no zone list from `order` on has a block; or one
-- aligned block, all of it free before, is free no more, and nothing else changes.
pub data Taken (z : Zone) (order : ℕ) : Option ℕ × Zone → Type 0 where
  exhausted : ((o : ℕ) → order ≤ o → o < max_order → z.free_list o ≡ []) → Taken z order (none, z)
  found :
      (page : ℕ) (z' : Zone)
      → WellFormed z'
      → Aligned order page
      → IsClear z' page order
      → ((x : ℕ) → IsFree z x ↔ (IsFree z' x ⊎ ((page ≤ x) × (x < page + 2 ^ order))))
      → z'.refcount ≡ z.refcount
      → Taken z order (some page, z')

List-cases : (l : List ℕ) → (l ≡ []) ⊎ ((p : ℕ) × (m : List ℕ) × (l ≡ p ∷ m))
List-cases [] = inl refl
List-cases (p ∷ l) = inr (p, l, refl)

head-IsBlock :
    (z : Zone) (o p : ℕ) (l : List ℕ)
    → WellFormed z
    → z.free_list o ≡ p ∷ l
    → IsBlock z p × (z.page_order p ≡ o)
head-IsBlock z o p l wf e =
    let c : count p (p ∷ l) ≡ (if z.buddy p && (z.page_order p == o) then 1 else 0) =
      ap (count p) (sym e) ∙ wf.lists o p in
    ground arith

shrink-Aligned : (low n page : ℕ) → Aligned (low + n) page → Aligned low page
shrink-Aligned low n page (m, e) = (m * 2 ^ n, e ∙ rw (pow-add_lem low n) (grind arith))

expand-found :
    (z z' z'' : Zone) (page order n : ℕ)
    → Aligned (order + n) page
    → Removed z page (order + n) z'
    → Expanded z' page order (order + n) z''
    → Taken z order (some page, z'')
expand-found z z' z'' page order n al rem done =
    found page z'' done.wf (shrink-Aligned order n page al) done.clear
      (λ x. (
        λ h. elim ((rem.free x).0 h) [
          | inl old ↦ inl ((done.free x).1 (inl old))
          | inr (lo, hi) ↦ elim (Bool-cases (leb (page + 2 ^ order) x)) [
            | inl high_part ↦ inl ((done.free x).1 (inr (ground arith, hi)))
            | inr low_part ↦ inr (lo, ground arith)
          ]
        ],
        λ h. elim h [
          | inl new ↦ elim ((done.free x).0 new) [
            | inl old ↦ (rem.free x).1 (inl old)
            | inr (lo, hi) ↦ (rem.free x).1 (inr (omega (arith, one-le-pow order 2), hi))
          ]
          | inr (lo, hi) ↦ (rem.free x).1 (inr (lo, omega (arith, pow_grows order n)))
        ],
      ))
      (done.refcounts ∙ rem.refcounts)

rmqueue_from-Taken :
    (up n order : ℕ) (z : Zone)
    → WellFormed z
    → up + (order + n) ≡ max_order
    → ((o : ℕ) → order ≤ o → o < order + n → z.free_list o ≡ [])
    → Taken z order (rmqueue_from up n order z)
unfolding rmqueue_from
rmqueue_from-Taken zero n order z wf e empty = exhausted (λ o lo hi. empty o lo (omega arith))
rmqueue_from-Taken (suc up) n order z wf e empty = elim (List-cases (z.free_list (order + n))) [
  | inl none_here ↦
      rw (none_here, rmqueue_from)
        (rmqueue_from-Taken up (suc n) order z wf (omega arith) (λ o lo hi.
          elim (Bool-cases (o == order + n)) [
            | inl same ↦ let f : o ≡ order + n = ground arith in rw f none_here
            | inr other ↦ empty o lo (ground arith)
          ]))
  | inr (page, l, here) ↦
      let (listed, f) = head-IsBlock z (order + n) page l wf here in
      let rem = del_page_from_free_list-Removed z page (order + n) wf listed f in
      let al = subst (λ k. Aligned k page) f (wf.aligned page listed) in
      let z' = del_page_from_free_list page (order + n) z in
      rw (here, rmqueue_from)
        (expand-found z z' (expand n page order z') page order n al rem
          (expand-Expanded n page order z' rem.wf (omega arith) al rem.clear))
]

-- In a well-formed zone, `__rmqueue_smallest` returns a page and leaves a well-formed zone in which
-- the aligned block of `2 ^ order` pages at that page, free before, is free no more, and every other
-- page is free as before; or it returns none and changes nothing, and then no list of the order or a
-- higher one has a block.
pub rmqueue_smallest-Taken :
    (z : Zone) (order : ℕ)
    → WellFormed z
    → order < max_order
    → Taken z order (rmqueue_smallest order z)
unfolding rmqueue_smallest
rmqueue_smallest-Taken z order wf low =
    rmqueue_from-Taken (max_order - order) 0 order z wf (omega arith)
      (λ o lo hi. absurd (omega arith))
