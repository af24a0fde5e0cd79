-- ===== src/Buddy/Pcp/Pages.antt =====
-- The theorem on `__alloc_pages_nodemask` of buddy/buddy.c and its lemmas.
use xlinux.Common.{
  ℕ, zero, suc, ◌+◌, ◌%◌, ◌^◌, ◌≤◌, ◌<◌, ◌≡◌, ◌⊎◌, ◌↔◌, inl, inr, true, Option, none, some, List,
  [], ◌∷◌, ◌==◌, leb, if◌then◌else◌, length, arith, refl, sym, ap, Bool-cases,
}
use mathlib.Core.Path.{subst}
use xlinux.Common.Counts.{count}
use xlinux.Common.Buddies.{Aligned}
use xlinux.Buddy.{Zone, max_order, rmqueue_smallest}
use xlinux.Buddy.Blocks.{IsFree, WellFormed}
use xlinux.Buddy.Halves.{IsFree-used}
use xlinux.Buddy.Take.{Taken, exhausted, found, rmqueue_smallest-Taken}
use xlinux.Buddy.Pcp.{
  Pcp, rmqueue_bulk, take_head, take_first, fill_and_take, rmqueue_pcplist, rmqueue, alloc_pages,
}
use xlinux.Buddy.Pcp.Bulk.{Drawn, Bulk, drawn, ran_out, rmqueue_bulk-Bulk}

-- A page that the zone or the list of the CPU has.
abbrev pub IsAvailable : Zone → Pcp → ℕ → Type 0
IsAvailable z pcp x = IsFree z x ⊎ (0 < count x pcp.lists)

-- The zone is well-formed, and the list holds different pages that are not in the zone.
pub record Consistent (z : Zone) (pcp : Pcp) : Type 0 where
  pub wf : WellFormed z
  pub once : (x : ℕ) → count x pcp.lists ≤ 1
  pub apart : (x : ℕ) → 0 < count x pcp.lists → ¬ IsFree z x

-- The outcome of an allocation: an aligned block of the order leaves the available pages and
-- nothing else changes; or a panic, for an order out of range, where no list has a large enough
-- block, or where the list of the CPU is empty and the zone has fewer pages than a batch, so that
-- all its lists are empty without them, or a batch is no page.
pub data Allocated (order : ℕ) (pcp : Pcp) (z : Zone) : Option (ℕ × Pcp × Zone) → Type 0 where
  allocated :
      (page : ℕ) (pcp' : Pcp) (z' : Zone)
      → Consistent z' pcp'
      → Aligned order page
      → ((x : ℕ)
          → IsAvailable z pcp x ↔ (IsAvailable z' pcp' x ⊎ ((page ≤ x) × (x < page + 2 ^ order))))
      → ((x : ℕ) → page ≤ x → x < page + 2 ^ order → ¬ IsAvailable z' pcp' x)
      → Allocated order pcp z (some (page, pcp', z'))
  bad_order : max_order ≤ order → Allocated order pcp z none
  no_block : ((o : ℕ) → order ≤ o → o < max_order → z.free_list o ≡ []) → Allocated order pcp z none
  no_batch :
      (pages : List ℕ) (z' : Zone)
      → order ≡ 0
      → pcp.lists ≡ []
      → Drawn z pages z'
      → length pages < pcp.batch
      → ((o : ℕ) → o < max_order → z'.free_list o ≡ [])
      → Allocated order pcp z none
  empty_batch : order ≡ 0 → pcp.lists ≡ [] → pcp.batch ≡ 0 → Allocated order pcp z none

-- The first page leaves the list.
first_page :
    (z z' : Zone) (pcp pcp' : Pcp) (page : ℕ) (l : List ℕ) (n : ℕ)
    → Consistent z' pcp'
    → pcp'.lists ≡ page ∷ l
    → ((x : ℕ) → IsAvailable z pcp x ↔ IsAvailable z' pcp' x)
    → Allocated 0 pcp z (some (page, record pcp' { lists = l; count = n }, z'))
first_page z z' pcp pcp' page l n con e same =
    allocated page (record pcp' { lists = l; count = n }) z'
      (record {
        wf = con.wf;
        once = λ x. omega (arith, con.once x, counted x);
        apart = λ x c. con.apart x (omega (arith, counted x));
      })
      (page, omega arith) (λ x. (λ a. forth x ((same x).0 a), λ a. (same x).1 (back x a)))
      unavailable
  where
    counted : (x : ℕ) → count x pcp'.lists ≡ (if x == page then 1 else 0) + count x l
    counted x = ap (count x) e

    forth :
        (x : ℕ)
        → IsAvailable z' pcp' x
        → (IsFree z' x ⊎ (0 < count x l)) ⊎ ((page ≤ x) × (x < page + 2 ^ 0))
    forth x (inl f) = inl (inl f)
    forth x (inr c) = elim (Bool-cases (x == page)) [
      | inl is ↦ inr (ground arith, ground arith)
      | inr other ↦ inl (inr (ground (arith, c, counted x, other)))
    ]

    back :
        (x : ℕ)
        → (IsFree z' x ⊎ (0 < count x l)) ⊎ ((page ≤ x) × (x < page + 2 ^ 0))
        → IsAvailable z' pcp' x
    back x (inl (inl f)) = inl f
    back x (inl (inr c)) = inr (omega (arith, counted x))
    back x (inr (lo, hi)) =
        let is : (x == page) ≡ true = ground arith in inr (ground (arith, counted x, is))

    unavailable : (x : ℕ) → page ≤ x → x < page + 2 ^ 0 → ¬ (IsFree z' x ⊎ (0 < count x l))
    unavailable x lo hi (inl f) =
        let is : (x == page) ≡ true = ground arith in con.apart x (ground (arith, counted x, is)) f
    unavailable x lo hi (inr c) =
        let is : (x == page) ≡ true = ground arith in
        absurd (ground (arith, counted x, is, con.once x, c))

List-cases : (l : List ℕ) → (l ≡ []) ⊎ ((p : ℕ) × (m : List ℕ) × (l ≡ p ∷ m))
List-cases [] = inl refl
List-cases (p ∷ l) = inr (p, l, refl)

refilled :
    (z z' : Zone) (pcp : Pcp) (pages : List ℕ) (n : ℕ)
    → pcp.lists ≡ []
    → Drawn z pages z'
    → Allocated 0 pcp z (take_first (record pcp { lists = pages; count = n }) z') ⊎ (pages ≡ [])
unfolding take_first take_head
refilled z z' pcp [] n e d = inr refl
refilled z z' pcp (page ∷ l) n e d = inl (
    first_page z z' pcp (record pcp { lists = page ∷ l; count = n }) page l _
      (record { wf = d.wf; once = d.once; apart = d.gone }) refl
      (λ x. (
        λ a. elim a [ inl f ↦ (d.free x).0 f | inr c ↦ absurd (omega (arith, ap (count x) e)) ],
        λ a. inl ((d.free x).1 a),
      )))

rmqueue_pcplist-Allocated :
    (pcp : Pcp) (z : Zone) → Consistent z pcp → Allocated 0 pcp z (rmqueue_pcplist pcp z)
unfolding rmqueue_pcplist fill_and_take take_first take_head
rmqueue_pcplist-Allocated pcp z con = elim (List-cases pcp.lists) [
  | inl none_left ↦
      subst (λ k. Allocated 0 pcp z (fill_and_take k pcp z)) (sym none_left)
        (refill none_left (rmqueue_bulk pcp.batch z) (rmqueue_bulk-Bulk pcp.batch z con.wf))
  | inr (page, l, e) ↦
      subst (λ k. Allocated 0 pcp z (fill_and_take k pcp z)) (sym e) (listed page l e)
]
  where
    listed : (page : ℕ) (l : List ℕ) → pcp.lists ≡ page ∷ l → Allocated 0 pcp z (take_first pcp z)
    listed page l e =
        subst (λ k. Allocated 0 pcp z (take_head k pcp z)) (sym e)
          (first_page z z pcp pcp page l _ con e (λ x. (λ a. a, λ a. a)))

    refill :
        pcp.lists ≡ []
        → (r : Option (List ℕ × Zone)) → Bulk z pcp.batch r
        → Allocated 0 pcp z (elim r [
          | none ↦ none
          | some (l, z') ↦
              take_first (record pcp { lists = l; count = (pcp.count + length l) % 2 ^ 32 }) z'
        ])
    refill e _ (ran_out pages z' d short empty) = no_batch pages z' refl e d short empty
    refill e _ (drawn pages z' d len) =
        elim (refilled z z' pcp pages ((pcp.count + length pages) % 2 ^ 32) e d) [
          | inl ok ↦ ok
          | inr nothing ↦
              let no_pages : pcp.batch ≡ 0 = omega (arith, len, ap length nothing) in
              simp nothing (empty_batch refl e no_pages)
        ]

block-Allocated :
    (order : ℕ) (pcp : Pcp) (z : Zone) (r : Option ℕ × Zone)
    → Consistent z pcp
    → Taken z order r
    → Allocated order pcp z (elim r.0 [ none ↦ none | some page ↦ some (page, pcp, r.1) ])
block-Allocated order pcp z _ con (exhausted empty) = no_block empty
block-Allocated order pcp z _ con (found page z' wf al clear free same) =
    allocated page pcp z'
      (record { wf = wf; once = con.once; apart = λ x c f. con.apart x c ((free x).1 (inl f)) }) al
      (λ x. (
        λ a. elim a [
          | inl f ↦ elim ((free x).0 f) [ inl f' ↦ inl (inl f') | inr b ↦ inr b ]
          | inr c ↦ inl (inr c)
        ],
        λ a. elim a [
          | inl a' ↦ elim a' [ inl f ↦ inl ((free x).1 (inl f)) | inr c ↦ inr c ]
          | inr b ↦ inl ((free x).1 (inr b))
        ],
      ))
      (λ x lo hi a. elim a [
        | inl f ↦ IsFree-used z' page order x clear lo hi f
        | inr c ↦ con.apart x c ((free x).1 (inr (lo, hi)))
      ])

-- From a consistent state `__alloc_pages_nodemask` takes one aligned block of `2 ^ order` pages off
-- the pages that the zone and the list of the CPU have, and leaves the others and a consistent
-- state; or it panics: for an order out of range, where no list from the order on has a block, or
-- for a single page where the list of the CPU is empty and all the free pages of the zone are fewer
-- than a batch, or a batch is no page.
pub alloc_pages-Allocated :
    (order : ℕ) (pcp : Pcp) (z : Zone)
    → Consistent z pcp
    → Allocated order pcp z (alloc_pages order pcp z)
unfolding alloc_pages rmqueue
alloc_pages-Allocated order pcp z con = elim (Bool-cases (leb max_order order)) [
  | inl high ↦ rw high (bad_order (ground arith))
  | inr low ↦ rw low (by_order order (ground arith))
]
  where
    by_order : (order : ℕ) → order < max_order → Allocated order pcp z (rmqueue order pcp z)
    by_order zero low = rmqueue_pcplist-Allocated pcp z con
    by_order (suc order) low =
        block-Allocated (suc order) pcp z (rmqueue_smallest (suc order) z) con
          (rmqueue_smallest-Taken z (suc order) con.wf low)
