-- ===== src/Buddy/Pcp/Bulk.antt =====
-- The theorem on `rmqueue_bulk` of buddy/buddy.c and its lemmas.
use xlinux.Common.{
  ℕ, zero, suc, ◌+◌, ◌^◌, ◌≤◌, ◌<◌, ◌≡◌, ◌⊎◌, ◌↔◌, inl, inr, Option, none, some, List, [], ◌∷◌,
  ◌==◌, length, arith, refl, ap, Bool-cases, true,
}
use mathlib.Core.Path.{subst}
use xlinux.Common.Counts.{count}
use xlinux.Buddy.{Zone, max_order, rmqueue_smallest}
use xlinux.Buddy.Blocks.{IsFree, WellFormed, IsClear}
use xlinux.Buddy.Halves.{IsFree-used}
use xlinux.Buddy.Take.{Taken, exhausted, found, rmqueue_smallest-Taken}
use xlinux.Buddy.Pcp.{rmqueue_bulk}

-- The zone `z'` is `z` without these pages, which were free, each of them once.
pub record Drawn (z : Zone) (pages : List ℕ) (z' : Zone) : Type 0 where
  pub wf : WellFormed z'
  pub free : (x : ℕ) → IsFree z x ↔ (IsFree z' x ⊎ (0 < count x pages))
  pub once : (x : ℕ) → count x pages ≤ 1
  pub gone : (x : ℕ) → 0 < count x pages → ¬ IsFree z' x

-- What `rmqueue_bulk` comes to for `n` pages: all of them, or a panic where fewer were free.
pub data Bulk (z : Zone) (n : ℕ) : Option (List ℕ × Zone) → Type 0 where
  drawn :
      (pages : List ℕ) (z' : Zone)
      → Drawn z pages z'
      → length pages ≡ n
      → Bulk z n (some (pages, z'))
  ran_out :
      (pages : List ℕ) (z' : Zone)
      → Drawn z pages z'
      → length pages < n
      → ((o : ℕ) → o < max_order → z'.free_list o ≡ [])
      → Bulk z n none

nothing-Drawn : (z : Zone) → WellFormed z → Drawn z [] z
nothing-Drawn z wf = record {
  wf = wf;
  free = λ x. (inl, λ h. elim h [ inl f ↦ f | inr c ↦ absurd (omega arith) ]);
  once = λ x. omega arith;
  gone = λ x c. absurd (omega arith);
}

page-Drawn :
    (z z' z'' : Zone) (page : ℕ) (pages : List ℕ)
    → IsClear z' page 0
    → ((x : ℕ) → IsFree z x ↔ (IsFree z' x ⊎ ((page ≤ x) × (x < page + 2 ^ 0))))
    → Drawn z' pages z''
    → Drawn z (page ∷ pages) z''
page-Drawn z z' z'' page pages clear free d = record {
  wf = d.wf;
  free = λ x. (forth x, back x);
  once = λ x. elim (Bool-cases (x == page)) [
    | inl same ↦
        let e : x ≡ page = ground arith in
        rw same (omega (arith, ap (λ y. count y pages) e, absent))
    | inr other ↦ rw other (omega (arith, d.once x))
  ];
  gone = λ x c f. gone x c f;
}
  where
    used : ¬ IsFree z' page
    used = IsFree-used z' page 0 page clear (omega arith) (omega arith)

    absent : count page pages ≡ 0
    absent = elim (Bool-cases (count page pages == 0)) [
      | inl none_there ↦ ground arith
      | inr there ↦ absurd (used ((d.free page).1 (inr (ground arith))))
    ]

    forth : (x : ℕ) → IsFree z x → IsFree z'' x ⊎ (0 < count x (page ∷ pages))
    forth x f = elim ((free x).0 f) [
      | inl old ↦ elim ((d.free x).0 old) [ inl still ↦ inl still | inr c ↦ inr (omega arith) ]
      | inr (lo, hi) ↦ let e : (x == page) ≡ true = ground arith in inr (rw e (omega arith))
    ]

    back : (x : ℕ) → IsFree z'' x ⊎ (0 < count x (page ∷ pages)) → IsFree z x
    back x (inl still) = (free x).1 (inl ((d.free x).1 (inl still)))
    back x (inr c) = elim (Bool-cases (x == page)) [
      | inl same ↦ (free x).1 (inr (ground arith, ground arith))
      | inr other ↦ (free x).1 (inl ((d.free x).1 (inr (ground (arith, c, other)))))
    ]

    gone : (x : ℕ) → 0 < count x (page ∷ pages) → ¬ IsFree z'' x
    gone x c f = elim (Bool-cases (x == page)) [
      | inl same ↦
          let e : x ≡ page = ground arith in
          absurd (used ((d.free page).1 (inl (subst (IsFree z'') e f))))
      | inr other ↦ d.gone x (ground (arith, c, other)) f
    ]

Bulk-step :
    (z z' : Zone) (page n : ℕ) (r : Option (List ℕ × Zone))
    → IsClear z' page 0
    → ((x : ℕ) → IsFree z x ↔ (IsFree z' x ⊎ ((page ≤ x) × (x < page + 2 ^ 0))))
    → Bulk z' n r
    → Bulk z (suc n) (elim r [ none ↦ none | some (l, z'') ↦ some (page ∷ l, z'') ])
Bulk-step z z' page n _ clear free (drawn pages z'' d e) =
    drawn (page ∷ pages) z'' (page-Drawn z z' z'' page pages clear free d) (ap suc e)
Bulk-step z z' page n _ clear free (ran_out pages z'' d h empty) =
    ran_out (page ∷ pages) z'' (page-Drawn z z' z'' page pages clear free d) (omega arith) empty

-- From a well-formed zone `rmqueue_bulk` draws `n` different single pages that were free and are
-- free no more, while every other page keeps its state; or it panics, and then fewer than `n` pages
-- can be drawn before all the lists are empty.
pub rmqueue_bulk-Bulk : (n : ℕ) (z : Zone) → WellFormed z → Bulk z n (rmqueue_bulk n z)
unfolding rmqueue_bulk
rmqueue_bulk-Bulk zero z wf = drawn [] z (nothing-Drawn z wf) refl
rmqueue_bulk-Bulk (suc n) z wf =
    go (rmqueue_smallest 0 z) (rmqueue_smallest-Taken z 0 wf (omega arith))
      (λ z'. rmqueue_bulk-Bulk n z')
  where
    go :
        (t : Option ℕ × Zone)
        → Taken z 0 t
        → ((z' : Zone) → WellFormed z' → Bulk z' n (rmqueue_bulk n z'))
        → Bulk z (suc n) (elim t.0 [
          | none ↦ none
          | some page ↦ elim (rmqueue_bulk n t.1) [
            | none ↦ none
            | some (l, z'') ↦ some (page ∷ l, z'')
          ]
        ])
    go _ (exhausted empty) ih =
        ran_out [] z (nothing-Drawn z wf) (omega arith) (λ o h. empty o (omega arith) h)
    go _ (found page z' wf' al clear free same) ih =
        Bulk-step z z' page n (rmqueue_bulk n z') clear free (ih z' wf')
