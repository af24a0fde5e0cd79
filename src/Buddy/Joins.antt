-- ===== src/Buddy/Joins.antt =====
-- Lemmas on a block that joins a free list of buddy/buddy.c.
use xlinux.Common.{
  ℕ, suc, ◌+◌, ◌^◌, ◌≤◌, ◌<◌, ◌≡◌, ◌≢◌, ◌⊎◌, ◌↔◌, inl, inr, true, false, ◌&&◌, List, ◌==◌,
  if◌then◌else◌, length, arith, refl, sym, ap, ◌∙◌, Bool-cases,
}
use mathlib.Core.Path.{subst}
use xlinux.Common.Buddies.{Aligned}
use xlinux.Common.Tables.{update}
use xlinux.Buddy.{Zone, max_order, update}
use xlinux.Common.Counts.{count}
use xlinux.Buddy.Blocks.{IsBlock, end_of, IsFree, WellFormed, IsClear, IsClear-unlisted}

true-false : true ≢ false
true-false e = absurd (ground (arith, e))

swap : {A B : Type 0} → A ⊎ B → B ⊎ A
swap (inl a) = inr a
swap (inr b) = inl b

-- A zone with one block more, whichever end of its list it joins.
abbrev pub with_block : Zone → ℕ → ℕ → List ℕ → Zone
with_block z p order l = record z {
  free_list = update z.free_list order l;
  nr_free = update z.nr_free order (suc (z.nr_free order));
  page_order = update z.page_order p order;
  buddy = update z.buddy p true;
}

module _ (z : Zone) (p order : ℕ) (l : List ℕ) (wf : WellFormed z) (low : order < max_order)
    (al : Aligned order p) (clear : IsClear z p order)
    (joins : (q : ℕ) → count q l ≡ (if q == p then 1 else 0) + count q (z.free_list order))
    (longer : length l ≡ suc (length (z.free_list order))) where
  with_block-lists :
      (o q : ℕ)
      → count q ((with_block z p order l).free_list o) ≡ (
          if (with_block z p order l).buddy q && ((with_block z p order l).page_order q == o)
          then 1
          else 0)
  with_block-lists o q =
      let unlisted : z.buddy p ≡ false = IsClear-unlisted z p order clear in
      elim (Bool-cases (q == p)) [
        | inl same ↦
            let e : q ≡ p = ground arith in
            let none_yet : count q (z.free_list o) ≡ 0 = rw e (wf.lists o p ∙ rw unlisted refl) in
            elim (Bool-cases (o == order)) [
              | inl here ↦
                  let f : o ≡ order = ground arith in
                  rw (same, here) (ground (arith, joins q, ap (λ o. count q (z.free_list o)) f))
              | inr there ↦ rw (same, there) (ground arith)
            ]
        | inr other ↦ elim (Bool-cases (o == order)) [
          | inl here ↦
              let f : o ≡ order = ground arith in
              rw (other, here)
                (joins q
                  ∙ rw other (omega (arith, ap (λ o. count q (z.free_list o)) f))
                  ∙ wf.lists o q)
          | inr there ↦ rw (other, there) (wf.lists o q)
        ]
      ]

  with_block-lengths :
      (o : ℕ) → (with_block z p order l).nr_free o ≡ length ((with_block z p order l).free_list o)
  with_block-lengths o = elim (Bool-cases (o == order)) [
    | inl here ↦ rw here (ground (arith, wf.lengths order))
    | inr there ↦ rw there (wf.lengths o)
  ]

  with_block-small :
      (q : ℕ)
      → IsBlock (with_block z p order l) q
      → (with_block z p order l).page_order q < max_order
  with_block-small q = elim (Bool-cases (q == p)) [
    | inl same ↦ rw same (λ _. low)
    | inr other ↦ rw other (λ h. wf.small q h)
  ]

  with_block-Aligned :
      (q : ℕ)
      → IsBlock (with_block z p order l) q
      → Aligned ((with_block z p order l).page_order q) q
  with_block-Aligned q = elim (Bool-cases (q == p)) [
    | inl same ↦ let e : p ≡ q = ground arith in rw same (λ _. subst (Aligned order) e al)
    | inr other ↦ rw other (λ h. wf.aligned q h)
  ]

  with_block-apart :
      (q r : ℕ)
      → IsBlock (with_block z p order l) q
      → IsBlock (with_block z p order l) r
      → q ≢ r
      → (end_of (with_block z p order l) q ≤ r) ⊎ (end_of (with_block z p order l) r ≤ q)
  with_block-apart q r = elim (Bool-cases (q == p)) [
    | inl same ↦
        let e : q ≡ p = ground arith in
        elim (Bool-cases (r == p)) [
          | inl both ↦ λ h k ne. absurd (ne (ground arith))
          | inr other ↦ rw (same, other, e) (λ h k ne. swap (clear r k))
        ]
    | inr other ↦ elim (Bool-cases (r == p)) [
      | inl same ↦ let e : r ≡ p = ground arith in rw (same, other, e) (λ h k ne. clear q h)
      | inr neither ↦ rw (other, neither) (λ h k ne. wf.apart q r h k ne)
    ]
  ]

  pub with_block-WellFormed : WellFormed (with_block z p order l)
  with_block-WellFormed = record {
    lists = with_block-lists;
    lengths = with_block-lengths;
    small = with_block-small;
    aligned = with_block-Aligned;
    apart = with_block-apart;
  }

  -- Exactly the pages of the new block become free.
  pub with_block-IsFree :
      (x : ℕ) → IsFree (with_block z p order l) x ↔ (IsFree z x ⊎ ((p ≤ x) × (x < p + 2 ^ order)))
  with_block-IsFree x = (to_free, from_free)
    where
      unlisted : z.buddy p ≡ false
      unlisted = IsClear-unlisted z p order clear

      to_free : IsFree (with_block z p order l) x → IsFree z x ⊎ ((p ≤ x) × (x < p + 2 ^ order))
      to_free (q, h, lo, hi) = at q (Bool-cases (q == p)) h lo hi
        where
          at :
              (q : ℕ)
              → ((q == p) ≡ true) ⊎ ((q == p) ≡ false)
              → IsBlock (with_block z p order l) q
              → q ≤ x
              → x < end_of (with_block z p order l) q
              → IsFree z x ⊎ ((p ≤ x) × (x < p + 2 ^ order))
          at q (inl same) = let e : q ≡ p = ground arith in rw (same, e) (λ _ lo hi. inr (lo, hi))
          at q (inr other) = rw other (λ h lo hi. inl (q, h, lo, hi))

      from_free : IsFree z x ⊎ ((p ≤ x) × (x < p + 2 ^ order)) → IsFree (with_block z p order l) x
      from_free (inl (q, h, lo, hi)) =
          let other : (q == p) ≡ false = elim (Bool-cases (q == p)) [
            | inl same ↦
                let e : q ≡ p = ground arith in
                absurd (true-false (sym h ∙ ap z.buddy e ∙ unlisted))
            | inr other ↦ other
          ] in
          (q, rw other h, lo, rw other hi)
      from_free (inr (lo, hi)) =
          let same : (p == p) ≡ true = ground arith in (p, rw same refl, lo, rw same hi)
