-- ===== src/Buddy/Leaves.antt =====
-- Lemmas on `del_page_from_free_list` of buddy/buddy.c.
use xlinux.Common.{
  ℕ, ◌+◌, ◌^◌, ◌≤◌, ◌<◌, ◌≡◌, ◌≢◌, ◌⊎◌, ◌↔◌, inl, inr, true, false, ◌&&◌, ◌==◌, if◌then◌else◌,
  length, arith, refl, ap, ◌∙◌, Bool-cases,
}
use mathlib.Core.Path.{subst}
use xlinux.Buddy.{Zone, del_page_from_free_list}
use xlinux.Common.Counts.{count}
use xlinux.Buddy.Blocks.{
  count-list_del, length-list_del, IsBlock, end_of, IsFree, WellFormed, IsClear,
}

module _ (z : Zone) (p : ℕ) (wf : WellFormed z) (listed : IsBlock z p) where
  abbrev without : Zone
  without = del_page_from_free_list p (z.page_order p) z

  without-lists :
      (o q : ℕ)
      → count q (without.free_list o)
        ≡ (if without.buddy q && (without.page_order q == o) then 1 else 0)
  unfolding del_page_from_free_list
  without-lists o q = elim (Bool-cases (o == z.page_order p)) [
    | inl here ↦
        let f : o ≡ z.page_order p = ground arith in
        let le : count q (z.free_list (z.page_order p))
            ≡ (if z.buddy q && (z.page_order q == z.page_order p) then 1 else 0) =
          wf.lists (z.page_order p) q in
        elim (Bool-cases (q == p)) [
          | inl same ↦
              rw (here, same)
                (ground (arith, count-list_del p q (z.free_list (z.page_order p)), le))
          | inr other ↦
              rw (here, other, f)
                (count-list_del p q (z.free_list (z.page_order p)) ∙ rw other (omega (arith)) ∙ le)
        ]
    | inr there ↦ elim (Bool-cases (q == p)) [
      | inl same ↦
          let e : q ≡ p = ground arith in
          rw (there, same) (ground (arith, wf.lists o q, ap z.page_order e))
      | inr other ↦ rw (there, other) (wf.lists o q)
    ]
  ]

  without-lengths : (o : ℕ) → without.nr_free o ≡ length (without.free_list o)
  unfolding del_page_from_free_list
  without-lengths o = elim (Bool-cases (o == z.page_order p)) [
    | inl here ↦
        let once : count p (z.free_list (z.page_order p)) ≡ 1 =
          wf.lists (z.page_order p) p ∙ rw listed (ground arith) in
        rw here (
          omega (
            arith,
            wf.lengths (z.page_order p),
            length-list_del p (z.free_list (z.page_order p)) (omega arith),
          ))
    | inr there ↦ rw there (wf.lengths o)
  ]

  -- The blocks that are left are blocks of the zone, with their orders.
  pub without-IsBlock :
      (q : ℕ) → IsBlock without q → IsBlock z q × (q ≢ p) × (without.page_order q ≡ z.page_order q)
  unfolding del_page_from_free_list
  without-IsBlock q = elim (Bool-cases (q == p)) [
    | inl same ↦ rw same (λ h. absurd (ground arith))
    | inr other ↦ rw other (λ h. (h, ground arith, refl))
  ]

  pub without-WellFormed : WellFormed without
  without-WellFormed = record {
    lists = without-lists;
    lengths = without-lengths;
    small = λ q h. let (k, ne, e) = without-IsBlock q h in omega (arith, wf.small q k);
    aligned = λ q h. let (k, ne, e) = without-IsBlock q h in rw e (wf.aligned q k);
    apart = λ q r h j ne.
        let (k, _, e) = without-IsBlock q h in
        let (l, _, f) = without-IsBlock r j in rw (e, f) (wf.apart q r k l ne);
  }

  -- The pages of the block were free and are not, and the others keep their state.
  pub without-IsFree : (x : ℕ) → IsFree z x ↔ (IsFree without x ⊎ ((p ≤ x) × (x < end_of z p)))
  unfolding del_page_from_free_list
  without-IsFree x = (from_zone, to_zone)
    where
      from_zone : IsFree z x → IsFree without x ⊎ ((p ≤ x) × (x < end_of z p))
      from_zone (q, h, lo, hi) = at q (Bool-cases (q == p)) h lo hi
        where
          at :
              (q : ℕ)
              → ((q == p) ≡ true) ⊎ ((q == p) ≡ false)
              → IsBlock z q
              → q ≤ x
              → x < end_of z q
              → IsFree without x ⊎ ((p ≤ x) × (x < end_of z p))
          at q (inl same) = let e : q ≡ p = ground arith in rw e (λ _ lo hi. inr (lo, hi))
          at q (inr other) = λ h lo hi. inl (q, rw other h, lo, rw other hi)

      to_zone : IsFree without x ⊎ ((p ≤ x) × (x < end_of z p)) → IsFree z x
      to_zone (inl (q, h, lo, hi)) =
          let (k, ne, e) = without-IsBlock q h in (q, k, lo, omega (arith, ap (λ o. 2 ^ o) e))
      to_zone (inr (lo, hi)) = (p, listed, lo, hi)

  -- Nothing that is left overlaps the block.
  pub without-IsClear : IsClear without p (z.page_order p)
  without-IsClear q h = let (k, ne, e) = without-IsBlock q h in rw e (wf.apart q p k listed ne)

-- What holds when a block of a well-formed zone has left it for the zone `z'`.
pub record Removed (z : Zone) (p order : ℕ) (z' : Zone) : Type 0 where
  pub wf : WellFormed z'
  pub free : (x : ℕ) → IsFree z x ↔ (IsFree z' x ⊎ ((p ≤ x) × (x < p + 2 ^ order)))
  pub clear : IsClear z' p order
  pub blocks : (q : ℕ) → IsBlock z' q → IsBlock z q × (z'.page_order q ≡ z.page_order q)
  pub refcounts : z'.refcount ≡ z.refcount
  pub managed : z'.managed_pages ≡ z.managed_pages

pub del_page_from_free_list-Removed :
    (z : Zone) (p order : ℕ)
    → WellFormed z
    → IsBlock z p
    → z.page_order p ≡ order
    → Removed z p order (del_page_from_free_list p order z)
unfolding del_page_from_free_list
del_page_from_free_list-Removed z p order wf listed e =
    subst (λ o. Removed z p o (del_page_from_free_list p o z)) e
      (record {
        wf = without-WellFormed z p wf listed;
        free = without-IsFree z p wf listed;
        clear = without-IsClear z p wf listed;
        blocks = λ q h. let (k, _, f) = without-IsBlock z p wf listed q h in (k, f);
        refcounts = refl;
        managed = refl;
      })
