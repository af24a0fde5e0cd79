-- ===== src/Slab/Places/Chains.antt =====
-- slab/slab.c: slabs move between the chains of a node, `fixup_slab_list`.
use mathlib.Core.Path.{subst}
use xlinux.Common.{
  ℕ, zero, suc, ◌+◌, ◌-◌, ◌≤◌, ◌<◌, ◌≡◌, ◌≢◌, inl, inr, true, false, Option, none, some, [], ◌==◌,
  if◌then◌else◌, arith, refl, ap, sym, Bool-cases,
}
use xlinux.Common.Counts.{count}
use xlinux.Buddy.Blocks.{count-list_del}
use xlinux.Slab.{Cache, Slab, State, unlist, drop_freelist}
use xlinux.Slab.Places.{window, free_indices, SlabOk, stacked, listed, address, Placed, Filed}

-- The invariant: every object is at one place, and every slab is on the chain it belongs on.
pub record WellFormed (c : Cache) (st : State) (out : ℕ → ℕ) : Type 0 where
  pub placed : Placed c (λ q. listed q st) st out
  pub filed : (page : ℕ) → Filed c st page

-- The same places, on other chains.
pub Placed-moved :
    (c : Cache) (on on' : ℕ → ℕ) (st st' : State) (out : ℕ → ℕ)
    → Placed c on st out
    → ((q : ℕ) → on' q ≡ on q)
    → ((q : ℕ) → 0 < on q → SlabOk c q (st'.slab q))
    → ((q i : ℕ)
        → 0 < on q
        → count i (free_indices c (st'.slab q)) ≡ count i (free_indices c (st.slab q)))
    → ((x : ℕ) → stacked x st'.entry st'.avail ≡ stacked x st.entry st.avail)
    → Placed c on' st' out
Placed-moved c on on' st st' out p same ok frees stack = record {
  slabs = λ q h. ok q (omega (arith, same q, h));
  once = λ q. omega (arith, same q, p.once q);
  places = λ q i h hi.
      let h' : 0 < on q = omega (arith, same q, h) in
      omega (arith, frees q i h', stack (address c q i), p.places q i h' hi);
  owned = λ x h.
      let (q, i, h', hi, e) = p.owned x (omega (arith, stack x, h)) in
      (q, i, omega (arith, same q, h'), hi, e);
}

pub empty_window : (f : ℕ → ℕ) (a n : ℕ) → n ≡ 0 → window f a n ≡ []
empty_window f a zero e = refl
empty_window f a (suc n) e = absurd (omega arith)

pub used_up : (c : Cache) (s : Slab) → s.active ≡ c.num → free_indices c s ≡ []
used_up c s e = go s.freelist
  where
    go :
        (o : Option ℕ)
        → (elim o [ none ↦ [] | some fl ↦ window s.bytes (fl + s.active) (c.num - s.active) ]) ≡ []
    go none = refl
    go (some fl) = empty_window s.bytes (fl + s.active) (c.num - s.active) (omega (arith, e))

drop_own :
    (c : Cache) (s : Slab) → c.objfreelist ≡ true → drop_freelist c s ≡ record s { freelist = none }
unfolding drop_freelist
drop_own c s own = ap (λ b. if b then record s { freelist = none } else s) own

drop_apart : (c : Cache) (s : Slab) → c.objfreelist ≡ false → drop_freelist c s ≡ s
unfolding drop_freelist
drop_apart c s own = ap (λ b. if b then record s { freelist = none } else s) own

-- A slab without free objects, as the chain `slabs_full` has it.
pub record UsedUp (c : Cache) (page : ℕ) (s : Slab) : Type 0 where
  pub ok : SlabOk c page s
  pub all : s.active ≡ c.num
  pub dropped : c.objfreelist ≡ true → s.freelist ≡ none

pub drop_freelist-UsedUp :
    (c : Cache) (page : ℕ) (s : Slab)
    → SlabOk c page s
    → s.active ≡ c.num
    → UsedUp c page (drop_freelist c s)
drop_freelist-UsedUp c page s ok e = elim (Bool-cases c.objfreelist) [
  | inl own ↦ subst (UsedUp c page) (sym (drop_own c s own)) (record {
    ok = record {
      mem = ok.mem;
      bound = ok.bound;
      range = λ i h. absurd (omega (arith, h));
      null = λ z. (e, own);
      inside = λ fl z h. absurd (omega (arith, e, h));
      trailing = λ fl z h. absurd (ground (arith, own, h));
    };
    all = e;
    dropped = λ h. refl;
  })
  | inr apart ↦
      subst (UsedUp c page) (sym (drop_apart c s apart))
        (record { ok = ok; all = e; dropped = λ h. absurd (ground (arith, apart, h)) })
]

module _ (c : Cache) (page : ℕ) (st : State) where
  -- Off its chain, a slab is on none.
  pub unlist_here :
      listed page st ≤ 1
      → (count page (unlist page st).slabs_partial ≡ 0)
        × (count page (unlist page st).slabs_full ≡ 0)
        × (count page (unlist page st).slabs_free ≡ 0)
  unfolding unlist
  unlist_here once = (
    ground (arith, count-list_del page page st.slabs_partial),
    ground (arith, count-list_del page page st.slabs_full),
    ground (arith, count-list_del page page st.slabs_free),
  )

  pub unlist_other :
      (q : ℕ)
      → q ≢ page
      → (count q (unlist page st).slabs_partial ≡ count q st.slabs_partial)
        × (count q (unlist page st).slabs_full ≡ count q st.slabs_full)
        × (count q (unlist page st).slabs_free ≡ count q st.slabs_free)
  unfolding unlist
  unlist_other q ne = (
    ground (arith, count-list_del page q st.slabs_partial),
    ground (arith, count-list_del page q st.slabs_full),
    ground (arith, count-list_del page q st.slabs_free),
  )

-- Where a slab is after it was moved: on one chain, the other slabs where they were.
pub record Chained (page : ℕ) (st st' : State) (partial full free : ℕ) : Type 0 where
  pub here :
      (count page st'.slabs_partial ≡ partial)
      × (count page st'.slabs_full ≡ full)
      × (count page st'.slabs_free ≡ free)
  pub others :
      (q : ℕ)
      → q ≢ page
      → (count q st'.slabs_partial ≡ count q st.slabs_partial)
        × (count q st'.slabs_full ≡ count q st.slabs_full)
        × (count q st'.slabs_free ≡ count q st.slabs_free)
  pub kept : (q : ℕ) → q ≢ page → st'.slab q ≡ st.slab q

pub Filed-other :
    (c : Cache) (page : ℕ) (st st' : State) (a b d : ℕ)
    → Chained page st st' a b d
    → (q : ℕ) → q ≢ page
    → Filed c st q
    → Filed c st' q
Filed-other c page st st' a b d ch q ne f =
    let o = ch.others q ne in
    let s = ch.kept q ne in
    record {
      full = λ h.
          subst (λ s. (s.active ≡ c.num) × (c.objfreelist ≡ true → s.freelist ≡ none)) (sym s)
            (f.full (omega (arith, o.1, h)));
      partial = λ h.
          subst (λ s. (0 < s.active) × (s.active < c.num)) (sym s)
            (f.partial (omega (arith, o.0, h)));
      free = λ h. subst (λ s. s.active ≡ 0) (sym s) (f.free (omega (arith, o.2, h)));
    }

module _ (c : Cache) (on : ℕ → ℕ) (page : ℕ) (st st' : State) (a b d : ℕ)
    (ch : Chained page st st' a b d) (one : a + b + d ≡ 1) (was : on page ≡ 1)
    (onq : (q : ℕ) → q ≢ page → on q ≡ listed q st) where
  pub Chained-listed : (q : ℕ) → listed q st' ≡ on q
  Chained-listed q = elim (Bool-cases (q == page)) [
    | inl same ↦
        let e : q ≡ page = ground arith in
        let h = ch.here in
        subst (λ r. listed r st' ≡ on r) (sym e) (omega (arith, h.0, h.1, h.2, one, was))
    | inr other ↦
        let ne : q ≢ page = ground arith in
        let o = ch.others q ne in omega (arith, o.0, o.1, o.2, onq q ne)
  ]

  -- A move to the right chain restores the invariant.
  pub Chained-WellFormed :
      (out : ℕ → ℕ)
      → Placed c on st out
      → ((q : ℕ) → q ≢ page → Filed c st q)
      → SlabOk c page (st'.slab page)
      → Filed c st' page
      → ((i : ℕ)
          → count i (free_indices c (st'.slab page)) ≡ count i (free_indices c (st.slab page)))
      → ((x : ℕ) → stacked x st'.entry st'.avail ≡ stacked x st.entry st.avail)
      → WellFormed c st' out
  Chained-WellFormed out p filed ok f frees stack = record {
    placed =
        Placed-moved c on (λ q. listed q st') st st' out p Chained-listed
          (λ q h. elim (Bool-cases (q == page)) [
            | inl same ↦
                let e : q ≡ page = ground arith in subst (λ r. SlabOk c r (st'.slab r)) (sym e) ok
            | inr other ↦ subst (SlabOk c q) (sym (ch.kept q (ground arith))) (p.slabs q h)
          ])
          (λ q i h. elim (Bool-cases (q == page)) [
            | inl same ↦
                let e : q ≡ page = ground arith in
                subst
                  (λ r.
                    count i (free_indices c (st'.slab r)) ≡ count i (free_indices c (st.slab r)))
                  (sym e) (frees i)
            | inr other ↦ ap (λ s. count i (free_indices c s)) (ch.kept q (ground arith))
          ])
          stack;
    filed = λ q. elim (Bool-cases (q == page)) [
      | inl same ↦ let e : q ≡ page = ground arith in subst (Filed c st') (sym e) f
      | inr other ↦
          let ne : q ≢ page = ground arith in Filed-other c page st st' a b d ch q ne (filed q ne)
    ];
  }
