-- ===== src/Slab/Places/Alloc.antt =====
-- slab/slab.c: `____cache_alloc`.
use xlinux.Common.{
  ℕ, suc, ◌+◌, ◌-◌, ◌≤◌, ◌<◌, ◌≡◌, inl, inr, true, false, Option, some, ltb, ◌==◌, if◌then◌else◌,
  arith, refl, ap, sym, ◌∙◌, Bool-cases,
}
use xlinux.Slab.{
  Slab, kmem_cache_init, Cache, State, refill_loop, pop_entry, direct_grow, take_or_grow,
  cache_alloc_refill, cache_alloc,
}
use xlinux.Slab.Places.{Geometry, listed}
use xlinux.Slab.Places.Chains.{WellFormed}
use xlinux.Slab.Places.Refill.{WellFormed-counters, refill_loop-Refilled}
use xlinux.Slab.Places.Pop.{Granted, pop_entry-Granted}
use xlinux.Slab.Places.Grow.{direct_grow-Granted}

abbrev pub Result : Cache → ℕ → State → Option (Option ℕ × State) → (ℕ → ℕ) → Type 0
Result c b st r out = (x : ℕ) × (st' : State) × (r ≡ some (some x, st')) × Granted c b st x st' out

pop_instead :
    (c : Cache) (fresh : Option ℕ) (left : ℕ) (st : State)
    → (st.avail == 0) ≡ false
    → take_or_grow c fresh left st ≡ some (some (pop_entry st).0, (pop_entry st).1)
unfolding take_or_grow
pop_instead c fresh left st e =
    ap
      (λ b.
        if b then direct_grow c fresh left st else some (some (pop_entry st).0, (pop_entry st).1))
      e

grow_instead :
    (c : Cache) (fresh : Option ℕ) (left : ℕ) (st : State)
    → (st.avail == 0) ≡ true
    → take_or_grow c fresh left st ≡ direct_grow c fresh left st
unfolding take_or_grow
grow_instead c fresh left st e =
    ap
      (λ b.
        if b then direct_grow c fresh left st else some (some (pop_entry st).0, (pop_entry st).1))
      e

-- The same grant, seen from the state before a refill.
Granted-since :
    (c : Cache) (a b : ℕ) (st st0 : State) (x : ℕ) (st' : State) (out : ℕ → ℕ)
    → Granted c a st x st' out
    → a ≤ b
    → st.limit ≡ st0.limit
    → st.batchcount ≡ st0.batchcount
    → Granted c b st0 x st' out
Granted-since c a b st st0 x st' out r h l n = record {
  after = r.after;
  new = r.new;
  fewer = omega (arith, r.fewer);
  limit = r.limit ∙ l;
  batchcount = r.batchcount ∙ n;
}

module _ (c : Cache) (g : Geometry c) (page : ℕ) (out : ℕ → ℕ) where
  take_or_grow-Granted :
      (left b : ℕ) (st0 st : State)
      → WellFormed c st out
      → listed page st ≡ 0
      → st.avail + left ≡ b
      → 0 < b
      → st.limit ≡ st0.limit
      → st.batchcount ≡ st0.batchcount
      → Result c b st0 (take_or_grow c (some page) left st) out
  take_or_grow-Granted left b st0 st w fresh amount wanted l n = elim (Bool-cases (st.avail == 0)) [
    | inl empty ↦
        let whole : suc (b - 1) ≡ left = ground (arith, empty) in
        let (x, st', run, r) =
          direct_grow-Granted c g page st out w fresh (b - 1) (ground (arith, empty)) in
        (
          x,
          st',
          grow_instead c (some page) left st empty
              ∙ ap (λ left. direct_grow c (some page) left st) (sym whole)
              ∙ run,
          Granted-since c (suc (b - 1)) b st st0 x st' out r (omega arith) l n,
        )
    | inr some_left ↦ (
      (pop_entry st).0,
      (pop_entry st).1,
      pop_instead c (some page) left st some_left,
      pop_entry-Granted c b st0 st out w (ground (arith, some_left)) (omega arith) l n,
    )
  ]

refill_first :
    (c : Cache) (fresh : Option ℕ) (left : ℕ) (st st' : State)
    → (ltb 0 st.avail) ≡ false
    → (st.free_objects == 0) ≡ false
    → refill_loop c st.batchcount st.batchcount st ≡ some (left, st')
    → cache_alloc c fresh st
      ≡ take_or_grow c fresh left (record st' { free_objects = st'.free_objects - st'.avail })
unfolding cache_alloc cache_alloc_refill
refill_first c fresh left st st' e f r = simp (e, f, r) refl

no_refill :
    (c : Cache) (fresh : Option ℕ) (st : State)
    → (ltb 0 st.avail) ≡ false
    → (st.free_objects == 0) ≡ true
    → cache_alloc c fresh st ≡ take_or_grow c fresh st.batchcount st
unfolding cache_alloc cache_alloc_refill
no_refill c fresh st e f = simp (e, f) refl

pop_first :
    (c : Cache) (fresh : Option ℕ) (st : State)
    → (ltb 0 st.avail) ≡ true
    → cache_alloc c fresh st ≡ some (some (pop_entry st).0, (pop_entry st).1)
unfolding cache_alloc
pop_first c fresh st e =
    ap
      (λ b.
        if b then some (some (pop_entry st).0, (pop_entry st).1) else cache_alloc_refill c fresh st)
      e

-- The settings of the stack: a batch fits, and what is on it as well.
pub record Tuned (st : State) : Type 0 where
  pub fits : st.avail ≤ st.limit
  pub wanted : 0 < st.batchcount
  pub batch : st.batchcount ≤ st.limit

-- With a block of pages at hand that is not a slab of the cache, an allocation from a well-formed
-- cache returns an object that nobody had, and leaves the cache well-formed with it given out, and
-- its stack within `limit`.
pub cache_alloc-Granted :
    (c : Cache) (page : ℕ) (st : State) (out : ℕ → ℕ)
    → Geometry c
    → WellFormed c st out
    → Tuned st
    → listed page st ≡ 0
    → Result c st.limit st (cache_alloc c (some page) st) out
cache_alloc-Granted c page st out g w t fresh = elim (Bool-cases (ltb 0 st.avail)) [
  | inl some_left ↦ (
    (pop_entry st).0,
    (pop_entry st).1,
    pop_first c (some page) st some_left,
    pop_entry-Granted c st.limit st st out w (ground (arith, some_left)) t.fits refl refl,
  )
  | inr empty ↦ elim (Bool-cases (st.free_objects == 0)) [
    | inl all_used ↦
        let (x, st', run, r) =
          take_or_grow-Granted c g page out st.batchcount st.batchcount st st w fresh
            (ground (arith, empty)) t.wanted refl refl in
        (
          x,
          st',
          no_refill c (some page) st empty all_used ∙ run,
          Granted-since c st.batchcount st.limit st st x st' out r t.batch refl refl,
        )
    | inr some_free ↦
        let (left, st1, run, r) =
          refill_loop-Refilled c g out st.batchcount st.batchcount st (omega arith) w in
        let st2 : State = record st1 { free_objects = st1.free_objects - st1.avail } in
        let w2 : WellFormed c st2 out =
          WellFormed-counters c g st1 out st1.free_slabs (st1.free_objects - st1.avail)
            st1.total_slabs r.after in
        let (x, st', run', r') =
          take_or_grow-Granted c g page out left st.batchcount st st2 w2
            (omega (arith, r.chains page, fresh)) (ground (arith, r.amount, empty)) t.wanted r.limit
            r.batchcount in
        (
          x,
          st',
          refill_first c (some page) left st st1 empty some_free run ∙ run',
          Granted-since c st.batchcount st.limit st st x st' out r' t.batch refl refl,
        )
  ]
]

-- A cache without slabs is well-formed with nothing given out.
pub kmem_cache_init-WellFormed :
    (c : Cache) (pages : ℕ → Slab) (limit batch : ℕ)
    → WellFormed c (kmem_cache_init pages limit batch) (λ x. 0)
unfolding kmem_cache_init
kmem_cache_init-WellFormed c pages limit batch = record {
  placed = record {
    slabs = λ q h. absurd (omega arith);
    once = λ q. omega arith;
    places = λ q i h. absurd (omega arith);
    owned = λ x h. absurd (omega arith);
  };
  filed = λ q. record {
    full = λ h. absurd (omega arith);
    partial = λ h. absurd (omega arith);
    free = λ h. absurd (omega arith);
  };
}
