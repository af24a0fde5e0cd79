-- ===== src/Slab/Places.antt =====
-- slab/slab.c: where the objects of a cache are: in a slab, on the stack of entries, or given out.
pub mod Takes
pub mod Blocks
pub mod Chains
pub mod Fixup
pub mod Refill
pub mod Fresh
pub mod Pop
pub mod Grow
pub mod Alloc
use xlinux.Common.{
  ℕ, zero, suc, ◌+◌, ◌-◌, ◌*◌, ◌/◌, ◌%◌, ◌^◌, ◌≤◌, ◌<◌, ◌≡◌, ◌≢◌, ◌⊎◌, inl, inr, Bool, true, false,
  Option, none, some, List, [], ◌∷◌, ltb, ◌==◌, if◌then◌else◌, arith, refl, ap, sym, ◌∙◌,
  Bool-cases,
}
use xlinux.Common.Counts.{count}
use xlinux.Slab.{Cache, Slab, State, page_size, index_to_obj}

-- What `__kmem_cache_create` makes sure of.
pub record Geometry (c : Cache) : Type 0 where
  pub sized : 0 < c.size
  pub inhabited : 0 < c.num
  pub few : c.num < 2 ^ 8
  pub one_page : (c.num ≡ 1) ⊎ (c.size * c.num ≤ page_size)

-- `n` values of a table, from an index on.
abbrev pub window : (ℕ → ℕ) → ℕ → ℕ → List ℕ
window f a zero = []
window f a (suc n) = f a ∷ window f (suc a) n

pub window_same :
    (f g : ℕ → ℕ) (a n : ℕ)
    → ((i : ℕ) → a ≤ i → i < a + n → f i ≡ g i)
    → window f a n ≡ window g a n
window_same f g a zero same = refl
window_same f g a (suc n) same =
    rw
      (
        same a (omega arith) (omega arith),
        window_same f g (suc a) n (λ i low high. same i (omega arith) (omega arith)),
      )
      refl

-- The indices of the free objects of a slab, the next one first.
abbrev pub free_indices : Cache → Slab → List ℕ
free_indices c s = elim s.freelist [
  | none ↦ []
  | some freelist ↦ window s.bytes (freelist + s.active) (c.num - s.active)
]

-- The array of free indices of an `OBJFREELIST` slab is the memory of the free object that is
-- taken last.
pub record SlabOk (c : Cache) (page : ℕ) (s : Slab) : Type 0 where
  pub mem : s.s_mem ≡ page * page_size
  pub bound : s.active ≤ c.num
  pub range : (idx : ℕ) → 0 < count idx (free_indices c s) → idx < c.num
  pub null : s.freelist ≡ none → (s.active ≡ c.num) × (c.objfreelist ≡ true)
  pub inside :
      (freelist : ℕ)
      → s.freelist ≡ some freelist
      → s.active < c.num
      → c.objfreelist ≡ true
      → freelist ≡ index_to_obj c s (s.bytes (freelist + (c.num - 1)))
  pub trailing :
      (freelist : ℕ)
      → s.freelist ≡ some freelist
      → c.objfreelist ≡ false
      → freelist ≡ s.s_mem + page_size * 2 ^ c.gfporder - c.freelist_size

-- How often an object is on the stack.
abbrev pub stacked : ℕ → (ℕ → ℕ) → ℕ → ℕ
stacked x entry zero = 0
stacked x entry (suc n) = (if x == entry n then 1 else 0) + stacked x entry n

abbrev pub listed : ℕ → State → ℕ
listed page st = count page st.slabs_partial + count page st.slabs_full + count page st.slabs_free

abbrev pub address : Cache → ℕ → ℕ → ℕ
address c page idx = page * page_size + c.size * idx

-- `on` counts the slabs of the cache, and `out` the objects that are given out. Every object of a
-- slab is at one place.
pub record Placed (c : Cache) (on : ℕ → ℕ) (st : State) (out : ℕ → ℕ) : Type 0 where
  pub slabs : (page : ℕ) → 0 < on page → SlabOk c page (st.slab page)
  pub once : (page : ℕ) → on page ≤ 1
  pub places :
      (page idx : ℕ)
      → 0 < on page
      → idx < c.num
      → count idx (free_indices c (st.slab page))
          + (stacked (address c page idx) st.entry st.avail + out (address c page idx))
        ≡ 1
  pub owned :
      (x : ℕ)
      → 0 < stacked x st.entry st.avail + out x
      → (page : ℕ) × (idx : ℕ) × (0 < on page) × (idx < c.num) × (x ≡ address c page idx)

-- What the list of a slab says of it.
pub record Filed (c : Cache) (st : State) (page : ℕ) : Type 0 where
  pub full :
      0 < count page st.slabs_full
      → ((st.slab page).active ≡ c.num) × (c.objfreelist ≡ true → (st.slab page).freelist ≡ none)
  pub partial :
      0 < count page st.slabs_partial
      → (0 < (st.slab page).active) × ((st.slab page).active < c.num)
  pub free : 0 < count page st.slabs_free → (st.slab page).active ≡ 0

-- Objects begin in the first page of their slab.
module _ (c : Cache) (g : Geometry c) where
  pub offset : (idx : ℕ) → idx < c.num → c.size * idx < page_size
  offset idx h = elim g.one_page [
    | inl one ↦ let z : idx ≡ 0 = omega (arith, one) in rw z (omega arith)
    | inr fits ↦ let s = g.sized in grind (arith, s, fits)
  ]

  pub index_of : (idx : ℕ) → c.size * idx / c.size ≡ idx
  index_of idx = let s = g.sized in grind (arith, s)

  pub page_of : (page idx : ℕ) → idx < c.num → address c page idx / page_size ≡ page
  page_of page idx h = let o = offset idx h in omega (arith, o)

  pub address_once :
      (p q i j : ℕ) → i < c.num → j < c.num → address c p i ≡ address c q j → (p ≡ q) × (i ≡ j)
  address_once p q i j hi hj e =
      let o = offset i hi in
      let o' = offset j hj in
      let same : p ≡ q = omega (arith, o, o', e) in
      let eq : c.size * i ≡ c.size * j = omega (arith, o, o', e) in
      (same, sym (index_of i) ∙ ap (λ (t : ℕ). t / c.size) eq ∙ index_of j)
