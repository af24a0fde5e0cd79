-- ===== src/Slab/Sizes/Fitting.antt =====
-- slab/slab.c: the geometry that `__kmem_cache_create` finds.
use xlinux.Common.{
  ℕ, ◌+◌, ◌*◌, ◌^◌, ◌≤◌, ◌<◌, ◌≡◌, ◌⊎◌, inl, inr, true, false, Option, none, some, ltb, ◌==◌, arith,
  refl, ap, ◌∙◌, Bool-cases,
}
use xlinux.Common.Buddies.{Aligned}
use xlinux.Slab.{Cache, page_size}
use xlinux.Slab.Sizes.{
  slab_order, cache_estimate, calculate_slab_order, set_objfreelist_slab_cache, set_on_slab_cache,
  with_geometry, object_room, kmem_cache_create,
}
use xlinux.Slab.Sizes.Rounding.{Roomy, object_room-Roomy}
use xlinux.Slab.Sizes.Orders.{pages, Order, calculate_slab_order-Order}
use xlinux.Slab.Places.{Geometry}

-- Objects are large enough and aligned, and they fit on the pages of a slab with their indices: in
-- an object, or behind the objects.
pub record Fitted (c : Cache) (object_size k : ℕ) : Type 0 where
  pub geometry : Geometry c
  pub above : object_size ≤ c.size
  pub aligned : Aligned k c.size
  pub objects : c.size * c.num ≤ page_size * 2 ^ c.gfporder
  pub inside : c.objfreelist ≡ true → c.freelist_size ≤ c.size
  pub behind : c.objfreelist ≡ false → c.size * c.num + c.freelist_size ≤ page_size * 2 ^ c.gfporder
  pub indices : c.freelist_size ≡ c.num

one_page :
    (size num g : ℕ)
    → size * num ≤ pages g
    → (num ≡ 1) ⊎ (g ≡ 0)
    → (num ≡ 1) ⊎ (size * num ≤ page_size)
one_page size num g fits (inl one) = inl one
one_page size num g fits (inr z) = let e : pages g ≡ 4096 = ap pages z in inr (omega (arith, e))

with_index : (size num : ℕ) → (size + 1) * num ≡ size * num + num
with_index size num = grind arith

less_room : (size num : ℕ) → size * num ≤ 4096 → 2 ≤ num → size ≤ 2048
less_room size num h two = grind arith

module _ (object_size k size : ℕ) (pos : 0 < object_size) (r : Roomy object_size k size) where
  inside-Fitted :
      (num g : ℕ)
      → Order size true num g
      → num ≤ object_size
      → Fitted (with_geometry size true (num, g)) object_size k
  inside-Fitted num g o fits = record {
    geometry = record {
      sized = omega (arith, r.least);
      inhabited = o.inhabited;
      few = o.few;
      one_page = one_page size num g o.fits o.one;
    };
    above = r.above;
    aligned = r.aligned;
    objects = o.fits;
    inside = λ own. omega (arith, r.above);
    behind = λ apart. absurd (ground (arith, apart));
    indices = refl;
  }

  behind-Fitted :
      (num g : ℕ)
      → Order size false num g
      → Fitted (with_geometry size false (num, g)) object_size k
  behind-Fitted num g o =
      let all : size * num + num ≤ pages g = omega (arith, o.fits, with_index size num) in
      record {
        geometry = record {
          sized = omega (arith, r.least);
          inhabited = o.inhabited;
          few = o.few;
          one_page = one_page size num g (omega (arith, all)) o.one;
        };
        above = r.above;
        aligned = r.aligned;
        objects = omega (arith, all);
        inside = λ own. absurd (ground (arith, own));
        behind = λ apart. all;
        indices = refl;
      }

abbrev created : ℕ → ℕ → Option Cache
created object_size size = elim (set_objfreelist_slab_cache object_size size) [
  | some shape ↦ some (with_geometry size true shape)
  | none ↦ elim (set_on_slab_cache size) [
    | some shape ↦ some (with_geometry size false shape)
    | none ↦ none
  ]
]

created-inside :
    (object_size size : ℕ) (shape : ℕ × ℕ)
    → set_objfreelist_slab_cache object_size size ≡ some shape
    → created object_size size ≡ some (with_geometry size true shape)
created-inside object_size size shape e = rw (e, created) refl

created-behind :
    (object_size size : ℕ) (shape : ℕ × ℕ)
    → set_objfreelist_slab_cache object_size size ≡ none
    → set_on_slab_cache size ≡ some shape
    → created object_size size ≡ some (with_geometry size false shape)
created-behind object_size size shape e e' = rw (e, e', created) refl

own-ok :
    (object_size size num g : ℕ)
    → calculate_slab_order size true ≡ some (num, g)
    → ltb object_size num ≡ false
    → set_objfreelist_slab_cache object_size size ≡ some (num, g)
unfolding set_objfreelist_slab_cache
own-ok object_size size num g e t = rw (e, set_objfreelist_slab_cache, t) refl

own-crowded :
    (object_size size num g : ℕ)
    → calculate_slab_order size true ≡ some (num, g)
    → ltb object_size num ≡ true
    → set_objfreelist_slab_cache object_size size ≡ none
unfolding set_objfreelist_slab_cache
own-crowded object_size size num g e t = rw (e, set_objfreelist_slab_cache, t) refl

own-none :
    (object_size size : ℕ)
    → calculate_slab_order size true ≡ none
    → set_objfreelist_slab_cache object_size size ≡ none
unfolding set_objfreelist_slab_cache
own-none object_size size e = rw (e, set_objfreelist_slab_cache) refl

sixteen : calculate_slab_order 16 true ≡ none
unfolding calculate_slab_order slab_order cache_estimate
sixteen = refl

module _ (object_size k size : ℕ) (pos : 0 < object_size) (r : Roomy object_size k size) where
  abbrev Created : Type 0
  Created = (c : Cache) × (created object_size size ≡ some c) × Fitted c object_size k

  behind-Created : set_objfreelist_slab_cache object_size size ≡ none → size < 2 ^ 22 → Created
  unfolding set_on_slab_cache
  behind-Created no_own small =
      let least = r.least in
      let (num, g, run, o) = calculate_slab_order-Order size false (omega arith) (omega arith) in
      (
        with_geometry size false (num, g),
        created-behind object_size size (num, g) no_own run,
        behind-Fitted object_size k size pos r num g o,
      )

  found-Created :
      (num g : ℕ) → calculate_slab_order size true ≡ some (num, g) → Order size true num g → Created
  found-Created num g run o = elim (Bool-cases (ltb object_size num)) [
    | inl crowded ↦
        let many : 2 ≤ num = ground (arith, crowded) in
        let first : g ≡ 0 = elim o.one [ inl one ↦ absurd (omega arith) | inr z ↦ z ] in
        let e : pages g ≡ 4096 = ap pages first in
        let small = less_room size num (omega (arith, o.fits, e)) many in
        behind-Created (own-crowded object_size size num g run crowded) (omega arith)
    | inr fits ↦ (
      with_geometry size true (num, g),
      created-inside object_size size (num, g) (own-ok object_size size num g run fits),
      inside-Fitted object_size k size pos r num g o (ground (arith, fits)),
    )
  ]

  pub created-Created : Created
  created-Created = elim (Bool-cases (size == 16)) [
    | inl least ↦
        let e : size ≡ 16 = ground (arith, least) in
        behind-Created
          (own-none object_size size (ap (λ size. calculate_slab_order size true) e ∙ sixteen))
          (omega arith)
    | inr more ↦
        let least = r.least in
        let bounded = r.bounded in
        let (num, g, run, o) =
          calculate_slab_order-Order size true (ground (arith, more, least)) (omega arith) in
        found-Created num g run o
  ]

-- For objects of 1 byte to 4 MB with an alignment of a power of two from 8 to 4 MB, a geometry is
-- found, and the objects and their indices fit in it.
pub kmem_cache_create-Fitted :
    (object_size k : ℕ)
    → 0 < object_size
    → object_size ≤ 2 ^ 22
    → 3 ≤ k
    → k ≤ 22
    → (c : Cache) × (kmem_cache_create object_size (2 ^ k) ≡ some c) × Fitted c object_size k
unfolding kmem_cache_create
kmem_cache_create-Fitted object_size k pos most low high =
    created-Created object_size k (object_room object_size (2 ^ k)) pos
      (object_room-Roomy k object_size low high most)
