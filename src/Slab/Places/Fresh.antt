-- ===== src/Slab/Places/Fresh.antt =====
-- slab/slab.c: a new slab.
use mathlib.Core.Path.{subst}
use xlinux.Common.{
  ℕ, zero, suc, ◌+◌, ◌-◌, ◌*◌, ◌%◌, ◌^◌, ◌≤◌, ◌<◌, ◌≡◌, inl, inr, Bool, ◌&&◌, leb, none, some, [],
  ltb, ◌==◌, if◌then◌else◌, arith, refl, ap, sym, ◌∙◌, Bool-cases,
}
use xlinux.Common.Counts.{count}
use xlinux.Common.Tables.{update, update_same, update_other}
use xlinux.Slab.{Cache, Slab, page_size, index_to_obj, set_free_obj, init_objs, cache_init_slab}
use xlinux.Slab.Places.{Geometry, window, free_indices, SlabOk}

init_objs-fields :
    (fl n : ℕ) (s : Slab)
    → ((init_objs fl n s).s_mem ≡ s.s_mem)
      × ((init_objs fl n s).active ≡ s.active)
      × ((init_objs fl n s).freelist ≡ s.freelist)
unfolding init_objs set_free_obj
init_objs-fields fl zero s = (refl, refl, refl)
init_objs-fields fl (suc n) s = init_objs-fields fl n s

init_objs-byte : (fl n i : ℕ) (s : Slab) → i < n → n ≤ 2 ^ 8 → (init_objs fl n s).bytes (fl + i) ≡ i
unfolding init_objs set_free_obj
init_objs-byte fl zero i s h bound = absurd (omega arith)
init_objs-byte fl (suc n) i s h bound = elim (Bool-cases (i == n)) [
  | inl last ↦
      let e : i ≡ n = ground arith in
      subst (λ j. update (init_objs fl n s).bytes (fl + n) (n % 2 ^ 8) (fl + j) ≡ j) (sym e)
        (update_same (init_objs fl n s).bytes (fl + n) (n % 2 ^ 8) ∙ omega arith)
  | inr before ↦
      update_other (init_objs fl n s).bytes (fl + n) (n % 2 ^ 8) (fl + i) (ground arith)
      ∙ init_objs-byte fl n i s (ground arith) (omega arith)
]

-- A window with ascending values has each of them once.
window_range :
    (f : ℕ → ℕ) (a k n i : ℕ)
    → ((j : ℕ) → j < n → f (a + j) ≡ k + j)
    → count i (window f a n) ≡ (if leb k i && ltb i (k + n) then 1 else 0)
window_range f a k zero i h = ground arith
window_range f a k (suc n) i h =
    let first : f a ≡ k = ap f (omega arith) ∙ h 0 (omega arith) ∙ omega arith in
    let rest =
      window_range f (suc a) (suc k) n i
        (λ j hj. ap f (omega arith) ∙ h (suc j) (omega arith) ∙ omega arith) in
    ground (arith, first, rest)

free_window :
    (c : Cache) (s : Slab) (fl : ℕ)
    → s.freelist ≡ some fl
    → free_indices c s ≡ window s.bytes (fl + s.active) (c.num - s.active)
free_window c s fl e =
    ap (λ o. elim o [ none ↦ [] | some fl ↦ window s.bytes (fl + s.active) (c.num - s.active) ]) e

abbrev spot : Cache → ℕ → Bool → ℕ
spot c page own =
    if own
    then page * page_size + c.size * (c.num - 1)
    else page * page_size + page_size * 2 ^ c.gfporder - c.freelist_size

abbrev freelist_of : Cache → ℕ → ℕ
freelist_of c page = spot c page c.objfreelist

-- All the objects of a new slab are free, once.
pub record New (c : Cache) (page : ℕ) (s : Slab) : Type 0 where
  pub ok : SlabOk c page s
  pub unused : s.active ≡ 0
  pub each : (i : ℕ) → i < c.num → count i (free_indices c s) ≡ 1

module _ (c : Cache) (g : Geometry c) (page : ℕ) (s : Slab) where
  pub cache_init_slab-New : New c page (cache_init_slab c page s)
  unfolding cache_init_slab index_to_obj
  cache_init_slab-New =
      let fl = freelist_of c page in
      let start : Slab = record s { s_mem = page * page_size; active = 0; freelist = some fl } in
      let s' = init_objs fl c.num start in
      let (mem, active, freelist) = init_objs-fields fl c.num start in
      let few = g.few in
      let byte : (i : ℕ) → i < c.num → s'.bytes (fl + i) ≡ i =
        λ i h. init_objs-byte fl c.num i start h (omega (arith, few)) in
      let frees : free_indices c s' ≡ window s'.bytes (fl + 0) c.num =
        free_window c s' fl freelist
        ∙ ap (λ a. window s'.bytes (fl + a) (c.num - a)) active
        ∙ ap (λ k. window s'.bytes (fl + 0) k) (omega arith) in
      let counted : (i : ℕ)
          → count i (free_indices c s') ≡ (if leb 0 i && ltb i (0 + c.num) then 1 else 0) =
        λ i.
          ap (count i) frees
          ∙ window_range s'.bytes (fl + 0) 0 c.num i
              (λ j h. ap s'.bytes (omega arith) ∙ byte j h ∙ omega arith) in
      let same : (f : ℕ) → s'.freelist ≡ some f → f ≡ fl = λ f e. some_once (sym e ∙ freelist) in
      record {
        ok = record {
          mem = mem;
          bound = omega (arith, active);
          range = λ i h. ground (arith, counted i, h);
          null = λ e. let z = none_some (sym e ∙ freelist) in absurd (omega (arith, z));
          inside = λ f e room own.
              let inhabited = g.inhabited in
              let at : f ≡ page * page_size + c.size * (c.num - 1) =
                same f e ∙ ap (spot c page) own in
              let last : s'.bytes (f + (c.num - 1)) ≡ c.num - 1 =
                ap (λ f. s'.bytes (f + (c.num - 1))) (same f e)
                ∙ byte (c.num - 1) (omega (arith, inhabited)) in
              at
              ∙ ap (λ m. m + c.size * (c.num - 1)) (sym mem)
              ∙ ap (λ j. s'.s_mem + c.size * j) (sym last);
          trailing = λ f e apart.
              same f e
              ∙ ap (spot c page) apart
              ∙ ap (λ m. m + page_size * 2 ^ c.gfporder - c.freelist_size) (sym mem);
        };
        unused = active;
        each = λ i h. ground (arith, counted i);
      }
    where
      some_once : {a b : ℕ} → some a ≡ some b → a ≡ b
      some_once {a} {b} e = ground (arith, e)

      none_some : {a : ℕ} → none ≡ some a → zero ≡ suc zero
      none_some {a} e = ground (arith, e)
