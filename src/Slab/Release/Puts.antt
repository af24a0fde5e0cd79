-- ===== src/Slab/Release/Puts.antt =====
-- slab/slab.c: an object goes back to its slab, `slab_put_obj`.
use xlinux.Common.{
  ℕ, zero, suc, ◌+◌, ◌-◌, ◌*◌, ◌/◌, ◌%◌, ◌^◌, ◌<◌, ◌≡◌, inl, inr, true, Option, none, some, [], ◌∷◌,
  ◌==◌, arith, refl, ap, sym, ◌∙◌, Bool-cases,
}
use xlinux.Common.Counts.{count}
use xlinux.Common.Tables.{update, update_same, update_other}
use xlinux.Slab.{Cache, Slab, page_size, index_to_obj, set_free_obj}
use xlinux.Slab.Release.{obj_to_index, put_on, slab_put_obj}
use xlinux.Slab.Places.{Geometry, window, window_same, free_indices, SlabOk, address, index_of}
use xlinux.Slab.Places.Takes.{one_if}

abbrev slab_of : ℕ → ℕ → Option ℕ → (ℕ → ℕ) → Slab
slab_of mem active freelist bytes = record {
  s_mem = mem;
  active = active;
  freelist = freelist;
  bytes = bytes;
}

some_once : {a b : ℕ} → some a ≡ some b → a ≡ b
some_once {a} {b} e = ground (arith, e)

some-none : {a : ℕ} → some a ≡ none → zero ≡ suc zero
some-none {a} e = ground (arith, e)

-- The object is the next free one.
pub record Put (c : Cache) (page idx : ℕ) (s s' : Slab) : Type 0 where
  pub unused : suc s'.active ≡ s.active
  pub rest : free_indices c s' ≡ idx ∷ free_indices c s
  pub kept : SlabOk c page s'

module _ (c : Cache) (g : Geometry c) (page : ℕ) where
  index_back :
      (s : Slab) (idx : ℕ)
      → s.s_mem ≡ page * page_size
      → obj_to_index c s (address c page idx) ≡ idx
  unfolding obj_to_index
  index_back s idx e = ap (λ (t : ℕ). t / c.size) (omega (arith, e)) ∙ index_of c g idx

  put :
      (mem active idx : ℕ) (o : Option ℕ) (bytes : ℕ → ℕ)
      → SlabOk c page (slab_of mem (suc active) o bytes)
      → idx < c.num
      → (suc active ≡ c.num → c.objfreelist ≡ true → o ≡ none)
      → Put c page idx
          (slab_of mem (suc active) o bytes)
          (put_on c o (address c page idx) (slab_of mem (suc active) o bytes))
  unfolding put_on set_free_obj index_to_obj
  put mem active idx (some fl) bytes ok below dropped =
      let s = slab_of mem (suc active) (some fl) bytes in
      let x = address c page idx in
      let few = g.few in
      let v = obj_to_index c s x % 2 ^ 8 in
      let back = index_back s idx ok.mem in
      let value : v ≡ idx =
        ap (λ (t : ℕ). t % 2 ^ 8) (index_back s idx ok.mem) ∙ omega (arith, few) in
      let pre : suc active - 1 ≡ active = omega arith in
      let at = fl + (suc active - 1) in
      let s' : Slab = slab_of mem (suc active - 1) (some fl) (update bytes at v) in
      let bound = ok.bound in
      let whole : c.num - (suc active - 1) ≡ suc (c.num - suc active) = omega arith in
      let next : suc at ≡ fl + suc active = omega arith in
      let rest : window (update bytes at v) at (c.num - (suc active - 1))
          ≡ idx ∷ window bytes (fl + suc active) (c.num - suc active) =
        ap (window (update bytes at v) at) whole
        ∙ ap (λ i. i ∷ window (update bytes at v) (suc at) (c.num - suc active))
            (update_same bytes at v ∙ value)
        ∙ ap (λ a. idx ∷ window (update bytes at v) a (c.num - suc active)) next
        ∙ ap (λ l. idx ∷ l)
            (window_same (update bytes at v) bytes (fl + suc active) (c.num - suc active)
              (λ i low high. update_other bytes at v i (omega arith))) in
      record {
        unused = omega arith;
        rest = rest;
        kept = record {
          mem = ok.mem;
          bound = omega arith;
          range = λ i h. elim (Bool-cases (i == idx)) [
            | inl same ↦ ground (arith, same)
            | inr other ↦
                ok.range i
                  (let n = ap (count i) rest in let z = ap one_if other in omega (arith, n, z, h))
          ];
          null = λ e. let z = some-none e in absurd (omega (arith, z));
          inside = λ f e room own. elim (Bool-cases (suc active == c.num)) [
            | inl all ↦
                let z = some-none (dropped (ground (arith, all)) own) in absurd (omega (arith, z))
            | inr more ↦
                let same : f ≡ fl = some_once (sym e) in
                ok.inside f e (ground (arith, more)) own
                ∙ ap (index_to_obj c s)
                    (sym (update_other bytes at v (f + (c.num - 1)) (ground (arith, more, same))))
          ];
          trailing = ok.trailing;
        };
      }
  put mem active idx none bytes ok below dropped =
      let s = slab_of mem (suc active) none bytes in
      let x = address c page idx in
      let few = g.few in
      let v = obj_to_index c s x % 2 ^ 8 in
      let back = index_back s idx ok.mem in
      let value : v ≡ idx = ap (λ (t : ℕ). t % 2 ^ 8) back ∙ omega (arith, few) in
      let (all, own) = ok.null refl in
      let at = x + (suc active - 1) in
      let last_one : c.num - (suc active - 1) ≡ 1 = omega (arith, all) in
      let rest : window (update bytes at v) at (c.num - (suc active - 1)) ≡ idx ∷ [] =
        ap (window (update bytes at v) at) last_one
        ∙ ap (λ i. i ∷ []) (update_same bytes at v ∙ value) in
      record {
        unused = omega arith;
        rest = rest;
        kept = record {
          mem = ok.mem;
          bound = omega (arith, all);
          range = λ i h. let n = ap (count i) rest in ground (arith, n, h);
          null = λ e. let z = some-none e in absurd (omega (arith, z));
          inside = λ f e room own.
              let same : f ≡ x = some_once (sym e) in
              let last : f + (c.num - 1) ≡ at = omega (arith, same, all) in
              let read : update bytes at v (f + (c.num - 1)) ≡ idx =
                ap (update bytes at v) last ∙ update_same bytes at v ∙ value in
              same
              ∙ ap (λ (m : ℕ). m + c.size * idx) (sym ok.mem)
              ∙ ap (index_to_obj c s) (sym read);
          trailing = λ f e apart. let z = ap one_if (sym own ∙ apart) in absurd (omega (arith, z));
        };
      }

-- At an object that is not free, in a slab with a used object.
pub slab_put_obj-Put :
    (c : Cache) (g : Geometry c) (page idx : ℕ) (s : Slab)
    → SlabOk c page s
    → idx < c.num
    → 0 < s.active
    → (s.active ≡ c.num → c.objfreelist ≡ true → s.freelist ≡ none)
    → Put c page idx s (slab_put_obj c (address c page idx) s)
unfolding slab_put_obj
slab_put_obj-Put c g page idx s ok below used dropped = go s.active ok used dropped
  where
    go :
        (a : ℕ)
        → SlabOk c page (slab_of s.s_mem a s.freelist s.bytes)
        → 0 < a
        → (a ≡ c.num → c.objfreelist ≡ true → s.freelist ≡ none)
        → Put c page idx
            (slab_of s.s_mem a s.freelist s.bytes)
            (put_on c s.freelist (address c page idx) (slab_of s.s_mem a s.freelist s.bytes))
    go zero ok h d = absurd (omega arith)
    go (suc a) ok h d = put c g page s.s_mem a idx s.freelist s.bytes ok below d
