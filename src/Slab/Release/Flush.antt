-- ===== src/Slab/Release/Flush.antt =====
-- slab/slab.c: the oldest entries of a full stack are freed, and `___cache_free`.
use mathlib.Core.Path.{subst}
use xlinux.Common.{
  ℕ, zero, suc, ◌+◌, ◌-◌, ◌≤◌, ◌<◌, ◌≡◌, inl, inr, true, leb, ltb, ◌==◌, if◌then◌else◌, arith, refl,
  ap, ◌∙◌, Bool-cases,
}
use xlinux.Common.Tables.{update}
use xlinux.Slab.{Cache, State, unlist}
use xlinux.Slab.Release.{
  virt_to_head_page, slab_put_obj, fixup_chain, free_object, free_loop, free_block,
  cache_flusharray, free_one, cache_free,
}
use xlinux.Slab.Release.Gives.{free_object-WellFormed}
use xlinux.Slab.Places.{Geometry, stacked, address}
use xlinux.Slab.Places.Takes.{one_if, stacked_push}
use xlinux.Slab.Places.Chains.{WellFormed}
use xlinux.Slab.Places.Pop.{given}
use xlinux.Slab.Places.Alloc.{Tuned}

-- The stack and the objects given out trade places.
restacked :
    (c : Cache) (st : State) (out out' : ℕ → ℕ) (k a : ℕ) (e : ℕ → ℕ)
    → WellFormed c st out
    → ((x : ℕ) → stacked x e a + out' x ≡ stacked x st.entry st.avail + out x)
    → WellFormed c (record st { free_objects = k; avail = a; entry = e }) out'
restacked c st out out' k a e w same =
    let p = w.placed in
    record {
      placed = record {
        slabs = p.slabs;
        once = p.once;
        places = λ q i h hi. omega (arith, p.places q i h hi, same (address c q i));
        owned = λ x h. p.owned x (omega (arith, same x, h));
      };
      filed =
          λ q. let f = w.filed q in record { full = f.full; partial = f.partial; free = f.free };
    }

-- `free_block` neither reads nor writes the stack.
fixup_chain-avail :
    (page a : ℕ) (st : State)
    → fixup_chain page (record st { avail = a }) ≡ record (fixup_chain page st) { avail = a }
unfolding fixup_chain
fixup_chain-avail page a st = elim (Bool-cases ((st.slab page).active == 0)) [
  | inl z ↦ simp z refl
  | inr n ↦ simp n refl
]

free_object-avail :
    (c : Cache) (x a : ℕ) (st : State)
    → free_object c x (record st { avail = a }) ≡ record (free_object c x st) { avail = a }
unfolding free_object unlist
free_object-avail c x a st =
    fixup_chain-avail (virt_to_head_page x) a (record (unlist (virt_to_head_page x) st) {
      slab =
          update st.slab (virt_to_head_page x) (slab_put_obj c x (st.slab (virt_to_head_page x)));
    })

-- The objects that the loop frees are given out no more.
free_loop-WellFormed :
    (c : Cache) (g : Geometry c) (f : ℕ → ℕ) (n : ℕ) (st : State) (out : ℕ → ℕ)
    → WellFormed c (record st { avail = 0 }) (λ x. stacked x f n + out x)
    → WellFormed c (record (free_loop c f n st) { avail = 0 }) out
unfolding free_loop
free_loop-WellFormed c g f zero st out w =
    restacked c (record st { avail = 0 }) _ out st.free_objects 0 st.entry w (λ x. omega arith)
free_loop-WellFormed c g f (suc n) st out w =
    let w' =
      restacked c (record st { avail = 0 }) _ (λ x. stacked x f n + given (f n) out x)
        st.free_objects 0 st.entry w (λ x. omega arith) in
    let before = free_loop-WellFormed c g f n st (given (f n) out) w' in
    subst (λ st. WellFormed c st out) (free_object-avail c (f n) 0 (free_loop c f n st))
      (free_object-WellFormed c g (f n) (record (free_loop c f n st) { avail = 0 }) out before)

-- What the loop leaves alone.
record Same (st st' : State) : Type 0 where
  avail : st'.avail ≡ st.avail
  entry : st'.entry ≡ st.entry
  limit : st'.limit ≡ st.limit
  batchcount : st'.batchcount ≡ st.batchcount

Same-trans : (a b d : State) → Same a b → Same b d → Same a d
Same-trans a b d s t = record {
  avail = t.avail ∙ s.avail;
  entry = t.entry ∙ s.entry;
  limit = t.limit ∙ s.limit;
  batchcount = t.batchcount ∙ s.batchcount;
}

fixup_chain-Same : (page : ℕ) (st : State) → Same st (fixup_chain page st)
unfolding fixup_chain
fixup_chain-Same page st = elim (Bool-cases ((st.slab page).active == 0)) [
  | inl z ↦ simp z (record { avail = refl; entry = refl; limit = refl; batchcount = refl })
  | inr n ↦ simp n (record { avail = refl; entry = refl; limit = refl; batchcount = refl })
]

free_loop-Same : (c : Cache) (f : ℕ → ℕ) (n : ℕ) (st : State) → Same st (free_loop c f n st)
unfolding free_loop free_object unlist
free_loop-Same c f zero st = record { avail = refl; entry = refl; limit = refl; batchcount = refl }
free_loop-Same c f (suc n) st =
    let before = free_loop c f n st in
    let page = virt_to_head_page (f n) in
    let mid : State = record (unlist page before) {
      slab = update before.slab page (slab_put_obj c (f n) (before.slab page));
    } in
    let last = fixup_chain-Same page mid in
    let moved : Same before mid = record {
      avail = refl;
      entry = refl;
      limit = refl;
      batchcount = refl;
    } in
    Same-trans st before _ (free_loop-Same c f n st) (Same-trans before mid _ moved last)

stacked_same :
    (x n : ℕ) (f h : ℕ → ℕ) → ((i : ℕ) → i < n → f i ≡ h i) → stacked x f n ≡ stacked x h n
stacked_same x zero f h same = refl
stacked_same x (suc n) f h same =
    let rest = stacked_same x n f h (λ i hi. same i (omega arith)) in
    omega (arith, rest, ap (λ (v : ℕ). one_if (x == v)) (same n (omega arith)))

stacked_split :
    (x b m : ℕ) (f : ℕ → ℕ) → stacked x f (b + m) ≡ stacked x f b + stacked x (λ i. f (b + i)) m
stacked_split x b zero f = let e : b + 0 ≡ b = omega arith in ap (stacked x f) e ∙ omega arith
stacked_split x b (suc m) f =
    let e : b + suc m ≡ suc (b + m) = omega arith in
    omega (arith, ap (stacked x f) e, stacked_split x b m f)

abbrev shifted : ℕ → ℕ → (ℕ → ℕ) → ℕ → ℕ
shifted left b f i = if ltb i left then f (b + i) else f i

stacked-shifted :
    (x left b : ℕ) (f : ℕ → ℕ)
    → stacked x f (b + left) ≡ stacked x f b + stacked x (shifted left b f) left
stacked-shifted x left b f =
    let rest =
      stacked_same x left (shifted left b f) (λ i. f (b + i))
        (λ i h.
          let low : ltb i left ≡ true = ground arith in
          ap (λ t. if t then f (b + i) else f i) low) in
    omega (arith, stacked_split x b left f, rest)

record Flushed (c : Cache) (st st' : State) (out : ℕ → ℕ) : Type 0 where
  after : WellFormed c st' out
  avail : st'.avail + st.batchcount ≡ st.avail
  limit : st'.limit ≡ st.limit
  batchcount : st'.batchcount ≡ st.batchcount

cache_flusharray-Flushed :
    (c : Cache) (g : Geometry c) (st : State) (out : ℕ → ℕ)
    → WellFormed c st out
    → st.batchcount ≤ st.avail
    → Flushed c st (cache_flusharray c st) out
unfolding cache_flusharray free_block
cache_flusharray-Flushed c g st out w enough =
    let b = st.batchcount in
    let left = st.avail - b in
    let st0 : State = record st { free_objects = st.free_objects + b } in
    let st1 = free_loop c st.entry b st0 in
    let same = free_loop-Same c st.entry b st0 in
    let rest : (x : ℕ)
        → stacked x st.entry st.avail
          ≡ stacked x st.entry b + stacked x (shifted left b st.entry) left =
      λ x. ap (stacked x st.entry) (omega (arith, enough)) ∙ stacked-shifted x left b st.entry in
    let all_out =
      restacked c st out
        (λ x. stacked x st.entry b + (stacked x (shifted left b st.entry) left + out x))
        (st.free_objects + b) 0 st.entry w (λ x. omega (arith, rest x)) in
    let freed = free_loop-WellFormed c g st.entry b st0 _ all_out in
    let left' : st1.avail - b ≡ left = ap (λ a. a - b) same.avail in
    record {
      after =
          restacked c (record st1 { avail = 0 }) _ out st1.free_objects (st1.avail - b)
            (shifted (st1.avail - b) b st1.entry) freed
            (λ x.
              ap (λ e. stacked x (shifted (st1.avail - b) b e) (st1.avail - b) + out x) same.entry
              ∙ ap (λ k. stacked x (shifted k b st.entry) k + out x) left'
              ∙ omega arith);
      avail = omega (arith, left', enough);
      limit = same.limit;
      batchcount = same.batchcount;
    }

free_one-WellFormed :
    (c : Cache) (x : ℕ) (st : State) (out : ℕ → ℕ)
    → WellFormed c st (given x out)
    → WellFormed c (free_one x st) out
unfolding free_one
free_one-WellFormed c x st out w =
    restacked c st (given x out) out st.free_objects (suc st.avail) (update st.entry st.avail x) w
      (λ y. omega (arith, stacked_push y x st.avail st.entry))

-- A cache in which the entries fit.
pub record Freed (c : Cache) (st st' : State) (out : ℕ → ℕ) : Type 0 where
  pub after : WellFormed c st' out
  pub tuned : Tuned st'
  pub limit : st'.limit ≡ st.limit

free_one-Freed :
    (c : Cache) (x : ℕ) (st0 st : State) (out : ℕ → ℕ)
    → WellFormed c st (given x out)
    → st.avail < st.limit
    → 0 < st.batchcount
    → st.batchcount ≤ st.limit
    → st.limit ≡ st0.limit
    → Freed c st0 (free_one x st) out
unfolding free_one
free_one-Freed c x st0 st out w room wanted batch limit = record {
  after = free_one-WellFormed c x st out w;
  tuned = record { fits = omega arith; wanted = wanted; batch = batch };
  limit = limit;
}

-- Freeing an object that was given out leaves the cache well-formed without it, and its stack
-- within `limit`: a full stack is flushed first.
pub cache_free-Freed :
    (c : Cache) (x : ℕ) (st : State) (out : ℕ → ℕ)
    → Geometry c
    → WellFormed c st (given x out)
    → Tuned st
    → Freed c st (cache_free c x st) out
unfolding cache_free
cache_free-Freed c x st out g w t = elim (Bool-cases (leb st.limit st.avail)) [
  | inl full ↦
      let batch = t.batch in
      let wanted = t.wanted in
      let fits = t.fits in
      let f = cache_flusharray-Flushed c g st (given x out) w (ground (arith, full, batch)) in
      simp full (
        free_one-Freed c x st (cache_flusharray c st) out f.after
          (omega (arith, f.avail, f.limit, wanted, batch, fits))
          (omega (arith, f.batchcount, wanted)) (omega (arith, f.batchcount, f.limit, batch))
          f.limit)
  | inr room ↦
      simp room (free_one-Freed c x st st out w (ground (arith, room)) t.wanted t.batch refl)
]
