-- ===== src/Slab/Places/Blocks.antt =====
-- slab/slab.c: blocks of objects for the stack of entries, `alloc_block`.
use xlinux.Common.{
  ℕ, zero, suc, ◌+◌, ◌≤◌, ◌<◌, ◌≡◌, ◌≢◌, ◌⊎◌, inl, inr, true, false, some, ltb, arith, refl, ap,
  ◌∙◌, Bool-cases,
}
use xlinux.Common.Tables.{update_same, update_other}
use xlinux.Slab.{Cache, State, fill_entry, alloc_loop}
use xlinux.Slab.Places.{Geometry, Placed}
use xlinux.Slab.Places.Takes.{filled, filled-Placed, fill_entry-filled, next_free}

-- Only a slab and the stack change.
pub record Frame (page : ℕ) (st st' : State) : Type 0 where
  pub partial : st'.slabs_partial ≡ st.slabs_partial
  pub full : st'.slabs_full ≡ st.slabs_full
  pub free : st'.slabs_free ≡ st.slabs_free
  pub total : st'.total_slabs ≡ st.total_slabs
  pub free_slabs : st'.free_slabs ≡ st.free_slabs
  pub free_objects : st'.free_objects ≡ st.free_objects
  pub limit : st'.limit ≡ st.limit
  pub batchcount : st'.batchcount ≡ st.batchcount
  pub others : (q : ℕ) → q ≢ page → st'.slab q ≡ st.slab q

-- A block of at most `b` objects left the slab, and `left` of them were not there.
pub record Moved (c : Cache) (on : ℕ → ℕ) (page b left : ℕ) (st st' : State) (out : ℕ → ℕ)
    : Type 0 where
  pub frame : Frame page st st'
  pub placed : Placed c on st' out
  pub amount : st'.avail + left ≡ st.avail + b
  pub from : (st'.slab page).active + st.avail ≡ (st.slab page).active + st'.avail
  pub bound : (st'.slab page).active ≤ c.num
  pub stop : (left ≡ 0) ⊎ ((st'.slab page).active ≡ c.num)
  pub more : st.avail ≤ st'.avail

alloc_loop-next :
    (c : Cache) (page b : ℕ) (st st1 : State)
    → ltb (st.slab page).active c.num ≡ true
    → fill_entry c page st ≡ some st1
    → alloc_loop c page (suc b) st ≡ alloc_loop c page b st1
unfolding alloc_loop
alloc_loop-next c page b st st1 room e = rw (room, e, alloc_loop) refl

alloc_loop-stop :
    (c : Cache) (page b : ℕ) (st : State)
    → ltb (st.slab page).active c.num ≡ false
    → alloc_loop c page (suc b) st ≡ some (suc b, st)
unfolding alloc_loop
alloc_loop-stop c page b st full = rw (full, alloc_loop) refl

module _ (c : Cache) (g : Geometry c) (on : ℕ → ℕ) (page : ℕ) (out : ℕ → ℕ) where
  stay :
      (b : ℕ) (st : State)
      → Placed c on st out
      → (st.slab page).active ≤ c.num
      → (b ≡ 0) ⊎ ((st.slab page).active ≡ c.num)
      → Moved c on page b b st st out
  stay b st p bound stop = record {
    frame = record {
      partial = refl;
      full = refl;
      free = refl;
      total = refl;
      free_slabs = refl;
      free_objects = refl;
      limit = refl;
      batchcount = refl;
      others = λ q ne. refl;
    };
    placed = p;
    amount = refl;
    from = refl;
    bound = bound;
    stop = stop;
    more = omega arith;
  }

  go_on :
      (b left idx : ℕ) (st st' : State)
      → Moved c on page b left (filled c page idx st) st' out
      → Moved c on page (suc b) left st st' out
  go_on b left idx st st' m =
      let f = m.frame in
      let s =
        update_same st.slab page (record (st.slab page) { active = suc (st.slab page).active }) in
      let a : ((filled c page idx st).slab page).active ≡ suc (st.slab page).active =
        ap (λ s. s.active) s in
      record {
        frame = record {
          partial = f.partial;
          full = f.full;
          free = f.free;
          total = f.total;
          free_slabs = f.free_slabs;
          free_objects = f.free_objects;
          limit = f.limit;
          batchcount = f.batchcount;
          others = λ q ne. f.others q ne ∙ update_other st.slab page _ q ne;
        };
        placed = m.placed;
        amount = omega (arith, m.amount);
        from = omega (arith, m.from, a);
        bound = m.bound;
        stop = m.stop;
        more = omega (arith, m.more);
      }

  pub alloc_loop-Moved :
      (b : ℕ) (st : State)
      → Placed c on st out
      → 0 < on page
      → (left : ℕ) × (st' : State) × (alloc_loop c page b st ≡ some (left, st'))
        × Moved c on page b left st st' out
  unfolding alloc_loop
  alloc_loop-Moved zero st p here =
      (0, st, refl, stay 0 st p ((p.slabs page here).bound) (inl refl))
  alloc_loop-Moved (suc b) st p here = elim (Bool-cases (ltb (st.slab page).active c.num)) [
    | inl room ↦
        let (idx, t) = next_free c page (st.slab page) (p.slabs page here) (ground arith) in
        let (left, st', run, m) =
          alloc_loop-Moved b (filled c page idx st) (filled-Placed c g page on st out p here idx t)
            here in
        (
          left,
          st',
          alloc_loop-next c page b st _ room (fill_entry-filled c page idx st t) ∙ run,
          go_on b left idx st st' m,
        )
    | inr full ↦
        let bound = (p.slabs page here).bound in
        (
          suc b,
          st,
          alloc_loop-stop c page b st full,
          stay (suc b) st p bound (inr (ground (arith, bound))),
        )
  ]
