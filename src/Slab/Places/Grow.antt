-- ===== src/Slab/Places/Grow.antt =====
-- slab/slab.c: a new slab joins the cache, `direct_grow` of `cache_alloc_refill`.
use mathlib.Core.Path.{subst}
use xlinux.Common.{
  ℕ, suc, ◌+◌, ◌-◌, ◌≤◌, ◌<◌, ◌≡◌, ◌≢◌, inl, inr, false, some, [], ◌∷◌, ◌++◌, ◌==◌, if◌then◌else◌,
  arith, refl, ap, sym, ◌∙◌, Bool-cases,
}
use xlinux.Common.Counts.{count}
use xlinux.Common.Tables.{update, update_same, update_other}
use xlinux.Slab.{
  Cache, State, alloc_block, cache_init_slab, cache_grow_begin, cache_grow_end, fixup_slab_list,
  pop_entry, direct_grow,
}
use xlinux.Slab.Places.{
  Geometry, free_indices, SlabOk, stacked, listed, address, Placed, Filed, address_once,
}
use xlinux.Slab.Places.Blocks.{Moved, alloc_loop-Moved}
use xlinux.Slab.Places.Chains.{WellFormed, Placed-moved, Filed-other}
use xlinux.Slab.Places.Fixup.{fixup-WellFormed, fixup_stack}
use xlinux.Slab.Places.Fresh.{cache_init_slab-New}
use xlinux.Slab.Places.Refill.{WellFormed-counters, alloc_block-loop, Frame-Filed}
use xlinux.Slab.Places.Pop.{Granted, pop_entry-Granted}

cache_grow_end-used :
    (c : Cache) (page : ℕ) (st : State)
    → ((st.slab page).active == 0) ≡ false
    → (free : ℕ) × (cache_grow_end c page st
        ≡ record (fixup_slab_list c page (record st { total_slabs = suc st.total_slabs })) {
          free_objects = free;
        })
unfolding cache_grow_end
cache_grow_end-used c page st e =
    let more = record st { total_slabs = suc st.total_slabs } in
    let done = fixup_slab_list c page more in
    (
      done.free_objects + (c.num - (st.slab page).active),
      ap
          (λ b.
            let placed =
              if b
              then record more {
                slabs_free = more.slabs_free ++ (page ∷ []);
                free_slabs = suc more.free_slabs;
              }
              else done in
            record placed { free_objects = placed.free_objects + (c.num - (st.slab page).active) })
          e,
    )

direct_grow-next :
    (c : Cache) (page b left : ℕ) (st st2 : State)
    → alloc_block c page b
        (record st { slab = update st.slab page (cache_init_slab c page (st.slab page)) })
      ≡ some (left, st2)
    → ((cache_grow_end c page st2).avail == 0) ≡ false
    → direct_grow c (some page) b st
      ≡ some (
        some (pop_entry (cache_grow_end c page st2)).0,
        (pop_entry (cache_grow_end c page st2)).1,
      )
unfolding direct_grow cache_grow_begin
direct_grow-next c page b left st st2 e e' = rw (e, direct_grow, e') refl

module _ (c : Cache) (g : Geometry c) (page : ℕ) (st : State) (out : ℕ → ℕ)
    (w : WellFormed c st out) (fresh : listed page st ≡ 0) where
  abbrev on : ℕ → ℕ
  on = update (λ q. listed q st) page 1

  abbrev grown : State
  grown = record st { slab = update st.slab page (cache_init_slab c page (st.slab page)) }

  same_on : on page ≡ 1
  same_on = update_same (λ q. listed q st) page 1

  other_on : (q : ℕ) → q ≢ page → on q ≡ listed q st
  other_on q = update_other (λ q. listed q st) page 1 q

  nobody :
      (i : ℕ)
      → i < c.num
      → stacked (address c page i) st.entry st.avail + out (address c page i) ≡ 0
  nobody i hi =
      elim (Bool-cases
        (stacked (address c page i) st.entry st.avail + out (address c page i) == 0)) [
          | inl none_had ↦ ground (arith, none_had)
          | inr had ↦
              let (q, j, h, hj, e) = w.placed.owned (address c page i) (ground (arith, had)) in
              let same = (address_once c g page q i j hi hj e).0 in
              let h' = subst (λ q. 0 < listed q st) (sym same) h in
              absurd (omega (arith, h', fresh))
        ]

  grown-Placed : Placed c on grown out
  grown-Placed =
      let new = cache_init_slab-New c g page (st.slab page) in
      let p = w.placed in
      let there = update_same st.slab page (cache_init_slab c page (st.slab page)) in
      let others : (q : ℕ) → q ≢ page → grown.slab q ≡ st.slab q =
        λ q. update_other st.slab page _ q in
      record {
        slabs = λ q h. elim (Bool-cases (q == page)) [
          | inl same ↦
              let e : q ≡ page = ground arith in
              subst (λ r. SlabOk c r (grown.slab r)) (sym e)
                (subst (SlabOk c page) (sym there) new.ok)
          | inr other ↦
              let ne : q ≢ page = ground arith in
              subst (SlabOk c q) (sym (others q ne)) (p.slabs q (omega (arith, h, other_on q ne)))
        ];
        once = λ q. elim (Bool-cases (q == page)) [
          | inl same ↦
              let e : q ≡ page = ground arith in
              subst (λ r. on r ≤ 1) (sym e) (omega (arith, same_on))
          | inr other ↦ omega (arith, other_on q (ground arith), p.once q)
        ];
        places = λ q i h hi. elim (Bool-cases (q == page)) [
          | inl same ↦
              let e : q ≡ page = ground arith in
              subst
                (λ r.
                  count i (free_indices c (grown.slab r))
                    + (stacked (address c r i) st.entry st.avail + out (address c r i))
                  ≡ 1)
                (sym e)
                (omega
                  (arith, ap (λ s. count i (free_indices c s)) there, new.each i hi, nobody i hi))
          | inr other ↦
              let ne : q ≢ page = ground arith in
              omega (
                arith,
                ap (λ s. count i (free_indices c s)) (others q ne),
                p.places q i (omega (arith, h, other_on q ne)) hi,
              )
        ];
        owned = λ x h.
            let (q, i, on_list, hi, e) = p.owned x h in
            let ne : q ≢ page = λ e.
              let z = subst (λ q. 0 < listed q st) e on_list in absurd (omega (arith, z, fresh)) in
            (q, i, omega (arith, on_list, other_on q ne), hi, e);
      }

  Filed-same : (q : ℕ) → q ≢ page → Filed c st q → Filed c grown q
  Filed-same q ne f =
      Filed-other c page st grown _ _ _
        (record {
          here = (refl, refl, refl);
          others = λ q ne. (refl, refl, refl);
          kept = λ q ne. update_other st.slab page _ q ne;
        })
        q ne f

  -- After a block of the new slab, `cache_grow_end`.
  module _ (b left : ℕ) (st2 : State) (m : Moved c on page (suc b) left grown st2 out) where
    abbrev more : State
    more = record st2 { total_slabs = suc st2.total_slabs }

    room : (grown.slab page).active < c.num
    room =
        let new = cache_init_slab-New c g page (st.slab page) in
        let unused =
          ap (λ s. s.active) (update_same st.slab page (cache_init_slab c page (st.slab page))) in
        omega (arith, unused, new.unused, g.inhabited)

    fewer : left ≤ b
    fewer = elim m.stop [
      | inl z ↦ omega (arith, z)
      | inr all ↦ omega (arith, all, room, m.from, m.amount)
    ]

    used : 0 < (st2.slab page).active
    used = omega (arith, m.from, m.amount, fewer)

    same : (q : ℕ) → listed q more ≡ listed q st
    same q =
        let f = m.frame in
        omega (arith, ap (count q) f.partial, ap (count q) f.full, ap (count q) f.free)

    filed : (q : ℕ) → q ≢ page → Filed c more q
    filed q ne =
        let f = Frame-Filed c g page grown st2 m.frame q ne (Filed-same q ne (w.filed q)) in
        record { full = f.full; partial = f.partial; free = f.free }

    fixed-WellFormed : WellFormed c (fixup_slab_list c page more) out
    fixed-WellFormed =
        fixup-WellFormed c page more on out
          (Placed-moved c on on st2 more out m.placed (λ q. refl) m.placed.slabs (λ q i h. refl)
            (λ x. refl))
          same_on (omega (arith, same page, fresh)) (λ q ne. omega (arith, same q, other_on q ne))
          filed used

    abbrev final : State
    final = cache_grow_end c page st2

    record Final : Type 0 where
      ok : WellFormed c final out
      stack : final.avail ≡ st2.avail
      limit : final.limit ≡ st.limit
      batchcount : final.batchcount ≡ st.batchcount

    final-Final : Final
    final-Final =
        let (n, is) = cache_grow_end-used c page st2 (ground (arith, used)) in
        let fixed = fixup_slab_list c page more in
        let stack = fixup_stack c page more in
        record {
          ok =
              subst (λ st. WellFormed c st out) (sym is)
                (WellFormed-counters c g fixed out fixed.free_slabs n fixed.total_slabs
                  fixed-WellFormed);
          stack = ap (λ st. st.avail) is ∙ stack.0;
          limit = ap (λ st. st.limit) is ∙ stack.1 ∙ m.frame.limit;
          batchcount = ap (λ st. st.batchcount) is ∙ stack.2 ∙ m.frame.batchcount;
        }

    grow_end-Granted :
        alloc_block c page (suc b) grown ≡ some (left, st2)
        → st.avail ≡ 0
        → (x : ℕ) × (st' : State) × (direct_grow c (some page) (suc b) st ≡ some (some x, st'))
          × Granted c (suc b) st x st' out
    grow_end-Granted run empty =
        let f = final-Final in
        let some_left : 0 < final.avail = omega (arith, f.stack, m.amount, fewer) in
        (
          (pop_entry final).0,
          (pop_entry final).1,
          direct_grow-next c page (suc b) left st st2 run (ground (arith, some_left)),
          pop_entry-Granted c (suc b) st final out f.ok some_left
              (omega (arith, f.stack, m.amount, empty)) f.limit f.batchcount,
        )

  pub direct_grow-Granted :
      (b : ℕ)
      → st.avail ≡ 0
      → (x : ℕ) × (st' : State) × (direct_grow c (some page) (suc b) st ≡ some (some x, st'))
        × Granted c (suc b) st x st' out
  direct_grow-Granted b empty =
      let (left, st2, run, m) =
        alloc_loop-Moved c g on page out (suc b) grown grown-Placed (omega (arith, same_on)) in
      grow_end-Granted b left st2 m
        (alloc_block-loop c g page (suc b) grown (room b left st2 m) ∙ run) empty
