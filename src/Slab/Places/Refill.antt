-- ===== src/Slab/Places/Refill.antt =====
-- slab/slab.c: the loop of `cache_alloc_refill`.
use mathlib.Core.Path.{subst}
use xlinux.Common.{
  ℕ, zero, suc, ◌+◌, ◌-◌, ◌≤◌, ◌<◌, ◌≡◌, ◌≢◌, ◌⊎◌, inl, inr, none, some, List, [], ◌∷◌, arith, refl,
  ap, sym, ◌∙◌, lt→ltb,
}
use xlinux.Common.Counts.{count}
use xlinux.Slab.{
  Cache, State, first_slab, get_first_slab, alloc_block, alloc_loop, fixup_slab_list, refill_loop,
}
use xlinux.Slab.Places.{Geometry, listed, Filed}
use xlinux.Slab.Places.Blocks.{Frame, Moved, alloc_loop-Moved}
use xlinux.Slab.Places.Chains.{WellFormed, Placed-moved, Filed-other}
use xlinux.Slab.Places.Fixup.{fixup-WellFormed, fixup-listed, fixup_stack}

-- A slab that can give objects; only `free_slabs` changes.
record Offered (c : Cache) (st : State) (page : ℕ) (st1 : State) : Type 0 where
  here : 0 < listed page st
  room : (st.slab page).active < c.num
  rest : (k : ℕ) × (st1 ≡ record st { free_slabs = k })

module _ (c : Cache) (g : Geometry c) where
  offered :
      (st : State) (l f : List ℕ)
      → st.slabs_partial ≡ l
      → st.slabs_free ≡ f
      → ((page : ℕ) → Filed c st page)
      → (first_slab l f st ≡ none)
        ⊎ ((page : ℕ) × (st1 : State) × (first_slab l f st ≡ some (page, st1))
            × Offered c st page st1)
  unfolding first_slab
  offered st (page ∷ l) f e e' filed =
      let n : 0 < count page st.slabs_partial =
        subst (λ l. 0 < count page l) (sym e) (ground arith) in
      inr (
        page,
        st,
        refl,
        record {
          here = omega (arith, n);
          room = ((filed page).partial n).1;
          rest = (st.free_slabs, refl);
        },
      )
  offered st [] (page ∷ f) e e' filed =
      let n : 0 < count page st.slabs_free =
        subst (λ l. 0 < count page l) (sym e') (ground arith) in
      inr (
        page,
        record st { free_slabs = st.free_slabs - 1 },
        refl,
        record {
          here = omega (arith, n);
          room = omega (arith, g.inhabited, (filed page).free n);
          rest = (st.free_slabs - 1, refl);
        },
      )
  offered st [] [] e e' filed = inl refl

  pub WellFormed-counters :
      (st : State) (out : ℕ → ℕ) (k n t : ℕ)
      → WellFormed c st out
      → WellFormed c (record st { free_slabs = k; free_objects = n; total_slabs = t }) out
  WellFormed-counters st out k n t w = record {
    placed =
        Placed-moved c (λ q. listed q st) (λ q. listed q st) st _ out w.placed (λ q. refl)
          w.placed.slabs (λ q i h. refl) (λ x. refl);
    filed = λ q. let f = w.filed q in record { full = f.full; partial = f.partial; free = f.free };
  }

  pub alloc_block-loop :
      (page b : ℕ) (st : State)
      → (st.slab page).active < c.num
      → alloc_block c page b st ≡ alloc_loop c page b st
  unfolding alloc_block
  alloc_block-loop page b st room = rw (lt→ltb (st.slab page).active c.num room, alloc_block) refl

  pub Frame-Filed :
      (page : ℕ) (st st' : State)
      → Frame page st st'
      → (q : ℕ) → q ≢ page
      → Filed c st q
      → Filed c st' q
  Frame-Filed page st st' f q ne =
      Filed-other c page st st' _ _ _
        (record {
          here = (refl, refl, refl);
          others = λ q ne. (ap (count q) f.partial, ap (count q) f.full, ap (count q) f.free);
          kept = f.others;
        })
        q ne

  pub Moved-fixup :
      (on : ℕ → ℕ) (page b left : ℕ) (st st' : State) (out : ℕ → ℕ)
      → Moved c on page (suc b) left st st' out
      → on page ≡ 1
      → listed page st ≤ 1
      → ((q : ℕ) → q ≢ page → on q ≡ listed q st)
      → (st.slab page).active < c.num
      → ((q : ℕ) → q ≢ page → Filed c st q)
      → (left ≤ b)
        × WellFormed c (fixup_slab_list c page st') out
        × ((q : ℕ) → listed q (fixup_slab_list c page st') ≡ on q)
  Moved-fixup on page b left st st' out m one once onq room filed =
      let fewer : left ≤ b = elim m.stop [
        | inl z ↦ omega (arith, z)
        | inr all ↦ omega (arith, all, m.from, m.amount)
      ] in
      let used : 0 < (st'.slab page).active = omega (arith, m.from, m.amount, fewer) in
      let f = m.frame in
      let same : (q : ℕ) → listed q st' ≡ listed q st =
        λ q. omega (arith, ap (count q) f.partial, ap (count q) f.full, ap (count q) f.free) in
      (
        fewer,
        fixup-WellFormed c page st' on out m.placed one (omega (arith, same page, once))
            (λ q ne. omega (arith, same q, onq q ne))
            (λ q ne. Frame-Filed page st st' f q ne (filed q ne)) used,
        fixup-listed c page st' on out m.placed one (omega (arith, same page, once))
            (λ q ne. omega (arith, same q, onq q ne))
            (λ q ne. Frame-Filed page st st' f q ne (filed q ne)),
      )

refill_loop-next :
    (c : Cache) (fuel b page left : ℕ) (st st1 st2 : State)
    → get_first_slab st ≡ some (page, st1)
    → alloc_block c page (suc b) st1 ≡ some (left, st2)
    → refill_loop c (suc fuel) (suc b) st ≡ refill_loop c fuel left (fixup_slab_list c page st2)
unfolding refill_loop
refill_loop-next c fuel b page left st st1 st2 e e' = rw (e, e', refill_loop) refl

refill_loop-end :
    (c : Cache) (fuel b : ℕ) (st : State)
    → get_first_slab st ≡ none
    → refill_loop c (suc fuel) (suc b) st ≡ some (suc b, st)
unfolding refill_loop
refill_loop-end c fuel b st e = rw (e, refill_loop) refl

-- A batch of `b` objects went to the stack, less `left` that no slab had.
pub record Refilled (c : Cache) (b left : ℕ) (st st' : State) (out : ℕ → ℕ) : Type 0 where
  pub after : WellFormed c st' out
  pub chains : (q : ℕ) → listed q st' ≡ listed q st
  pub amount : st'.avail + left ≡ st.avail + b
  pub limit : st'.limit ≡ st.limit
  pub batchcount : st'.batchcount ≡ st.batchcount

module _ (c : Cache) (g : Geometry c) (out : ℕ → ℕ) where
  refill_round :
      (b page : ℕ) (st : State)
      → WellFormed c st out
      → 0 < listed page st
      → (st.slab page).active < c.num
      → (left : ℕ) × (st2 : State) × (alloc_block c page (suc b) st ≡ some (left, st2))
        × (left ≤ b)
        × Refilled c (suc b) left st (fixup_slab_list c page st2) out
  refill_round b page st w here room =
      let (left, st2, run, m) =
        alloc_loop-Moved c g (λ q. listed q st) page out (suc b) st w.placed here in
      let once = w.placed.once page in
      let one : listed page st ≡ 1 = omega (arith, once, here) in
      let (fewer, after, chains) =
        Moved-fixup c g (λ q. listed q st) page b left st st2 out m one once (λ q ne. refl) room
          (λ q ne. w.filed q) in
      let same = fixup_stack c page st2 in
      (
        left,
        st2,
        alloc_block-loop c g page (suc b) st room ∙ run,
        fewer,
        record {
          after = after;
          chains = chains;
          amount = omega (arith, same.0, m.amount);
          limit = same.1 ∙ m.frame.limit;
          batchcount = same.2 ∙ m.frame.batchcount;
        },
      )

  pub refill_loop-Refilled :
      (fuel b : ℕ) (st : State)
      → b ≤ fuel
      → WellFormed c st out
      → (left : ℕ) × (st' : State) × (refill_loop c fuel b st ≡ some (left, st'))
        × Refilled c b left st st' out
  unfolding refill_loop get_first_slab
  refill_loop-Refilled fuel zero st h w = (
    0,
    st,
    refl,
    record { after = w; chains = λ q. refl; amount = refl; limit = refl; batchcount = refl },
  )
  refill_loop-Refilled zero (suc b) st h w = absurd (omega arith)
  refill_loop-Refilled (suc fuel) (suc b) st h w =
      elim (offered c g st st.slabs_partial st.slabs_free refl refl w.filed) [
        | inl e ↦ (
          suc b,
          st,
          refill_loop-end c fuel b st e,
          record { after = w; chains = λ q. refl; amount = refl; limit = refl; batchcount = refl },
        )
        | inr (page, st1, e, o) ↦
            let (k, is) = o.rest in
            let st0 : State = record st { free_slabs = k } in
            let w0 : WellFormed c st0 out =
              WellFormed-counters c g st out k st.free_objects st.total_slabs w in
            let (left, st2, run, fewer, r) = refill_round b page st0 w0 o.here o.room in
            let (left', st', run', r') =
              refill_loop-Refilled fuel left (fixup_slab_list c page st2) (omega (arith, fewer))
                r.after in
            (
              left',
              st',
              refill_loop-next c fuel b page left st st1 st2 e
                    (ap (alloc_block c page (suc b)) is ∙ run)
                  ∙ run',
              record {
                after = r'.after;
                chains = λ q. r'.chains q ∙ r.chains q;
                amount = omega (arith, r.amount, r'.amount);
                limit = r'.limit ∙ r.limit;
                batchcount = r'.batchcount ∙ r.batchcount;
              },
            )
      ]
