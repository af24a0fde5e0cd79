-- ===== src/Slab/Release/Gives.antt =====
-- slab/slab.c: an object that was given out is freed, the body of `free_block`.
use mathlib.Core.Path.{subst}
use xlinux.Common.{
  ℕ, suc, ◌+◌, ◌≤◌, ◌<◌, ◌≡◌, ◌≢◌, inl, inr, Bool, true, false, [], ◌∷◌, ◌++◌, ltb, ◌==◌,
  if◌then◌else◌, arith, refl, ap, sym, ◌∙◌, Bool-cases,
}
use xlinux.Common.Counts.{count, count-append}
use xlinux.Common.Tables.{update, update_same, update_other}
use xlinux.Slab.{Cache, Slab, State, unlist}
use xlinux.Slab.Release.{slab_put_obj, fixup_chain, free_object}
use xlinux.Slab.Release.Puts.{Put, slab_put_obj-Put}
use xlinux.Slab.Release.Used.{gap-used}
use xlinux.Slab.Places.{
  Geometry, free_indices, SlabOk, stacked, listed, address, Placed, Filed, page_of,
}
use xlinux.Slab.Places.Takes.{one_if, same_test, other_test}
use xlinux.Slab.Places.Chains.{
  WellFormed, unlist_here, unlist_other, Chained, Chained-WellFormed, Filed-other,
}
use xlinux.Slab.Places.Pop.{given}

module _ (c : Cache) (g : Geometry c) (page idx : ℕ) (st : State) (out : ℕ → ℕ)
    (w : WellFormed c st (given (address c page idx) out)) (here : 0 < listed page st)
    (below : idx < c.num) where
  abbrev x : ℕ
  x = address c page idx

  abbrev s : Slab
  s = st.slab page

  abbrev s' : Slab
  s' = slab_put_obj c x s

  abbrev put_state : State
  put_state = record st { slab = update st.slab page s' }

  not_free : count idx (free_indices c s) ≡ 0
  not_free =
      let self : (x == x) ≡ true = ground arith in
      omega (arith, w.placed.places page idx here below, ap one_if self)

  put_Put : Put c page idx s s'
  put_Put =
      let ok = w.placed.slabs page here in
      let once : (i : ℕ) → i < c.num → count i (free_indices c s) ≤ 1 =
        λ i h. omega (arith, w.placed.places page i here h) in
      let used = gap-used c g page idx s ok once below not_free in
      slab_put_obj-Put c g page idx s ok below used (λ all own.
        let f = w.filed page in
        elim (Bool-cases (ltb 0 (count page st.slabs_full))) [
          | inl full ↦ (f.full (ground (arith, full))).1 own
          | inr no_full ↦ elim (Bool-cases (ltb 0 (count page st.slabs_partial))) [
            | inl part ↦
                let b = (f.partial (ground (arith, part))).1 in absurd (omega (arith, b, all))
            | inr no_part ↦
                let z = f.free (ground (arith, here, no_full, no_part)) in
                absurd (omega (arith, z, used))
          ]
        ])

  put-Placed : Placed c (λ q. listed q st) put_state out
  put-Placed =
      let p = w.placed in
      let t = put_Put in
      let there : (q : ℕ) → q ≡ page → update st.slab page s' q ≡ s' =
        λ q e. ap (update st.slab page s') e ∙ update_same st.slab page s' in
      let others : (q : ℕ) → q ≢ page → update st.slab page s' q ≡ st.slab q =
        λ q. update_other st.slab page s' q in
      record {
        slabs = λ q h. elim (Bool-cases (q == page)) [
          | inl same ↦
              let e : q ≡ page = ground (arith, same) in
              subst (λ s. SlabOk c q s) (sym (there q e))
                (subst (λ r. SlabOk c r s') (sym e) t.kept)
          | inr other ↦
              subst (λ s. SlabOk c q s) (sym (others q (ground (arith, other)))) (p.slabs q h)
        ];
        once = p.once;
        places = λ q i h hi. elim (Bool-cases (q == page)) [
          | inl same ↦
              let e : q ≡ page = ground (arith, same) in
              let before = p.places page i here hi in
              let counted = ap (count i) t.rest in
              let test = ap one_if (same_test c g page i idx hi below) in
              subst
                (λ r.
                  count i (free_indices c (put_state.slab r))
                    + (stacked (address c r i) st.entry st.avail + out (address c r i))
                  ≡ 1)
                (sym e)
                (omega (
                  arith,
                  before,
                  counted,
                  test,
                  ap (λ s. count i (free_indices c s)) (there page refl),
                ))
          | inr other ↦
              let ne : q ≢ page = ground (arith, other) in
              let test = ap one_if (other_test c g q page i idx hi below ne) in
              omega
                (arith, p.places q i h hi, test, ap (λ s. count i (free_indices c s)) (others q ne))
        ];
        owned = λ y h. p.owned y (omega (arith, h));
      }

  put-Filed : (q : ℕ) → q ≢ page → Filed c put_state q
  put-Filed q ne =
      Filed-other c page st put_state _ _ _
        (record {
          here = (refl, refl, refl);
          others = λ q ne. (refl, refl, refl);
          kept = λ q ne. update_other st.slab page s' q ne;
        })
        q ne (w.filed q)

  put_slab : put_state.slab page ≡ s'
  put_slab = update_same st.slab page s'

  put-SlabOk : SlabOk c page (put_state.slab page)
  put-SlabOk = subst (SlabOk c page) (sym put_slab) put_Put.kept

  one_chain : listed page st ≡ 1
  one_chain = omega (arith, here, w.placed.once page)

  abbrev mid : State
  mid = record (unlist page st) { slab = update st.slab page s' }

  abbrev to_free : State
  to_free = record mid { slabs_free = page ∷ mid.slabs_free; free_slabs = suc mid.free_slabs }

  abbrev to_tail : State
  to_tail = record mid { slabs_partial = mid.slabs_partial ++ (page ∷ []) }

  to_free-Chained : Chained page put_state to_free 0 0 1
  unfolding unlist
  to_free-Chained =
      let h = unlist_here c page st (w.placed.once page) in
      record {
        here = (h.0, h.1, ground (arith, h.2));
        others = λ q ne. let o = unlist_other c page st q ne in (o.0, o.1, ground (arith, o.2));
        kept = λ q ne. refl;
      }

  to_tail-Chained : Chained page put_state to_tail 1 0 0
  unfolding unlist
  to_tail-Chained =
      let h = unlist_here c page st (w.placed.once page) in
      record {
        here = (ground (arith, h.0, count-append page mid.slabs_partial (page ∷ [])), h.1, h.2);
        others = λ q ne.
            let o = unlist_other c page st q ne in
            (ground (arith, o.0, count-append q mid.slabs_partial (page ∷ [])), o.1, o.2);
        kept = λ q ne. refl;
      }

  to_free-WellFormed : s'.active ≡ 0 → WellFormed c to_free out
  unfolding unlist
  to_free-WellFormed z =
      let ch = to_free-Chained in
      Chained-WellFormed c (λ q. listed q st) page put_state to_free 0 0 1 ch refl one_chain
        (λ q ne. refl) out put-Placed put-Filed put-SlabOk
        (record {
          full = λ h. absurd (omega (arith, h, ch.here.1));
          partial = λ h. absurd (omega (arith, h, ch.here.0));
          free = λ h. ap (λ s. s.active) put_slab ∙ z;
        })
        (λ i. refl) (λ x. refl)

  to_tail-WellFormed : 0 < s'.active → WellFormed c to_tail out
  unfolding unlist
  to_tail-WellFormed some_used =
      let ch = to_tail-Chained in
      let bound = (w.placed.slabs page here).bound in
      let active = ap (λ s. s.active) put_slab in
      Chained-WellFormed c (λ q. listed q st) page put_state to_tail 1 0 0 ch refl one_chain
        (λ q ne. refl) out put-Placed put-Filed put-SlabOk
        (record {
          full = λ h. absurd (omega (arith, h, ch.here.1));
          partial =
              λ h. (omega (arith, active, some_used), omega (arith, active, put_Put.unused, bound));
          free = λ h. absurd (omega (arith, h, ch.here.2));
        })
        (λ i. refl) (λ x. refl)

  chain_test :
      (b : Bool)
      → ((put_state.slab page).active == 0) ≡ b
      → fixup_chain page mid ≡ (if b then to_free else to_tail)
  unfolding fixup_chain
  chain_test b e = ap (λ b. if b then to_free else to_tail) e

  chain-WellFormed : WellFormed c (fixup_chain page mid) out
  chain-WellFormed =
      let active = ap (λ s. s.active) put_slab in
      elim (Bool-cases ((put_state.slab page).active == 0)) [
        | inl z ↦
            subst (λ st. WellFormed c st out) (sym (chain_test true z))
              (to_free-WellFormed (ground (arith, z, active)))
        | inr n ↦
            subst (λ st. WellFormed c st out) (sym (chain_test false n))
              (to_tail-WellFormed (ground (arith, n, active)))
      ]

  chain_page : free_object c x st ≡ fixup_chain page mid
  unfolding free_object
  chain_page =
      ap
        (λ p.
          fixup_chain p
            (record (unlist p st) { slab = update st.slab p (slab_put_obj c x (st.slab p)) }))
        (page_of c g page idx below)

-- The object that is freed is given out no more, and the cache stays well-formed.
pub free_object-WellFormed :
    (c : Cache) (g : Geometry c) (x : ℕ) (st : State) (out : ℕ → ℕ)
    → WellFormed c st (given x out)
    → WellFormed c (free_object c x st) out
free_object-WellFormed c g x st out w =
    let self : (x == x) ≡ true = ground arith in
    let had : 0 < stacked x st.entry st.avail + given x out x = omega (arith, ap one_if self) in
    let (page, idx, here, below, e) = w.placed.owned x had in
    let w' : WellFormed c st (given (address c page idx) out) =
      subst (λ x. WellFormed c st (given x out)) e w in
    subst (λ x. WellFormed c (free_object c x st) out) (sym e)
      (subst (λ st. WellFormed c st out) (sym (chain_page c g page idx st out w' here below))
        (chain-WellFormed c g page idx st out w' here below))
