-- ===== src/Slab/Places/Fixup.antt =====
-- slab/slab.c: `fixup_slab_list` after a slab gave objects away.
use mathlib.Core.Path.{subst}
use xlinux.Common.{
  ℕ, ◌≤◌, ◌<◌, ◌≡◌, ◌≢◌, inl, inr, Bool, true, false, ◌∷◌, ◌==◌, if◌then◌else◌, arith, refl, ap,
  sym, ◌∙◌, Bool-cases,
}
use xlinux.Common.Counts.{count}
use xlinux.Common.Tables.{update, update_same, update_other}
use xlinux.Slab.{Cache, State, unlist, drop_freelist, fixup_slab_list}
use xlinux.Slab.Places.{listed, Placed, Filed}
use xlinux.Slab.Places.Chains.{
  WellFormed, UsedUp, drop_freelist-UsedUp, unlist_here, unlist_other, Chained, Chained-WellFormed,
  Chained-listed, used_up,
}

module _ (c : Cache) (page : ℕ) (st : State) where
  abbrev to_full : State
  to_full =
      let out = unlist page st in
      record out {
        slabs_full = page ∷ out.slabs_full;
        slab = update st.slab page (drop_freelist c (st.slab page));
      }

  abbrev to_partial : State
  to_partial = let out = unlist page st in record out { slabs_partial = page ∷ out.slabs_partial }

  fixup_test :
      (b : Bool)
      → ((st.slab page).active == c.num) ≡ b
      → fixup_slab_list c page st ≡ (if b then to_full else to_partial)
  unfolding fixup_slab_list
  fixup_test b e = ap (λ b. if b then to_full else to_partial) e

  pub fixup_stack :
      ((fixup_slab_list c page st).avail ≡ st.avail)
      × ((fixup_slab_list c page st).limit ≡ st.limit)
      × ((fixup_slab_list c page st).batchcount ≡ st.batchcount)
  unfolding unlist
  fixup_stack = elim (Bool-cases ((st.slab page).active == c.num)) [
    | inl full ↦
        let e = fixup_test true full in
        (ap (λ st. st.avail) e, ap (λ st. st.limit) e, ap (λ st. st.batchcount) e)
    | inr room ↦
        let e = fixup_test false room in
        (ap (λ st. st.avail) e, ap (λ st. st.limit) e, ap (λ st. st.batchcount) e)
  ]

  to_full-Chained : listed page st ≤ 1 → Chained page st to_full 0 1 0
  unfolding unlist
  to_full-Chained once =
      let h = unlist_here c page st once in
      record {
        here = (h.0, ground (arith, h.1), h.2);
        others = λ q ne. let o = unlist_other c page st q ne in (o.0, ground (arith, o.1), o.2);
        kept = λ q ne. update_other st.slab page _ q ne;
      }

  to_partial-Chained : listed page st ≤ 1 → Chained page st to_partial 1 0 0
  unfolding unlist
  to_partial-Chained once =
      let h = unlist_here c page st once in
      record {
        here = (ground (arith, h.0), h.1, h.2);
        others = λ q ne. let o = unlist_other c page st q ne in (ground (arith, o.0), o.1, o.2);
        kept = λ q ne. refl;
      }

  module _ (on out : ℕ → ℕ) (p : Placed c on st out) (one : on page ≡ 1) (once : listed page st ≤ 1)
      (onq : (q : ℕ) → q ≢ page → on q ≡ listed q st)
      (filed : (q : ℕ) → q ≢ page → Filed c st q) where
    to_full-WellFormed : (st.slab page).active ≡ c.num → WellFormed c to_full out
    unfolding unlist
    to_full-WellFormed e =
        let ok = p.slabs page (omega (arith, one)) in
        let same = update_same st.slab page (drop_freelist c (st.slab page)) in
        let used =
          subst (UsedUp c page) (sym same) (drop_freelist-UsedUp c page (st.slab page) ok e) in
        let ch = to_full-Chained once in
        Chained-WellFormed c on page st to_full 0 1 0 ch refl one onq out p filed used.ok
          (record {
            full = λ h. (used.all, used.dropped);
            partial = λ h. absurd (omega (arith, h, ch.here.0));
            free = λ h. absurd (omega (arith, h, ch.here.2));
          })
          (λ i.
            ap (count i)
              (used_up c (to_full.slab page) used.all ∙ sym (used_up c (st.slab page) e)))
          (λ x. refl)

    to_partial-WellFormed :
        0 < (st.slab page).active → (st.slab page).active < c.num → WellFormed c to_partial out
    unfolding unlist
    to_partial-WellFormed some_used some_free =
        let ch = to_partial-Chained once in
        Chained-WellFormed c on page st to_partial 1 0 0 ch refl one onq out p filed
          (p.slabs page (omega (arith, one)))
          (record {
            full = λ h. absurd (omega (arith, h, ch.here.1));
            partial = λ h. (some_used, some_free);
            free = λ h. absurd (omega (arith, h, ch.here.2));
          })
          (λ i. refl) (λ x. refl)

    pub fixup-WellFormed : 0 < (st.slab page).active → WellFormed c (fixup_slab_list c page st) out
    fixup-WellFormed used =
        let bound = (p.slabs page (omega (arith, one))).bound in
        elim (Bool-cases ((st.slab page).active == c.num)) [
          | inl full ↦
              subst (λ st. WellFormed c st out) (sym (fixup_test true full))
                (to_full-WellFormed (ground (arith, full)))
          | inr room ↦
              subst (λ st. WellFormed c st out) (sym (fixup_test false room))
                (to_partial-WellFormed used (ground (arith, room, bound)))
        ]

    pub fixup-listed : (q : ℕ) → listed q (fixup_slab_list c page st) ≡ on q
    fixup-listed q = elim (Bool-cases ((st.slab page).active == c.num)) [
      | inl full ↦
          ap (listed q) (fixup_test true full)
          ∙ Chained-listed c on page st to_full 0 1 0 (to_full-Chained once) refl one onq q
      | inr room ↦
          ap (listed q) (fixup_test false room)
          ∙ Chained-listed c on page st to_partial 1 0 0 (to_partial-Chained once) refl one onq q
    ]
