-- ===== src/Virtio/Detach.antt =====
-- Lemmas on `detach_buf_split` of virtio/virtio_ring.c.
use xlinux.Common.{
  ℕ, zero, suc, ◌+◌, ◌%◌, ◌<◌, ◌≡◌, ◌≢◌, Bool, true, false, ◌&&◌, Option, none, some, List, ◌∷◌,
  ltb, ◌==◌, if◌then◌else◌, arith, refl, sym, ap, ◌∙◌, Bool-cases, inl, inr,
}
use mathlib.Core.Path.{subst}
use xlinux.Common.Counts.{count}
use xlinux.Common.Tables.{update}
use xlinux.Virtio.{
  Desc, Queue, done, chain_end, put_back, free_indirect, free_table, detach_buf_split, f_indirect,
}
use xlinux.Virtio.Ready.{is_none, IsIndirect, Ready, Chain-update}

chain_end_one :
    (n : ℕ) (desc : ℕ → Desc) (i : ℕ)
    → 0 < n
    → (desc i).flags ≡ f_indirect
    → chain_end n desc i 0 ≡ some (i, 1)
unfolding chain_end
chain_end_one zero desc i h e = absurd (omega arith)
chain_end_one (suc n) desc i h e = rw e refl

same_index : (i : ℕ) → (i == i) ≡ true
same_index i = ground arith

-- The queue behind `detach_buf_split` at a descriptor that holds a buffer.
abbrev pub detached : ℕ → Queue → Queue
detached i vq = record vq {
  token = update vq.token i none;
  desc = update vq.desc i (record (vq.desc i) { next = vq.free_head });
  free_head = i;
  num_free = vq.num_free + 1;
  indir_desc = update vq.indir_desc i none;
}

free_indirect_lem :
    (b : Bool) (o : Option (List Desc)) (flags len head : ℕ) (table : List Desc) (vq : Queue)
    → b ≡ true
    → o ≡ some table
    → flags ≡ f_indirect
    → len ≢ 0
    → len % 16 ≡ 0
    → free_indirect b o flags len head vq
      ≡ done tt (record vq { indir_desc = update vq.indir_desc head none })
unfolding free_indirect
free_indirect_lem b o flags len head table vq e f g ne mult =
    let filled : (len == 0) ≡ false = ground arith in
    let whole : (len % 16 == 0) ≡ true = ground arith in rw (e, f, g, filled, whole) refl

module _ (free : List ℕ) (vq : Queue) (i t : ℕ) (ready : Ready free vq)
    (has : vq.token i ≡ some t) where
  free_table-detached : free_table i (put_back i i 1 vq) ≡ done tt (detached i vq)
  unfolding free_table put_back
  free_table-detached =
      let (low, (fl, ne, mult), (table, tab)) = ready.held i t has in
      let here : update vq.desc i (record (vq.desc i) { next = vq.free_head }) i
          ≡ record (vq.desc i) { next = vq.free_head } =
        rw (same_index i) refl in
      free_indirect_lem vq.indirect (vq.indir_desc i) _ _ i table (put_back i i 1 vq) ready.indirect
        tab (ap (λ (d : Desc). d.flags) here ∙ fl) (subst (λ (d : Desc). d.len ≢ 0) (sym here) ne)
        (subst (λ (d : Desc). d.len % 16 ≡ 0) (sym here) mult)

  pub detach_buf_split-detached : detach_buf_split i vq ≡ done tt (detached i vq)
  unfolding detach_buf_split
  detach_buf_split-detached =
      let (low, (fl, _, _), _) = ready.held i t has in
      rw (chain_end_one vq.num vq.desc i (omega arith) fl, detach_buf_split) free_table-detached

  absent : count i free ≡ 0
  absent = ground (arith, ready.unheld i, ap is_none has)

  detached-unheld :
      (j : ℕ)
      → count j (i ∷ free) ≡ (if ltb j vq.num && is_none ((detached i vq).token j) then 1 else 0)
  detached-unheld j = elim (Bool-cases (j == i)) [
    | inl same ↦
        let e : j ≡ i = ground arith in
        let low : i < vq.num = (ready.held i t has).0 in
        rw same (ground (arith, absent, ap (λ k. count k free) e, low))
    | inr other ↦ rw other (omega arith ∙ ready.unheld j)
  ]

  detached-held :
      (j k : ℕ)
      → (detached i vq).token j ≡ some k
      → (j < vq.num)
        × IsIndirect ((detached i vq).desc j)
        × ((d : List Desc) × ((detached i vq).indir_desc j ≡ some d))
  detached-held j k = elim (Bool-cases (j == i)) [
    | inl same ↦ rw same (λ h. absurd (ground (arith, ap is_none h)))
    | inr other ↦ rw other (λ h. ready.held j k h)
  ]

  pub detached-Ready : Ready (i ∷ free) (detached i vq)
  detached-Ready = record {
    chain =
        (refl, rw (same_index i) (Chain-update vq.desc i _ vq.free_head free absent ready.chain));
    number = omega (arith, ready.number);
    unheld = detached-unheld;
    held = detached-held;
    indirect = ready.indirect;
  }
