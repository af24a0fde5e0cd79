-- ===== src/Virtio/Buffers.antt =====
-- Theorems on `virtqueue_add_split` and `virtqueue_get_buf` of virtio/virtio_ring.c.
use xlinux.Common.{
  ℕ, suc, ◌+◌, ◌-◌, ◌*◌, ◌%◌, ◌^◌, ◌<◌, ◌≤◌, ◌≡◌, ◌≢◌, ◌⊎◌, ◌∙◌, Bool, true, false, ◌&&◌, Option,
  none, some, List, [], ◌∷◌, ltb, leb, ◌==◌, length, arith, refl, sym, ap, Bool-cases, Option-cases,
  inl, inr, bit_and,
}
use mathlib.Core.Path.{subst}
use xlinux.Common.Tables.{update_same, update_other}
use xlinux.Virtio.{
  UsedElem, Queue, Result, done, panic, Fragment, use_indirect, expose, indirect_table, kick_full,
  add_with, virtqueue_add_split, virtqueue_notify, more_used, advance, take_used, virtqueue_get_buf,
}
use xlinux.Virtio.Ready.{Ready, free_head-unheld, expose-Ready}
use xlinux.Virtio.Table.{tagged, described, indirect_table-described}
use xlinux.Virtio.Detach.{detached, detach_buf_split-detached, detached-Ready}

-- The queue `vq'` behind an added buffer with the token `t`: the free head left the free list and
-- holds the token, the next entry of the available ring names it, the available index went on by
-- one modulo `2 ^ 16`, its indirect table describes the fragments, and every other token is as
-- before.
pub record Added (rest : List ℕ) (t : ℕ) (outs ins : List Fragment) (vq vq' : Queue) : Type 0 where
  pub ready : Ready rest vq'
  pub kept : vq'.token vq.free_head ≡ some t
  pub was_free : vq.token vq.free_head ≡ none
  pub offered : vq'.avail_ring (bit_and vq.avail_idx_shadow (vq.num - 1)) ≡ vq.free_head
  pub points : vq'.indir_desc vq.free_head ≡ some (described 0 (tagged outs ins))
  pub idx : vq'.avail_idx ≡ (suc vq.avail_idx_shadow) % 2 ^ 16
  pub others : (i : ℕ) → i ≢ vq.free_head → vq'.token i ≡ vq.token i

with_broken-Ready :
    (free : List ℕ) (vq : Queue) (b : Bool) → Ready free vq → Ready free (record vq { broken = b })
with_broken-Ready free vq b r = record {
  chain = r.chain;
  number = r.number;
  unheld = r.unheld;
  held = r.held;
  indirect = r.indirect;
}

-- What the device writes keeps the invariant.
pub with_used-Ready :
    (free : List ℕ) (vq : Queue) (ring : ℕ → UsedElem) (idx : ℕ)
    → Ready free vq
    → Ready free (record vq { used_ring = ring; used_idx = idx })
with_used-Ready free vq ring idx r = record {
  chain = r.chain;
  number = r.number;
  unheld = r.unheld;
  held = r.held;
  indirect = r.indirect;
}

-- What `virtqueue_notify` leaves is the queue, but for the flag `broken`.
virtqueue_notify-broken :
    (notify : Bool) (vq : Queue)
    → (b : Bool) × ((virtqueue_notify notify vq).1 ≡ record vq { broken = b })
unfolding virtqueue_notify
virtqueue_notify-broken notify vq = elim (Bool-cases vq.broken) [
  | inl is ↦ (vq.broken, rw is refl)
  | inr works ↦ elim (Bool-cases notify) [
    | inl good ↦ (vq.broken, rw (works, good) refl)
    | inr bad ↦ (true, rw (works, bad) refl)
  ]
]

expose-Added :
    (rest : List ℕ) (vq : Queue) (table : ℕ) (outs ins : List Fragment) (t : ℕ) (b : Bool)
    → Ready (vq.free_head ∷ rest) vq
    → 1 < length outs + length ins
    → length outs + length ins ≤ 2 ^ 16
    → Added rest t outs ins vq (record (expose table outs ins t vq) { broken = b })
unfolding expose
expose-Added rest vq table outs ins t b ready many few = record {
  ready =
      with_broken-Ready rest (expose table outs ins t vq) b
        (expose-Ready rest vq table outs ins t ready many (omega arith));
  kept = update_same vq.token vq.free_head (some t);
  was_free = (free_head-unheld rest vq table outs ins t ready many (omega arith)).1;
  offered = update_same vq.avail_ring (bit_and vq.avail_idx_shadow (vq.num - 1)) vq.free_head;
  points =
      update_same vq.indir_desc vq.free_head (some (indirect_table outs ins))
      ∙ ap some (indirect_table-described outs ins (omega arith) few);
  idx = refl;
  others = λ i ne. update_other vq.token vq.free_head (some t) i ne;
}

-- On a queue that satisfies the invariant and has a free descriptor, and where the table can be
-- allocated, adding a buffer of two to `2 ^ 16` fragments succeeds for every outcome of the kick.
-- It takes the first free descriptor, keeps the invariant and every other token, offers the
-- descriptor to the device, and records an indirect table with all the fragments in order.
pub virtqueue_add_split-Added :
    (notify : Bool) (kmalloc : ℕ → Option ℕ) (table : ℕ) (outs ins : List Fragment) (t : ℕ)
    (free : List ℕ) (vq : Queue)
    → Ready free vq
    → 0 < vq.num_free
    → 1 < length outs + length ins
    → length outs + length ins ≤ 2 ^ 16
    → kmalloc ((length outs + length ins) * 16) ≡ some table
    → (rest : List ℕ) × (vq' : Queue) × (virtqueue_add_split notify kmalloc outs ins t vq
        ≡ done tt vq')
      × (free ≡ vq.free_head ∷ rest)
      × Added rest t outs ins vq vq'
unfolding virtqueue_add_split use_indirect add_with kick_full
virtqueue_add_split-Added notify kmalloc table outs ins t [] vq ready some_free many few got =
    absurd (omega (arith, ready.number))
virtqueue_add_split-Added notify kmalloc table outs ins t (h ∷ rest) vq ready some_free many few
      got =
    let head : h ∷ rest ≡ vq.free_head ∷ rest = ap (λ i. i ∷ rest) (sym ready.chain.0) in
    let ready' = subst (λ l. Ready l vq) head ready in
    let usable : (vq.indirect && ltb 1 (length outs + length ins) && ltb 0 vq.num_free) ≡ true =
      rw ready.indirect (ground (arith, ready.number)) in
    let added = λ (b : Bool). expose-Added rest vq table outs ins t b ready' many few in
    let exposed = expose table outs ins t vq in
    let (b, kicked) = virtqueue_notify-broken notify exposed in
    elim (Bool-cases (exposed.num_added == 2 ^ 16 - 1)) [
      | inl full ↦
          rw (usable, got, add_with, full)
            (
              rest,
              (virtqueue_notify notify exposed).1,
              refl,
              head,
              subst (Added rest t outs ins vq) (sym kicked) (added b),
            )
      | inr room ↦
          rw (usable, got, add_with, room) (rest, exposed, refl, head, added exposed.broken)
    ]

-- The queue works, and the device used a buffer that was not yet taken.
abbrev pub IsUsed : Queue → Type 0
IsUsed vq = (vq.broken ≡ false) × (vq.last_used_idx ≢ vq.used_idx)

-- What `virtqueue_get_buf` comes to on a queue whose free descriptors are `free`: nothing, where
-- the queue is broken or the device used nothing more; otherwise a panic, where the device names a
-- descriptor that holds no buffer, or the token that the descriptor holds, with the length the
-- device wrote.
-- Then the descriptor is the first free one and holds no token, every other token is as before, and
-- the last used index went on by one modulo `2 ^ 16`.
pub data Fetched (free : List ℕ) (vq : Queue) (e : UsedElem)
    : Result (Option (ℕ × ℕ)) → Type 0 where
  idle : (vq.broken ≡ true) ⊎ (vq.last_used_idx ≡ vq.used_idx) → Fetched free vq e (done none vq)
  bad_id : IsUsed vq → vq.token e.id ≡ none → Fetched free vq e panic
  fetched :
      (t : ℕ) (vq' : Queue)
      → IsUsed vq
      → vq.token e.id ≡ some t
      → Ready (e.id ∷ free) vq'
      → vq'.token e.id ≡ none
      → ((i : ℕ) → i ≢ e.id → vq'.token i ≡ vq.token i)
      → vq'.last_used_idx ≡ (suc vq.last_used_idx) % 2 ^ 16
      → Fetched free vq e (done (some (t, e.len)) vq')

advance-Ready : (free : List ℕ) (vq : Queue) → Ready free vq → Ready free (advance vq)
unfolding advance
advance-Ready free vq r = record {
  chain = r.chain;
  number = r.number;
  unheld = r.unheld;
  held = r.held;
  indirect = r.indirect;
}

token-Fetched :
    (free : List ℕ) (vq : Queue) (e : UsedElem) (t : ℕ)
    → Ready free vq
    → IsUsed vq
    → vq.token e.id ≡ some t
    → Fetched free vq e (done (some (t, e.len)) (advance (detached e.id vq)))
unfolding advance
token-Fetched free vq e t ready is_used has =
    fetched t (advance (detached e.id vq)) is_used has
      (advance-Ready (e.id ∷ free) (detached e.id vq) (detached-Ready free vq e.id t ready has))
      (update_same vq.token e.id none) (λ i ne. update_other vq.token e.id none i ne) refl

take_used-Fetched :
    (free : List ℕ) (vq : Queue) (e : UsedElem)
    → Ready free vq
    → IsUsed vq
    → Fetched free vq e (take_used e vq)
unfolding take_used
take_used-Fetched free vq e ready is_used = elim (Option-cases (vq.token e.id)) [
  | inl empty ↦ elim (Bool-cases (leb vq.num e.id)) [
    | inl out ↦ simp out (bad_id is_used empty)
    | inr in_range ↦ simp (in_range, empty) (bad_id is_used empty)
  ]
  | inr (t, has) ↦
      let low = (ready.held e.id t has).0 in
      let in_range : leb vq.num e.id ≡ false = ground arith in
      simp (in_range, has, detach_buf_split-detached free vq e.id t ready has)
        (token-Fetched free vq e t ready is_used has)
]

-- On a queue that satisfies the invariant, `virtqueue_get_buf` always comes to an end. On a broken
-- queue, or where the device used nothing more, it gives nothing and changes nothing; otherwise it
-- gives back the token of the descriptor that the device names in the used ring and keeps the
-- invariant, or panics on a descriptor that holds no buffer.
pub virtqueue_get_buf-Fetched :
    (free : List ℕ) (vq : Queue)
    → Ready free vq
    → Fetched free vq (vq.used_ring (bit_and vq.last_used_idx (vq.num - 1))) (virtqueue_get_buf vq)
unfolding virtqueue_get_buf more_used
virtqueue_get_buf-Fetched free vq ready = elim (Bool-cases vq.broken) [
  | inl broken ↦ simp broken (idle (inl broken))
  | inr works ↦ elim (Bool-cases (vq.last_used_idx == vq.used_idx)) [
    | inl same ↦ simp (works, same) (idle (inr (ground arith)))
    | inr more ↦
        simp (works, more)
          (take_used-Fetched free vq (vq.used_ring (bit_and vq.last_used_idx (vq.num - 1))) ready
            (works, λ same. ground (arith, more, same)))
  ]
]
