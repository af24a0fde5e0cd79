-- ===== src/Virtio/Interrupts.antt =====
-- virtio/virtio_ring.c: the interrupt of a queue and its suppression, and the theorem on them.
use xlinux.Common.{
  ℕ, ◌-◌, ◌%◌, ◌^◌, ◌<◌, ◌≡◌, ◌⊎◌, ◌↔◌, inl, inr, Bool, true, false, not, ◌==◌, if◌then◌else◌,
  bit_and, bit_or, arith, refl, Bool-cases,
}
use xlinux.Common.Bits.{bit_and_low}
use xlinux.Virtio.{Queue, more_used}

-- `vring_interrupt`: whether it was handled, and whether the callback runs, where there is one.
unfoldable pub vring_interrupt : Bool → Queue → Bool × Bool
vring_interrupt callback vq =
    if not (more_used vq)
    then (false, false)
    else if vq.broken
    then (true, false)
    else (true, callback)

-- `virtqueue_disable_cb_split`
pub virtqueue_disable_cb : Queue → Queue
virtqueue_disable_cb vq =
    if bit_and vq.avail_flags_shadow 1 == 0
    then record vq { avail_flags_shadow = bit_or vq.avail_flags_shadow 1 }
    else vq

-- `virtqueue_enable_cb_prepare_split`; the flag is the only bit that is set or read.
pub virtqueue_enable_cb_prepare : Queue → ℕ × Queue
virtqueue_enable_cb_prepare vq =
    let shadow =
      if bit_and vq.avail_flags_shadow 1 == 0
      then vq.avail_flags_shadow
      else vq.avail_flags_shadow - 1 in
    (vq.last_used_idx, record vq { avail_flags_shadow = shadow; used_event = vq.last_used_idx })

-- `virtqueue_poll`
pub virtqueue_poll : Queue → ℕ → Bool
virtqueue_poll vq last = if vq.broken then false else not (last % 2 ^ 16 == vq.used_idx)

-- `virtqueue_enable_cb`
pub virtqueue_enable_cb : Queue → Bool × Queue
virtqueue_enable_cb vq =
    let (last, armed) = virtqueue_enable_cb_prepare vq in (not (virtqueue_poll armed last), armed)

may_wait :
    (b : Bool) (last used : ℕ)
    → last < 2 ^ 16
    → (not (if b then false else not (last % 2 ^ 16 == used)) ≡ true) ↔ ((b ≡ true) ⊎ (last ≡ used))
may_wait true last used low = (λ _. inl refl, λ _. refl)
may_wait false last used low = (λ h. inr (ground arith), λ h. ground arith)

-- `virtqueue_enable_cb` switches the interrupts on and publishes the last used index as the event,
-- and it returns true, which tells the caller that it may wait, exactly if the queue is broken or
-- the device used nothing that was not seen, for an index of 16 bits.
pub virtqueue_enable_cb_lem :
    (vq : Queue)
    → vq.last_used_idx < 2 ^ 16
    → (((virtqueue_enable_cb vq).0 ≡ true)
        ↔ ((vq.broken ≡ true) ⊎ (vq.last_used_idx ≡ vq.used_idx)))
      × ((virtqueue_enable_cb vq).1.used_event ≡ vq.last_used_idx)
      × ((virtqueue_enable_cb vq).1.avail_flags_shadow % 2 ≡ 0)
unfolding virtqueue_enable_cb virtqueue_enable_cb_prepare virtqueue_poll
virtqueue_enable_cb_lem vq low = (may_wait vq.broken vq.last_used_idx vq.used_idx low, refl, off)
  where
    off : (virtqueue_enable_cb vq).1.avail_flags_shadow % 2 ≡ 0
    off =
        let bit = bit_and_low 1 vq.avail_flags_shadow in
        elim (Bool-cases (bit_and vq.avail_flags_shadow 1 == 0)) [
          | inl clear ↦ rw clear (ground (arith, bit))
          | inr set ↦ rw set (ground (arith, bit))
        ]
