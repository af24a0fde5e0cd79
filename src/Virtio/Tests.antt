-- ===== src/Virtio/Tests.antt =====
-- Runs on a queue of two descriptors, and the theorems there.
use xlinux.Common.{
  ℕ, ◌-◌, ◌%◌, ◌≡◌, ◌↔◌, ◌⊎◌, true, Option, none, some, List, [], ◌∷◌, arith, refl, bit_and, ltb,
  if◌then◌else◌, ◌^◌,
}
use xlinux.Virtio.{
  Desc, UsedElem, Queue, Result, done, panic, hang, Fragment, vring_new_virtqueue, new_queue,
  expose, virtqueue_add_split, virtqueue_add_sgs, virtqueue_get_buf,
}
use xlinux.Virtio.Ready.{Ready, expose-Ready}
use xlinux.Virtio.Buffers.{
  with_used-Ready, Added, Fetched, virtqueue_add_split-Added, virtqueue_get_buf-Fetched,
}
use xlinux.Virtio.Fresh.{upto, vring_new_virtqueue-Ready}
use xlinux.Virtio.Interrupts.{virtqueue_enable_cb, vring_interrupt, virtqueue_enable_cb_lem}

-- A read request: a header that the device reads, and a page and a status that it writes.
abbrev outs : List Fragment
outs = (4096, 16) ∷ []

abbrev ins : List Fragment
ins = (8192, 512) ∷ (4112, 1) ∷ []

-- The allocator has one block, and panics above 4 MB.
abbrev kmalloc : ℕ → Option ℕ
kmalloc size = if ltb (2 ^ 22) size then none else some 65536

abbrev fresh : Queue
fresh = new_queue 2 true true

fresh-Ready : (vring_new_virtqueue 2 true true true ≡ done tt fresh) × Ready (upto 2 0) fresh
fresh-Ready = vring_new_virtqueue-Ready 2 true (omega arith)

vring_new_virtqueue-Ready_example :
    (vring_new_virtqueue 2 true true true ≡ done tt (new_queue 2 true true))
    × Ready (upto 2 0) (new_queue 2 true true)
vring_new_virtqueue-Ready_example = vring_new_virtqueue-Ready 2 true (omega arith)

virtqueue_add_split-Added_example :
    (rest : List ℕ) × (vq' : Queue) × (virtqueue_add_split true kmalloc outs ins 7 fresh
      ≡ done tt vq')
    × (upto 2 0 ≡ fresh.free_head ∷ rest)
    × Added rest 7 outs ins fresh vq'
virtqueue_add_split-Added_example =
    virtqueue_add_split-Added true kmalloc 65536 outs ins 7 (upto 2 0) fresh fresh-Ready.1
      (omega arith) (omega arith) (omega arith) refl

-- The request is pending, and the device has used it: it wrote 513 bytes.
abbrev pending : Queue
pending = expose 65536 outs ins 7 fresh

abbrev answered : Queue
answered = record pending { used_ring = λ i. record { id = 0; len = 513 }; used_idx = 1 }

answered-Ready : Ready (1 ∷ []) answered
answered-Ready =
    with_used-Ready (1 ∷ []) pending (λ i. record { id = 0; len = 513 }) 1
      (expose-Ready (1 ∷ []) fresh 65536 outs ins 7 fresh-Ready.1 (omega arith) (omega arith))

virtqueue_get_buf-Fetched_example :
    Fetched
      (1 ∷ [])
      answered
      (answered.used_ring (bit_and answered.last_used_idx (answered.num - 1)))
      (virtqueue_get_buf answered)
virtqueue_get_buf-Fetched_example = virtqueue_get_buf-Fetched (1 ∷ []) answered answered-Ready

virtqueue_enable_cb_lem_example :
    (((virtqueue_enable_cb fresh).0 ≡ true)
      ↔ ((fresh.broken ≡ true) ⊎ (fresh.last_used_idx ≡ fresh.used_idx)))
    × ((virtqueue_enable_cb fresh).1.used_event ≡ fresh.last_used_idx)
    × ((virtqueue_enable_cb fresh).1.avail_flags_shadow % 2 ≡ 0)
virtqueue_enable_cb_lem_example = virtqueue_enable_cb_lem fresh (omega arith)

-- The token of a buffer that is added, or the outcome where there is none.
abbrev token_of : Result (Option (ℕ × ℕ)) → Option (ℕ × ℕ)
token_of (done r vq) = r
token_of panic = none
token_of hang = none

runs :
    (token_of (virtqueue_get_buf answered) ≡ some (7, 513))
    × (virtqueue_add_split true kmalloc outs [] 7 fresh ≡ panic)
    × (virtqueue_add_sgs true kmalloc (outs ∷ []) (ins ∷ []) 7 fresh ≡ done tt pending)
    × (vring_interrupt true answered ≡ (true, true))
unfolding virtqueue_get_buf xlinux.Virtio.more_used xlinux.Virtio.take_used
    xlinux.Virtio.detach_buf_split xlinux.Virtio.chain_end xlinux.Virtio.put_back
    xlinux.Virtio.free_table xlinux.Virtio.free_indirect xlinux.Virtio.advance virtqueue_add_split
    expose xlinux.Virtio.use_indirect xlinux.Virtio.add_with xlinux.Virtio.kick_full
    virtqueue_add_sgs vring_interrupt mathlib.Core.List.flatten
runs = (refl, refl, refl, refl)
