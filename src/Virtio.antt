-- ===== src/Virtio.antt =====
-- virtio/virtio_ring.c: the split queue with indirect descriptors.
-- The memory that the device shares is a part of the state: `used_ring` and `used_idx` are what the
-- device wrote last. An index of 16 bits wraps around; `num` is a power of two.
pub mod Ready
pub mod Table
pub mod Detach
pub mod Buffers
pub mod Fresh
pub mod Interrupts
mod Tests
use xlinux.Common.{
  ℕ, zero, suc, ◌+◌, ◌-◌, ◌*◌, ◌%◌, ◌^◌, Bool, true, false, not, ◌&&◌, ◌||◌, Option, none, some,
  List, [], ◌∷◌, ◌++◌, ltb, leb, ◌==◌, if◌then◌else◌, bit_and, bit_or, length, map, set,
}
use mathlib.Core.List.{flatten}
use xlinux.Common.Tables.{update}

-- `struct vring_desc`
pub record Desc : Type 0 where
  pub addr : ℕ
  pub len : ℕ
  pub flags : ℕ
  pub next : ℕ

-- `struct vring_used_elem`
pub record UsedElem : Type 0 where
  pub id : ℕ
  pub len : ℕ

-- `struct vring_virtqueue`: the descriptors, the rings, and per descriptor the token and the
-- indirect table.
pub record Queue : Type 0 where
  pub num : ℕ
  pub desc : ℕ → Desc
  pub avail_ring : ℕ → ℕ
  pub avail_idx : ℕ
  pub avail_flags_shadow : ℕ
  pub avail_idx_shadow : ℕ
  pub used_event : ℕ
  pub used_ring : ℕ → UsedElem
  pub used_idx : ℕ
  pub last_used_idx : ℕ
  pub free_head : ℕ
  pub num_free : ℕ
  pub num_added : ℕ
  pub token : ℕ → Option ℕ
  pub indir_desc : ℕ → Option (List Desc)
  pub indirect : Bool
  pub broken : Bool

-- What a call comes to: a result with the new state, a panic, or a loop that does not end.
pub data Result (A : Type 0) : Type 0 where
  done : A → Queue → Result A
  panic hang : Result A

abbrev pub f_next : ℕ
f_next = 1

abbrev pub f_write : ℕ
f_write = 2

abbrev pub f_indirect : ℕ
f_indirect = 4

-- The address and the length of an entry of a scatterlist.
abbrev pub Fragment : Type 0
Fragment = ℕ × ℕ

-- The `next` fields that `__vring_new_virtqueue` writes into the first `num - 1` descriptors.
pub chain_free : ℕ → (ℕ → Desc) → ℕ → Desc
chain_free num desc i =
    if ltb (suc i) num then record (desc i) { next = (suc i) % 2 ^ 16 } else desc i

-- The queue that `__vring_new_virtqueue` fills in, on a ring in zeroed pages.
abbrev pub new_queue : ℕ → Bool → Bool → Queue
new_queue num indirect callback =
    let blank : Desc = record { addr = 0; len = 0; flags = 0; next = 0 } in
    record {
      num = num;
      desc = chain_free num (λ i. blank);
      avail_ring = λ i. 0;
      avail_idx = 0;
      avail_flags_shadow = if not callback then 1 else 0;
      avail_idx_shadow = 0;
      used_event = 0;
      used_ring = λ i. record { id = 0; len = 0 };
      used_idx = 0;
      last_used_idx = 0;
      free_head = 0;
      num_free = num;
      num_added = 0;
      token = λ i. none;
      indir_desc = λ i. none;
      indirect = indirect;
      broken = false;
    }

-- `__vring_new_virtqueue`: `event` is the negotiated feature, which must be there, and `callback`
-- is whether there is one.
pub vring_new_virtqueue : ℕ → Bool → Bool → Bool → Result Unit
vring_new_virtqueue num indirect event callback =
    if not event then panic else done tt (new_queue num indirect callback)

-- `virtqueue_use_indirect`
pub use_indirect : Queue → ℕ → Bool
use_indirect vq total = vq.indirect && ltb 1 total && ltb 0 vq.num_free

-- The entries of the table of `alloc_indirect_split`, from an index on: `next` has 16 bits, and the
-- other fields are written later.
pub alloc_indirect : ℕ → ℕ → List Desc
alloc_indirect zero i = []
alloc_indirect (suc n) i =
    record { addr = 0; len = 0; flags = 0; next = (suc i) % 2 ^ 16 } ∷ alloc_indirect n (suc i)

pub desc_at : List Desc → ℕ → Desc
desc_at [] i = record { addr = 0; len = 0; flags = 0; next = 0 }
desc_at (d ∷ table) zero = d
desc_at (d ∷ table) (suc i) = desc_at table i

-- The variables `desc`, `i` and `prev` of `virtqueue_add_split`.
pub record Filling : Type 0 where
  pub table : List Desc
  pub i : ℕ
  pub prev : ℕ

-- One loop of `virtqueue_add_split` over the scatterlists of a direction.
pub fill : ℕ → List Fragment → Filling → Filling
fill flags [] f = f
fill flags ((a, l) ∷ sg) f =
    let d = desc_at f.table f.i in
    fill flags sg (record {
      table = set f.table f.i (record d { addr = a; len = l; flags = flags });
      i = d.next;
      prev = f.i;
    })

-- `desc[prev].flags &= ~VRING_DESC_F_NEXT`
pub end_chain : Filling → List Desc
end_chain f =
    let d = desc_at f.table f.prev in
    set f.table f.prev (record d { flags = d.flags - d.flags % 2 })

-- The indirect table for the fragments that the device reads and those that it writes.
pub indirect_table : List Fragment → List Fragment → List Desc
indirect_table outs ins = end_chain (
    fill (bit_or f_next f_write) ins (
      fill f_next outs
        (record { table = alloc_indirect (length outs + length ins) 0; i = 0; prev = 0 })))

-- `virtqueue_notify`; `notify` is what the transport's function returns.
pub virtqueue_notify : Bool → Queue → Bool × Queue
virtqueue_notify notify vq =
    if vq.broken
    then (false, vq)
    else if not notify
    then (false, record vq { broken = true })
    else (true, vq)

-- What `virtqueue_add_split` writes: the descriptor at the free head, the token and the next
-- entry of the available ring. `table` is the address of the indirect table, which the allocator
-- gives.
pub expose : ℕ → List Fragment → List Fragment → ℕ → Queue → Queue
expose table outs ins data_token vq =
    let head = vq.free_head in
    let slot = bit_and vq.avail_idx_shadow (vq.num - 1) in
    let shadow = (suc vq.avail_idx_shadow) % 2 ^ 16 in
    record vq {
      desc = update vq.desc head (record (vq.desc head) {
        flags = f_indirect;
        addr = table;
        len = (length outs + length ins) * 16 % 2 ^ 32;
      });
      num_free = vq.num_free - 1;
      free_head = (vq.desc head).next;
      token = update vq.token head (some data_token);
      indir_desc = update vq.indir_desc head (some (indirect_table outs ins));
      avail_ring = update vq.avail_ring slot head;
      avail_idx_shadow = shadow;
      avail_idx = shadow;
      num_added = (suc vq.num_added) % 2 ^ 32;
    }

-- The end of `virtqueue_add_split`, behind the writes.
pub kick_full : Bool → Queue → Result Unit
kick_full notify vq =
    if vq.num_added == 2 ^ 16 - 1 then done tt ((virtqueue_notify notify vq).1) else done tt vq

-- The part of `virtqueue_add_split` behind the allocation of the table; `none` is its panic.
pub add_with : Bool → Option ℕ → List Fragment → List Fragment → ℕ → Queue → Result Unit
add_with notify none outs ins data_token vq = panic
add_with notify (some table) outs ins data_token vq =
    kick_full notify (expose table outs ins data_token vq)

-- `virtqueue_add_split`; `kmalloc` gives the address of a block of a size, or panics.
pub virtqueue_add_split :
    Bool → (ℕ → Option ℕ) → List Fragment → List Fragment → ℕ → Queue → Result Unit
virtqueue_add_split notify kmalloc outs ins data_token vq =
    let total_sg = length outs + length ins in
    if not (use_indirect vq total_sg)
    then panic
    else add_with notify (kmalloc (total_sg * 16)) outs ins data_token vq

-- `virtqueue_add_sgs`: the scatterlists of each direction, one after the other.
pub virtqueue_add_sgs :
    Bool → (ℕ → Option ℕ) → List (List Fragment) → List (List Fragment) → ℕ → Queue → Result Unit
virtqueue_add_sgs notify kmalloc outs ins data_token vq =
    virtqueue_add_split notify kmalloc (flatten outs) (flatten ins) data_token vq

-- `more_used_split`
pub more_used : Queue → Bool
more_used vq = not (vq.last_used_idx == vq.used_idx)

-- The loop of `detach_buf_split` over a chain, on fuel: its last descriptor and its length.
pub chain_end : ℕ → (ℕ → Desc) → ℕ → ℕ → Option (ℕ × ℕ)
chain_end zero desc i n = none
chain_end (suc fuel) desc i n =
    let rest = chain_end fuel desc ((desc i).next) (suc n) in
    if bit_and ((desc i).flags) f_next == 0 then some (i, suc n) else rest

-- The chain from `head` to `last` of `n` descriptors goes back to the free list.
pub put_back : ℕ → ℕ → ℕ → Queue → Queue
put_back head last n vq = record vq {
  token = update vq.token head none;
  desc = update vq.desc last (record (vq.desc last) { next = vq.free_head });
  free_head = head;
  num_free = vq.num_free + n;
}

-- The end of `detach_buf_split`: the indirect table is freed. The flag, the table, and the flags
-- and the length of the descriptor are those of the queue.
pub free_indirect : Bool → Option (List Desc) → ℕ → ℕ → ℕ → Queue → Result Unit
free_indirect false table flags len head vq = panic
free_indirect true none flags len head vq = done tt vq
free_indirect true (some table) flags len head vq =
    if (bit_and flags f_indirect == 0) || (len == 0) || not (len % 16 == 0)
    then panic
    else done tt (record vq { indir_desc = update vq.indir_desc head none })

pub free_table : ℕ → Queue → Result Unit
free_table head vq =
    free_indirect vq.indirect (vq.indir_desc head) ((vq.desc head).flags) ((vq.desc head).len) head
      vq

-- `detach_buf_split`; a chain without an end is one longer than the ring.
pub detach_buf_split : ℕ → Queue → Result Unit
detach_buf_split head vq = elim (chain_end vq.num vq.desc head 0) [
  | none ↦ hang
  | some (last, n) ↦ free_table head (put_back head last n vq)
]

-- `vq->last_used_idx++`
pub advance : Queue → Queue
advance vq = record vq { last_used_idx = (suc vq.last_used_idx) % 2 ^ 16 }

-- The part of `virtqueue_get_buf_ctx_split` behind its early returns, at an element of the used
-- ring: the token and the length.
pub take_used : UsedElem → Queue → Result (Option (ℕ × ℕ))
take_used e vq = if leb vq.num e.id then panic else elim (vq.token e.id) [
  | none ↦ panic
  | some data_token ↦ elim (detach_buf_split e.id vq) [
    | done _ q ↦ done (some (data_token, e.len)) (advance q)
    | panic ↦ panic
    | hang ↦ hang
  ]
]

-- `virtqueue_get_buf_ctx_split`: a token with its length, or no buffer.
pub virtqueue_get_buf : Queue → Result (Option (ℕ × ℕ))
virtqueue_get_buf vq =
    if vq.broken
    then done none vq
    else if not (more_used vq)
    then done none vq
    else take_used (vq.used_ring (bit_and vq.last_used_idx (vq.num - 1))) vq
