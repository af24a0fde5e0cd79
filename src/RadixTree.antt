-- ===== src/RadixTree.antt =====
-- radix_tree/radix-tree.c: lookup and insertion.
-- A pointer in a slot is null, an item or a node. Every shift is 6 times a number of levels.
pub mod Slots
pub mod Insertion
mod Tests
use xlinux.Common.{
  ℕ, zero, suc, ◌+◌, ◌-◌, ◌*◌, ◌/◌, ◌%◌, ◌^◌, ◌==◌, ltb, Bool, true, false, if◌then◌else◌,
}
use xlinux.Common.Tables.{update}

-- A slot of `struct xa_node`, or the head of the tree; `node` has the shift and the 64 slots.
pub data Entry : Type 0 where
  empty : Entry
  item : ℕ → Entry
  node : ℕ → (ℕ → Entry) → Entry

-- `shift_maxindex`, on 64 bits.
pub shift_maxindex : ℕ → ℕ
shift_maxindex shift = (64 * 2 ^ shift + (2 ^ 64 - 1)) % 2 ^ 64

-- The largest index that `radix_tree_load_root` finds, and the levels below the head.
pub max_index : Entry → ℕ
max_index (node shift slots) = shift_maxindex shift
max_index _ = 0

pub levels : Entry → ℕ
levels (node shift slots) = suc (shift / 6)
levels _ = 0

-- The offset of `radix_tree_descend`.
pub offset_of : ℕ → ℕ → ℕ
offset_of shift index = (index / 2 ^ shift) % 64

-- The loop of `__radix_tree_lookup`.
pub lookup_entry : Entry → ℕ → Entry
lookup_entry empty index = empty
lookup_entry (item x) index = item x
lookup_entry (node shift slots) index =
    let below = lookup_entry (slots (offset_of shift index)) index in
    if shift == 0 then slots (offset_of shift index) else below

-- `radix_tree_lookup`
pub radix_tree_lookup : Entry → ℕ → Entry
radix_tree_lookup root index = if ltb (max_index root) index then empty else lookup_entry root index

-- The loop of `radix_tree_extend` on fuel, from `n` levels: those that the index needs.
pub extend : ℕ → ℕ → ℕ → ℕ
extend zero n index = n
extend (suc fuel) n index =
    let more = extend fuel (suc n) index in if ltb (shift_maxindex (6 * n)) index then more else n

-- A stored item with the new tree, `-EEXIST`, or the panic of a tree that would have to grow.
pub data Insert : Type 0 where
  stored : Entry → Insert
  exists cannot_grow : Insert

-- The slot of a node is written back.
pub in_slot : ℕ → (ℕ → Entry) → ℕ → Insert → Insert
in_slot shift slots offset (stored e) = stored (node shift (update slots offset e))
in_slot shift slots offset exists = exists
in_slot shift slots offset cannot_grow = cannot_grow

-- The loop of `__radix_tree_create` from a slot with `n` levels to go, then `insert_entries`. A
-- missing node is allocated with empty slots; the allocator does not fail.
pub insert_slot : ℕ → Entry → ℕ → ℕ → Insert
insert_slot zero empty index x = stored (item x)
insert_slot zero _ index x = exists
insert_slot (suc n) (item y) index x = exists
insert_slot (suc n) empty index x =
    in_slot (6 * n) (λ i. empty) (offset_of (6 * n) index) (insert_slot n empty index x)
insert_slot (suc n) (node shift slots) index x =
    in_slot shift slots (offset_of shift index)
      (insert_slot n (slots (offset_of shift index)) index x)

-- `radix_tree_insert`; the `BUG_ON` of an internal node is in the type of the item.
pub radix_tree_insert : Entry → ℕ → ℕ → Insert
radix_tree_insert root index x =
    if ltb (max_index root) index
    then elim root [ empty ↦ insert_slot (suc (extend 11 0 index)) empty index x | _ ↦ cannot_grow ]
    else insert_slot (levels root) root index x
