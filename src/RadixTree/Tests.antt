-- ===== src/RadixTree/Tests.antt =====
-- A tree with two items, and the theorem on insertion there.
use xlinux.Common.{ℕ, ◌≡◌, arith, refl, ◌==◌, Bool-cases, inl, inr}
use xlinux.Common.Tables.{update}
use xlinux.RadixTree.{
  Entry, empty, item, node, Insert, stored, exists, cannot_grow, radix_tree_insert,
  radix_tree_lookup,
}
use xlinux.RadixTree.Slots.{Fits}
use xlinux.RadixTree.Insertion.{Valid, Stored, radix_tree_insert-Stored}

-- The tree behind an insertion.
abbrev tree_of : Insert → Entry
tree_of (stored e) = e
tree_of _ = empty

abbrev one : Entry
one = tree_of (radix_tree_insert empty 70 5)

runs :
    (radix_tree_lookup one 70 ≡ item 5)
    × (radix_tree_lookup one 6 ≡ empty)
    × (radix_tree_insert one 70 8 ≡ exists)
    × (radix_tree_insert one 4096 8 ≡ cannot_grow)
    × (radix_tree_lookup (tree_of (radix_tree_insert one 6 8)) 6 ≡ item 8)
unfolding radix_tree_insert xlinux.RadixTree.max_index xlinux.RadixTree.shift_maxindex
    xlinux.RadixTree.extend xlinux.RadixTree.insert_slot xlinux.RadixTree.in_slot
    xlinux.RadixTree.offset_of xlinux.RadixTree.levels radix_tree_lookup
    xlinux.RadixTree.lookup_entry
runs = (refl, refl, refl, refl, refl)

-- A tree of one level with an item at index 3.
abbrev small : Entry
small = node 0 (update (λ i. empty) 3 (item 7))

small-Valid : Valid small
small-Valid = (1, omega arith, (refl, λ i. slot-Fits i))
  where
    slot-Fits : (i : ℕ) → Fits 0 (update (λ j. empty) 3 (item 7) i)
    slot-Fits i = elim (Bool-cases (i == 3)) [ inl same ↦ rw same tt | inr other ↦ rw other tt ]

radix_tree_insert-Stored_example : Stored small 3 9 (radix_tree_insert small 3 9)
radix_tree_insert-Stored_example = radix_tree_insert-Stored small 3 9 small-Valid (omega arith)
