-- ===== src/RadixTree/Slots.antt =====
-- Lemmas on the descent of `__radix_tree_create` and `__radix_tree_lookup`.
use xlinux.Common.{
  ℕ, zero, suc, ◌+◌, ◌*◌, ◌/◌, ◌^◌, ◌≡◌, ◌≢◌, ◌⊎◌, inl, inr, true, false, ◌==◌, arith, refl, sym,
  ap, ◌∙◌, Bool-cases,
}
use native.Mathlib.Nat.{div-div-eq-div-mul}
use xlinux.Common.Bits.{pow-add_lem}
use xlinux.Common.Tables.{update, update_same}
use xlinux.RadixTree.{
  Entry, empty, item, node, offset_of, lookup_entry, Insert, stored, exists, in_slot, insert_slot,
}

-- A tree of `n` levels: nodes carry the shift of their level, and items stand at the bottom.
abbrev pub Fits : ℕ → Entry → Type 0
Fits n empty = Unit {0}
Fits zero (item x) = Unit {0}
Fits (suc n) (item x) = ⊥
Fits zero (node shift slots) = ⊥
Fits (suc n) (node shift slots) = (shift ≡ 6 * n) × ((i : ℕ) → Fits n (slots i))

-- The part of an index above the levels.
abbrev pub above : ℕ → ℕ → ℕ
above n index = index / 2 ^ (6 * n)

above_suc : (n index : ℕ) → above (suc n) index ≡ above n index / 64
above_suc n index =
    let e : 6 * suc n ≡ 6 * n + 6 = omega arith in
    rw (e, pow-add_lem (6 * n) 6) (sym (div-div-eq-div-mul index (2 ^ (6 * n)) 64))

-- What an insertion below a slot comes to.
pub data Inserted (n : ℕ) (e : Entry) (index x : ℕ) : Insert → Type 0 where
  placed :
      (e' : Entry)
      → Fits n e'
      → lookup_entry e index ≡ empty
      → lookup_entry e' index ≡ item x
      → ((j : ℕ) → above n j ≡ above n index → j ≢ index → lookup_entry e' j ≡ lookup_entry e j)
      → Inserted n e index x (stored e')
  occupied : (y : ℕ) → lookup_entry e index ≡ item y → Inserted n e index x exists

-- At the bottom a slot is its own entry.
bottom : (e : Entry) (j : ℕ) → Fits 0 e → lookup_entry e j ≡ e
unfolding lookup_entry
bottom empty j f = refl
bottom (item x) j f = refl
bottom (node shift slots) j f = absurd f

-- One node above a slot.
lookup_entry-node :
    (n shift : ℕ) (slots : ℕ → Entry) (j : ℕ)
    → shift ≡ 6 * n
    → ((i : ℕ) → Fits n (slots i))
    → lookup_entry (node shift slots) j ≡ lookup_entry (slots (offset_of shift j)) j
unfolding lookup_entry
lookup_entry-node zero shift slots j e fits =
    let last : (shift == 0) ≡ true = ground arith in
    rw last (sym (bottom (slots (offset_of shift j)) j (fits (offset_of shift j))))
lookup_entry-node (suc n) shift slots j e fits =
    let inner : (shift == 0) ≡ false = ground arith in rw inner refl

same_above :
    (n j index : ℕ)
    → above (suc n) j ≡ above (suc n) index
    → offset_of (6 * n) j ≡ offset_of (6 * n) index
    → above n j ≡ above n index
unfolding offset_of
same_above n j index e f = omega (arith, above_suc n j, above_suc n index)

in_slot-Inserted :
    (n shift : ℕ) (slots : ℕ → Entry) (index x : ℕ) (r : Insert)
    → shift ≡ 6 * n
    → ((i : ℕ) → Fits n (slots i))
    → Inserted n (slots (offset_of shift index)) index x r
    → Inserted (suc n) (node shift slots) index x (in_slot shift slots (offset_of shift index) r)
unfolding in_slot
in_slot-Inserted n shift slots index x _ e fits (occupied y held) =
    occupied y (lookup_entry-node n shift slots index e fits ∙ held)
in_slot-Inserted n shift slots index x _ e fits (placed e' fits' before after others) =
    placed (node shift slots') (e, new_fits) (lookup_entry-node n shift slots index e fits ∙ before)
      (lookup_entry-node n shift slots' index e new_fits
        ∙ ap (λ s. lookup_entry s index) (update_same slots (offset_of shift index) e')
        ∙ after)
      unchanged
  where
    slots' : ℕ → Entry
    slots' = update slots (offset_of shift index) e'

    new_fits : (i : ℕ) → Fits n (slots' i)
    new_fits i = elim (Bool-cases (i == offset_of shift index)) [
      | inl same ↦ rw same fits'
      | inr other ↦ rw other (fits i)
    ]

    unchanged :
        (j : ℕ)
        → above (suc n) j ≡ above (suc n) index
        → j ≢ index
        → lookup_entry (node shift slots') j ≡ lookup_entry (node shift slots) j
    unchanged j up ne =
        lookup_entry-node n shift slots' j e new_fits
        ∙ at (Bool-cases (offset_of shift j == offset_of shift index))
        ∙ sym (lookup_entry-node n shift slots j e fits)
      where
        at :
            ((offset_of shift j == offset_of shift index) ≡ true)
              ⊎ ((offset_of shift j == offset_of shift index) ≡ false)
            → lookup_entry (slots' (offset_of shift j)) j
              ≡ lookup_entry (slots (offset_of shift j)) j
        at (inl same) =
            let o : offset_of shift j ≡ offset_of shift index = ground arith in
            let level : above n j ≡ above n index =
              same_above n j index up
                (ap (λ k. offset_of k j) (sym e) ∙ o ∙ ap (λ k. offset_of k index) e) in
            ap (λ s. lookup_entry s j) (ap slots' o ∙ update_same slots (offset_of shift index) e')
            ∙ others j level ne
            ∙ ap (λ i. lookup_entry (slots i) j) (sym o)
        at (inr other) = rw other refl

-- Two trees with the same entries.
Inserted-same :
    (n : ℕ) (e f : Entry) (index x : ℕ) (r : Insert)
    → ((j : ℕ) → lookup_entry e j ≡ lookup_entry f j)
    → Inserted n e index x r
    → Inserted n f index x r
Inserted-same n e f index x _ same (occupied y held) = occupied y (sym (same index) ∙ held)
Inserted-same n e f index x _ same (placed e' fits before after others) =
    placed e' fits (sym (same index) ∙ before) after (λ j up ne. others j up ne ∙ same j)

pub insert_slot-Inserted :
    (n : ℕ) (e : Entry) (index x : ℕ) → Fits n e → Inserted n e index x (insert_slot n e index x)
unfolding insert_slot lookup_entry
insert_slot-Inserted zero empty index x f =
    placed (item x) tt refl refl (λ j up ne. absurd (ne (omega arith)))
insert_slot-Inserted zero (item y) index x f = occupied y refl
insert_slot-Inserted zero (node shift slots) index x f = absurd f
insert_slot-Inserted (suc n) (item y) index x f = absurd f
insert_slot-Inserted (suc n) empty index x f =
    Inserted-same (suc n) (node (6 * n) (λ i. empty)) empty index x _
      (λ j. lookup_entry-node n (6 * n) (λ i. empty) j refl (λ i. tt))
      (in_slot-Inserted n (6 * n) (λ i. empty) index x (insert_slot n empty index x) refl (λ i. tt)
        (insert_slot-Inserted n empty index x tt))
insert_slot-Inserted (suc n) (node shift slots) index x (e, fits) =
    in_slot-Inserted n shift slots index x (insert_slot n (slots (offset_of shift index)) index x) e
      fits
      (insert_slot-Inserted n (slots (offset_of shift index)) index x
        (fits (offset_of shift index)))
