-- ===== src/Buddy/Blocks.antt =====
-- The free blocks of a zone: what the lists and the page fields say, and one block more or less.
use xlinux.Common.{
  ℕ, ◌+◌, ◌-◌, ◌^◌, ◌≤◌, ◌<◌, ◌≡◌, ◌≢◌, ◌⊎◌, inl, inr, true, false, ◌&&◌, List, [], ◌∷◌, ◌==◌,
  if◌then◌else◌, length, arith, Bool-cases,
}
use xlinux.Common.Counts.{count, count_le}
use xlinux.Common.Buddies.{Aligned}
use native.Mathlib.Nat.{one-le-pow}
use xlinux.Buddy.{Zone, max_order, list_del}

pub count-list_del :
    (p q : ℕ) (l : List ℕ) → count q (list_del p l) ≡ count q l - (if q == p then 1 else 0)
count-list_del p q [] = ground arith
count-list_del p q (r ∷ l) = elim (Bool-cases (p == r)) [
  | inl same ↦ rw same (ground arith)
  | inr other ↦ rw other (ground (arith, count-list_del p q l))
]

pub length-list_del : (p : ℕ) (l : List ℕ) → 0 < count p l → length (list_del p l) ≡ length l - 1
length-list_del p [] h = absurd (omega arith)
length-list_del p (q ∷ l) h = elim (Bool-cases (p == q)) [
  | inl same ↦ rw same (ground arith)
  | inr other ↦ rw other (ground (arith, length-list_del p l (ground arith), count_le p l))
]

-- The free block that starts at a page.
abbrev pub IsBlock : Zone → ℕ → Type 0
IsBlock z p = z.buddy p ≡ true

abbrev pub end_of : Zone → ℕ → ℕ
end_of z p = p + 2 ^ z.page_order p

-- A page that lies in a free block.
abbrev pub IsFree : Zone → ℕ → Type 0
IsFree z x = (p : ℕ) × IsBlock z p × (p ≤ x) × (x < end_of z p)

-- A well-formed zone: each list holds exactly the blocks of its order, once, and its length is
-- recorded; blocks are aligned and do not overlap.
pub record WellFormed (z : Zone) : Type 0 where
  pub lists :
      (order p : ℕ)
      → count p (z.free_list order) ≡ (if z.buddy p && (z.page_order p == order) then 1 else 0)
  pub lengths : (order : ℕ) → z.nr_free order ≡ length (z.free_list order)
  pub small : (p : ℕ) → IsBlock z p → z.page_order p < max_order
  pub aligned : (p : ℕ) → IsBlock z p → Aligned (z.page_order p) p
  pub apart : (p q : ℕ) → IsBlock z p → IsBlock z q → p ≢ q → (end_of z p ≤ q) ⊎ (end_of z q ≤ p)

-- No free block overlaps the block of the order at the page.
abbrev pub IsClear : Zone → ℕ → ℕ → Type 0
IsClear z p order = (q : ℕ) → IsBlock z q → (end_of z q ≤ p) ⊎ (p + 2 ^ order ≤ q)

-- A block that is clear is not yet listed.
pub IsClear-unlisted : (z : Zone) (p order : ℕ) → IsClear z p order → z.buddy p ≡ false
IsClear-unlisted z p order c = elim (Bool-cases (z.buddy p)) [
  | inl listed ↦
      let h = c p listed in
      absurd (grind (arith, one-le-pow (z.page_order p) 2, one-le-pow order 2))
  | inr unlisted ↦ unlisted
]
