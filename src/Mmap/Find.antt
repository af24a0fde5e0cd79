-- ===== src/Mmap/Find.antt =====
-- mm/mmap.c: the search for the first area that ends above an address.
use xlinux.Common.{
  ℕ, ◌≤◌, ◌≡◌, ◌++◌, List, [], ◌∷◌, Option, some, true, false, ltb, leb, if◌then◌else◌, arith, refl,
  ap, sym, ◌∙◌, inl, inr, Bool-cases,
}
use xlinux.Rbtree.{Tree}
use xlinux.Rbtree.Shape.{items}
use xlinux.Mmap.{Vma, find_vma}
use xlinux.Mmap.Areas.{Sorted, EndBelow, Sorted-split}

-- The first area of a list that ends above the address, or what is given.
unfoldable pub first_above : ℕ → List Vma → Option Vma → Option Vma
first_above addr [] default = default
first_above addr (v ∷ l) default =
    let rest = first_above addr l default in if ltb addr v.vm_end then some v else rest

first_above-append :
    (addr : ℕ) (xs ys : List Vma) (d : Option Vma)
    → first_above addr (xs ++ ys) d ≡ first_above addr xs (first_above addr ys d)
unfolding first_above
first_above-append addr [] ys d = refl
first_above-append addr (v ∷ xs) ys d =
    ap (λ r. if ltb addr v.vm_end then some v else r) (first_above-append addr xs ys d)

first_above-skip :
    (addr a : ℕ) (xs : List Vma) (d : Option Vma)
    → EndBelow a xs
    → a ≤ addr
    → first_above addr xs d ≡ d
unfolding first_above
first_above-skip addr a [] d b h = refl
first_above-skip addr a (v ∷ xs) d (p, b) h =
    let low : ltb addr v.vm_end ≡ false = ground arith in
    ap (λ t. if t then some v else first_above addr xs d) low ∙ first_above-skip addr a xs d b h

first_above-here :
    (addr : ℕ) (v : Vma) (l : List Vma) (d : Option Vma)
    → ltb addr v.vm_end ≡ true
    → first_above addr (v ∷ l) d ≡ some v
unfolding first_above
first_above-here addr v l d e = ap (λ t. if t then some v else first_above addr l d) e

first_above-below :
    (addr : ℕ) (v : Vma) (l : List Vma) (d : Option Vma)
    → ltb addr v.vm_end ≡ false
    → first_above addr (v ∷ l) d ≡ first_above addr l d
unfolding first_above
first_above-below addr v l d e = ap (λ t. if t then some v else first_above addr l d) e

Sorted-left :
    (low : ℕ) (xs : List Vma) (v : Vma) (ys : List Vma)
    → Sorted low (xs ++ (v ∷ ys))
    → Sorted low xs
Sorted-left low [] v ys s = omega arith
Sorted-left low (x ∷ xs) v ys (p, q, s) = (p, q, Sorted-left x.vm_end xs v ys s)

-- On a tree of areas in order, `find_vma` returns the first area that ends above the address; where
-- there is none it returns what its variable held before.
pub find_vma-first_above :
    (low : ℕ) (t : Tree Vma) (addr : ℕ) (d : Option Vma)
    → Sorted low (items t)
    → find_vma t addr d ≡ first_above addr (items t) d
unfolding find_vma first_above
find_vma-first_above low Tree.leaf addr d s = refl
find_vma-first_above low (Tree.node color l v r) addr d s =
    let (below, room, upper, le) = Sorted-split low (items l) v (items r) s in
    let append = first_above-append addr (items l) (v ∷ items r) d in
    elim (Bool-cases (ltb addr v.vm_end)) [
      | inl ends_above ↦
          let here = first_above-here addr v (items r) d ends_above in
          elim (Bool-cases (leb v.vm_start addr)) [
            | inl inside ↦
                rw (ends_above, inside)
                  (sym (
                    append
                    ∙ ap (first_above addr (items l)) here
                    ∙ first_above-skip addr v.vm_start (items l) (some v) below
                        (ground (arith, inside))))
            | inr before ↦
                rw (ends_above, before)
                  (find_vma-first_above low l addr (some v)
                      (Sorted-left low (items l) v (items r) s)
                    ∙ ap (first_above addr (items l)) (sym here)
                    ∙ sym append)
          ]
      | inr ends_below ↦ rw ends_below (
          find_vma-first_above v.vm_end r addr d upper
          ∙ sym (
              append
              ∙ first_above-skip addr v.vm_start (items l) _ below
                  (ground (arith, ends_below, room))
              ∙ first_above-below addr v (items r) d ends_below))
    ]
