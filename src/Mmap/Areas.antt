-- ===== src/Mmap/Areas.antt =====
-- mm/mmap.c: areas in order and apart.
use xlinux.Common.{ℕ, ◌≤◌, ◌<◌, ◌++◌, List, [], ◌∷◌, arith}
use xlinux.Mmap.{Vma}

-- Areas from a bound on, in order and apart.
abbrev pub Sorted : ℕ → List Vma → Type 0
Sorted low [] = low ≤ low
Sorted low (v ∷ l) = (low ≤ v.vm_start) × (v.vm_start < v.vm_end) × Sorted v.vm_end l

-- All end at an address or below, or start at it or above.
abbrev pub EndBelow : ℕ → List Vma → Type 0
EndBelow addr [] = addr ≤ addr
EndBelow addr (v ∷ l) = (v.vm_end ≤ addr) × EndBelow addr l

abbrev pub StartAbove : ℕ → List Vma → Type 0
StartAbove addr [] = addr ≤ addr
StartAbove addr (v ∷ l) = (addr ≤ v.vm_start) × StartAbove addr l

pub Sorted-StartAbove : (low a : ℕ) (l : List Vma) → a ≤ low → Sorted low l → StartAbove a l
Sorted-StartAbove low a [] h s = omega arith
Sorted-StartAbove low a (v ∷ l) h (p, q, s) =
    (omega arith, Sorted-StartAbove v.vm_end a l (omega arith) s)

pub EndBelow-append :
    (a : ℕ) (xs ys : List Vma) → EndBelow a xs → EndBelow a ys → EndBelow a (xs ++ ys)
EndBelow-append a [] ys p q = q
EndBelow-append a (v ∷ xs) ys (p, p') q = (p, EndBelow-append a xs ys p' q)

pub EndBelow-le : (a b : ℕ) (xs : List Vma) → a ≤ b → EndBelow a xs → EndBelow b xs
EndBelow-le a b [] h p = omega arith
EndBelow-le a b (v ∷ xs) h (p, p') = (omega arith, EndBelow-le a b xs h p')

-- Around an area of a sorted list.
pub Sorted-split :
    (low : ℕ) (xs : List Vma) (v : Vma) (ys : List Vma)
    → Sorted low (xs ++ (v ∷ ys))
    → EndBelow v.vm_start xs × (v.vm_start < v.vm_end) × Sorted v.vm_end ys × (low ≤ v.vm_start)
Sorted-split low [] v ys (p, q, s) = (omega arith, q, s, p)
Sorted-split low (x ∷ xs) v ys (p, q, s) =
    let (below, room, rest, le) = Sorted-split x.vm_end xs v ys s in
    ((le, below), room, rest, omega arith)

-- A new area between those below and those above.
pub Sorted-insert :
    (low : ℕ) (xs : List Vma) (v : Vma) (ys : List Vma)
    → Sorted low (xs ++ ys)
    → EndBelow v.vm_start xs
    → StartAbove v.vm_end ys
    → v.vm_start < v.vm_end
    → low ≤ v.vm_start
    → Sorted low (xs ++ (v ∷ ys))
Sorted-insert low [] v ys s below above room le = (le, room, rebase low v.vm_end ys s above)
  where
    rebase : (a b : ℕ) (l : List Vma) → Sorted a l → StartAbove b l → Sorted b l
    rebase a b [] s h = omega arith
    rebase a b (x ∷ l) (p, q, s) (h, h') = (h, q, s)
Sorted-insert low (x ∷ xs) v ys (p, q, s) (b, below) above room le =
    (p, q, Sorted-insert x.vm_end xs v ys s below above room b)
