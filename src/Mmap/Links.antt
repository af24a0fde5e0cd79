-- ===== src/Mmap/Links.antt =====
-- mm/mmap.c: the place for a new area, and its insertion.
use xlinux.Common.{
  ℕ, ◌≤◌, ◌<◌, ◌≡◌, ◌++◌, List, [], ◌∷◌, Option, none, some, ltb, arith, refl, ap, sym, ◌∙◌, inl,
  inr, Bool-cases,
}
use mathlib.Core.Path.{subst}
use mathlib.Core.List.{append_assoc, append-nil}
use xlinux.Rbtree.{Color, Tree, Step, rb_insert_color}
use xlinux.Rbtree.Shape.{Balanced, Hole, items, before, after}
use xlinux.Mmap.{Vma, find_vma_links, insert_vm_struct, link, with_offset, Inserted}
use xlinux.Rbtree.Insertion.{rb_insert-Inserted}
use xlinux.Mmap.Areas.{
  Sorted, EndBelow, StartAbove, Sorted-split, Sorted-StartAbove, EndBelow-append, EndBelow-le,
  Sorted-insert,
}

-- An area of the list overlaps the range.
pub record Overlap (addr end : ℕ) (l : List Vma) : Type 0 where
  pub xs : List Vma
  pub v : Vma
  pub ys : List Vma
  pub member : l ≡ xs ++ (v ∷ ys)
  pub starts : v.vm_start < end
  pub ends : addr < v.vm_end

-- The position of a leaf between the areas below the range and those above it.
record Place (addr end : ℕ) (all : List Vma) (path : List (Step Vma)) : Type 0 where
  hole : Hole Color.black 0 path
  around : before path ++ after path ≡ all
  below : EndBelow addr (before path)
  above : StartAbove end (after path)

data Search (addr end : ℕ) (own all : List Vma)
    : Option (Option Vma × List (Step Vma)) → Type 0 where
  overlap : Overlap addr end own → Search addr end own all none
  place :
      (prev : Option Vma) (path : List (Step Vma))
      → Place addr end all path
      → Search addr end own all (some (prev, path))

-- What is known of a subtree at a position.
record At (addr end low : ℕ) (t : Tree Vma) (path : List (Step Vma)) : Type 0 where
  sorted : Sorted low (before path ++ (items t ++ after path))
  below : EndBelow addr (before path)
  above : StartAbove end (after path)

module _ (addr end low : ℕ) where
  wider :
      (own own' all : List Vma) (r : Option (Option Vma × List (Step Vma)))
      → (Overlap addr end own → Overlap addr end own')
      → Search addr end own all r
      → Search addr end own' all r
  wider own own' all _ f (Search.overlap o) = Search.overlap (f o)
  wider own own' all _ f (Search.place prev path p) = Search.place prev path p

  module _ (color : Color) (l : Tree Vma) (v : Vma) (r : Tree Vma) (path : List (Step Vma))
      (a : At addr end low (Tree.node color l v r) path) where
    regroup :
        before path ++ (items (Tree.node color l v r) ++ after path)
        ≡ (before path ++ items l) ++ (v ∷ (items r ++ after path))
    regroup = simp append_assoc refl

    left_At : end ≤ v.vm_start → At addr end low l (Step.left_of color v r ∷ path)
    left_At h =
        let s = subst (Sorted low) regroup a.sorted in
        let (below_v, room, upper, le) =
          Sorted-split low (before path ++ items l) v (items r ++ after path) s in
        record {
          sorted = subst (Sorted low) (simp append_assoc refl) a.sorted;
          below = a.below;
          above = (h, Sorted-StartAbove v.vm_end end (items r ++ after path) (omega arith) upper);
        }

    right_At : v.vm_end ≤ addr → At addr end low r (Step.right_of color v l ∷ path)
    right_At h =
        let s = subst (Sorted low) regroup a.sorted in
        let (below_v, room, upper, le) =
          Sorted-split low (before path ++ items l) v (items r ++ after path) s in
        let lower = EndBelow-le v.vm_start addr (before path ++ items l) (omega arith) below_v in
        let both = EndBelow-append addr (before path ++ items l) (v ∷ []) lower (h, omega arith) in
        record {
          sorted = subst (Sorted low) (simp append_assoc refl) a.sorted;
          below = subst (EndBelow addr) (append_assoc (before path) (items l) (v ∷ [])) both;
          above = a.above;
        }

  module _ (color : Color) (l : Tree Vma) (v : Vma) (r : Tree Vma) (path : List (Step Vma))
      (a : At addr end low (Tree.node color l v r) path) (prev : Option Vma)
      (left : At addr end low l (Step.left_of color v r ∷ path)
        → Search addr end
            (items l)
            (before path ++ (items l ++ (v ∷ (items r ++ after path))))
            (find_vma_links l addr end prev (Step.left_of color v r ∷ path)))
      (right : At addr end low r (Step.right_of color v l ∷ path)
        → Search addr end
            (items r)
            ((before path ++ (items l ++ (v ∷ []))) ++ (items r ++ after path))
            (find_vma_links r addr end (some v) (Step.right_of color v l ∷ path))) where
    abbrev all : List Vma
    all = before path ++ ((items l ++ (v ∷ items r)) ++ after path)

    in_left : Overlap addr end (items l) → Overlap addr end (items l ++ (v ∷ items r))
    in_left o = record {
      xs = o.xs;
      v = o.v;
      ys = o.ys ++ (v ∷ items r);
      member = ap (λ k. k ++ (v ∷ items r)) o.member ∙ append_assoc o.xs (o.v ∷ o.ys) (v ∷ items r);
      starts = o.starts;
      ends = o.ends;
    }

    in_right : Overlap addr end (items r) → Overlap addr end (items l ++ (v ∷ items r))
    in_right o = record {
      xs = items l ++ (v ∷ o.xs);
      v = o.v;
      ys = o.ys;
      member =
          ap (λ k. items l ++ (v ∷ k)) o.member
          ∙ sym (append_assoc (items l) (v ∷ o.xs) (o.v ∷ o.ys));
      starts = o.starts;
      ends = o.ends;
    }

    node-Search :
        Search addr end
          (items l ++ (v ∷ items r))
          all
          (find_vma_links (Tree.node color l v r) addr end prev path)
    unfolding find_vma_links
    node-Search = elim (Bool-cases (ltb addr v.vm_end)) [
      | inr lower ↦ rw lower (
          wider (items r) (items l ++ (v ∷ items r)) all
            (find_vma_links r addr end (some v) (Step.right_of color v l ∷ path)) in_right
            (subst
              (λ k.
                Search addr end (items r) k
                  (find_vma_links r addr end (some v) (Step.right_of color v l ∷ path)))
              (simp append_assoc refl)
              (right (right_At color l v r path a (ground (arith, lower))))))
      | inl upper ↦ elim (Bool-cases (ltb v.vm_start end)) [
        | inl clash ↦
            rw (upper, clash)
              (Search.overlap (record {
                xs = items l;
                v = v;
                ys = items r;
                member = refl;
                starts = ground (arith, clash);
                ends = ground (arith, upper);
              }))
        | inr higher ↦
            rw (upper, higher)
              (wider (items l) (items l ++ (v ∷ items r)) all
                (find_vma_links l addr end prev (Step.left_of color v r ∷ path)) in_left
                (subst
                  (λ k.
                    Search addr end (items l) k
                      (find_vma_links l addr end prev (Step.left_of color v r ∷ path)))
                  (simp append_assoc refl)
                  (left (left_At color l v r path a (ground (arith, higher))))))
      ]
    ]

  search :
      (c : Color) (n : ℕ) (t : Tree Vma) (prev : Option Vma) (path : List (Step Vma))
      → Balanced c n t
      → Hole c n path
      → At addr end low t path
      → Search addr end
          (items t)
          (before path ++ (items t ++ after path))
          (find_vma_links t addr end prev path)
  unfolding find_vma_links
  search _ _ _ prev path Balanced.null h a =
      Search.place prev path (record { hole = h; around = refl; below = a.below; above = a.above })
  search _ n _ prev path (Balanced.red_root _ l r v bl br) h a =
      node-Search Color.red l v r path a prev
        (search Color.black n l prev (Step.left_of Color.red v r ∷ path) bl
          (Hole.red_left n v r path br h))
        (search Color.black n r (some v) (Step.right_of Color.red v l ∷ path) br
          (Hole.red_right n v l path bl h))
  search _ _ _ prev path (Balanced.black_root cl cr n l r v bl br) h a =
      node-Search Color.black l v r path a prev
        (search cl n l prev (Step.left_of Color.black v r ∷ path) bl
          (Hole.black_left cl cr n v r path br h))
        (search cr n r (some v) (Step.right_of Color.black v l ∷ path) br
          (Hole.black_right cr cl n v l path bl h))

-- The new area overlaps one that is there, or it is linked at its place in a balanced tree.
pub data Linking (low : ℕ) (t : Tree Vma) (vma : Vma) : Inserted → Type 0 where
  refused : Overlap vma.vm_start vma.vm_end (items t) → Linking low t vma Inserted.no_memory
  inserted :
      (t' : Tree Vma) (m : ℕ) (xs ys : List Vma)
      → Balanced Color.black m t'
      → items t ≡ xs ++ ys
      → items t' ≡ xs ++ (with_offset vma ∷ ys)
      → Sorted low (items t')
      → Linking low t vma (Inserted.linked t')

linked_at :
    (low : ℕ) (t : Tree Vma) (vma : Vma) (r : Option (Option Vma × List (Step Vma)))
    → Sorted low (items t)
    → low ≤ vma.vm_start
    → vma.vm_start < vma.vm_end
    → Search vma.vm_start vma.vm_end (items t) (items t) r
    → r ≡ find_vma_links t vma.vm_start vma.vm_end none []
    → Linking low t vma (insert_vm_struct t vma)
unfolding insert_vm_struct rb_insert_color link
linked_at low t vma _ s le room (Search.overlap o) e =
    rw (sym e, insert_vm_struct) (Linking.refused o)
linked_at low t vma _ s le room (Search.place prev path p) e =
    let (t', i) =
      rb_insert-Inserted 0 path Tree.leaf (with_offset vma) Tree.leaf p.hole Balanced.null
        Balanced.null in
    let sorted =
      Sorted-insert low (before path) (with_offset vma) (after path)
        (subst (Sorted low) (sym p.around) s) p.below p.above room le in
    rw (sym e, insert_vm_struct, i.run)
      (Linking.inserted t' i.balance.0 (before path) (after path) i.balance.1 (sym p.around) i.order
        (subst (Sorted low) (sym i.order) sorted))

-- In a balanced tree of areas in order and apart, an area that is not empty is refused with
-- `-ENOMEM` only where one of the tree overlaps it, and otherwise `insert_vm_struct` makes a tree
-- of the areas with the new one at its place, balanced, in order and apart; no branch faults.
pub insert_vm_struct-Linking :
    (low n : ℕ) (t : Tree Vma) (vma : Vma)
    → Balanced Color.black n t
    → Sorted low (items t)
    → low ≤ vma.vm_start
    → vma.vm_start < vma.vm_end
    → Linking low t vma (insert_vm_struct t vma)
insert_vm_struct-Linking low n t vma b s le room =
    linked_at low t vma (find_vma_links t vma.vm_start vma.vm_end none []) s le room
      (subst
        (λ k.
          Search vma.vm_start vma.vm_end (items t) k
            (find_vma_links t vma.vm_start vma.vm_end none []))
        (append-nil (items t))
        (search vma.vm_start vma.vm_end low Color.black n t none [] b (Hole.root n) (record {
          sorted = subst (Sorted low) (sym (append-nil (items t))) s;
          below = omega arith;
          above = omega arith;
        })))
      refl
