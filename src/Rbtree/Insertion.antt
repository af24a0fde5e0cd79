-- ===== src/Rbtree/Insertion.antt =====
-- rbtree/rbtree.c: an insertion keeps the order and the balance.
use xlinux.Common.{ℕ, suc, refl, sym, List}
use mathlib.Core.List.{append_assoc, append-nil}
use xlinux.Rbtree.{Color, Tree, Step, rotate, black_parent, red_children, rb_insert}
use xlinux.Rbtree.Shape.{Balanced, Hole}
use xlinux.Rbtree.Rotations.{
  Inserted, flipped, done, rotated_left_left, rotated_left_right, rotated_right_left,
  rotated_right_right,
}

module _ {A : Type 0} where
  -- At the position of a balanced subtree with a black root or none, where the red node with two
  -- such children of that height stands, the loop of `__rb_insert` returns a tree: it has the
  -- items in order, those of the node at their place, and is balanced.
  pub rb_insert-Inserted :
      (n : ℕ) (path : List (Step A)) (l : Tree A) (x : A) (r : Tree A)
      → Hole Color.black n path
      → Balanced Color.black n l
      → Balanced Color.black n r
      → (t : Tree A) × Inserted path l x r t
  unfolding rb_insert rotate black_parent red_children
  rb_insert-Inserted n _ l x r (Hole.root _) bl br = (
    Tree.node Color.black l x r,
    record {
      run = refl;
      order = sym (append-nil _);
      balance = (suc n, Balanced.black_root Color.black Color.black n l r x bl br);
    },
  )
  rb_insert-Inserted n _ l x r (Hole.black_left _ cr _ px pr up b h) bl br =
      done (Step.left_of Color.black px pr) up n l x r (Hole.black_left Color.red cr n px pr up b h)
        bl br refl
  rb_insert-Inserted n _ l x r (Hole.black_right _ cl _ px pl up b h) bl br =
      done (Step.right_of Color.black px pl) up n l x r
        (Hole.black_right Color.red cl n px pl up b h) bl br refl
  rb_insert-Inserted n _ l x r
        (Hole.red_left _ px pr _ bp
          (Hole.black_left _ cu _ gx _ up (Balanced.red_root _ ul ur ux bul bur) h))
        bl br =
      flipped (Step.left_of Color.red px pr)
        (Step.left_of Color.black gx (Tree.node Color.red ul ux ur)) up l x r
        (black_parent (Step.left_of Color.red px pr) (Tree.node Color.red l x r)) gx
        (Tree.node Color.black ul ux ur) refl (simp append_assoc refl)
        (rb_insert-Inserted (suc n) up
          (black_parent (Step.left_of Color.red px pr) (Tree.node Color.red l x r)) gx
          (Tree.node Color.black ul ux ur) h
          (Balanced.black_root Color.red Color.black n (Tree.node Color.red l x r) pr px
            (Balanced.red_root n l r x bl br) bp)
          (Balanced.black_root Color.black Color.black n ul ur ux bul bur))
  rb_insert-Inserted _ _ l x r
        (Hole.red_left _ px pr _ bp (Hole.black_left _ cu _ gx _ up Balanced.null h)) bl br =
      rotated_left_left 0 l x r px pr gx Tree.leaf up refl Balanced.null bp h bl br
  rb_insert-Inserted _ _ l x r
        (Hole.red_left _ px pr _ bp
          (Hole.black_left _ cu _ gx _ up (Balanced.black_root cl cr n ul ur ux bul bur) h))
        bl br =
      rotated_left_left (suc n) l x r px pr gx (Tree.node Color.black ul ux ur) up refl
        (Balanced.black_root cl cr n ul ur ux bul bur) bp h bl br
  rb_insert-Inserted n _ l x r
        (Hole.red_left _ px pr _ bp
          (Hole.black_right _ cu _ gx _ up (Balanced.red_root _ ul ur ux bul bur) h))
        bl br =
      flipped (Step.left_of Color.red px pr)
        (Step.right_of Color.black gx (Tree.node Color.red ul ux ur)) up l x r
        (Tree.node Color.black ul ux ur) gx
        (black_parent (Step.left_of Color.red px pr) (Tree.node Color.red l x r)) refl
        (simp append_assoc refl)
        (rb_insert-Inserted (suc n) up (Tree.node Color.black ul ux ur) gx
          (black_parent (Step.left_of Color.red px pr) (Tree.node Color.red l x r)) h
          (Balanced.black_root Color.black Color.black n ul ur ux bul bur)
          (Balanced.black_root Color.red Color.black n (Tree.node Color.red l x r) pr px
            (Balanced.red_root n l r x bl br) bp))
  rb_insert-Inserted _ _ l x r
        (Hole.red_left _ px pr _ bp (Hole.black_right _ cu _ gx _ up Balanced.null h)) bl br =
      rotated_left_right 0 l x r px pr gx Tree.leaf up refl Balanced.null bp h bl br
  rb_insert-Inserted _ _ l x r
        (Hole.red_left _ px pr _ bp
          (Hole.black_right _ cu _ gx _ up (Balanced.black_root cl cr n ul ur ux bul bur) h))
        bl br =
      rotated_left_right (suc n) l x r px pr gx (Tree.node Color.black ul ux ur) up refl
        (Balanced.black_root cl cr n ul ur ux bul bur) bp h bl br
  rb_insert-Inserted n _ l x r
        (Hole.red_right _ px pl _ bp
          (Hole.black_left _ cu _ gx _ up (Balanced.red_root _ ul ur ux bul bur) h))
        bl br =
      flipped (Step.right_of Color.red px pl)
        (Step.left_of Color.black gx (Tree.node Color.red ul ux ur)) up l x r
        (black_parent (Step.right_of Color.red px pl) (Tree.node Color.red l x r)) gx
        (Tree.node Color.black ul ux ur) refl (simp append_assoc refl)
        (rb_insert-Inserted (suc n) up
          (black_parent (Step.right_of Color.red px pl) (Tree.node Color.red l x r)) gx
          (Tree.node Color.black ul ux ur) h
          (Balanced.black_root Color.black Color.red n pl (Tree.node Color.red l x r) px bp
            (Balanced.red_root n l r x bl br))
          (Balanced.black_root Color.black Color.black n ul ur ux bul bur))
  rb_insert-Inserted _ _ l x r
        (Hole.red_right _ px pl _ bp (Hole.black_left _ cu _ gx _ up Balanced.null h)) bl br =
      rotated_right_left 0 l x r px pl gx Tree.leaf up refl Balanced.null bp h bl br
  rb_insert-Inserted _ _ l x r
        (Hole.red_right _ px pl _ bp
          (Hole.black_left _ cu _ gx _ up (Balanced.black_root cl cr n ul ur ux bul bur) h))
        bl br =
      rotated_right_left (suc n) l x r px pl gx (Tree.node Color.black ul ux ur) up refl
        (Balanced.black_root cl cr n ul ur ux bul bur) bp h bl br
  rb_insert-Inserted n _ l x r
        (Hole.red_right _ px pl _ bp
          (Hole.black_right _ cu _ gx _ up (Balanced.red_root _ ul ur ux bul bur) h))
        bl br =
      flipped (Step.right_of Color.red px pl)
        (Step.right_of Color.black gx (Tree.node Color.red ul ux ur)) up l x r
        (Tree.node Color.black ul ux ur) gx
        (black_parent (Step.right_of Color.red px pl) (Tree.node Color.red l x r)) refl
        (simp append_assoc refl)
        (rb_insert-Inserted (suc n) up (Tree.node Color.black ul ux ur) gx
          (black_parent (Step.right_of Color.red px pl) (Tree.node Color.red l x r)) h
          (Balanced.black_root Color.black Color.black n ul ur ux bul bur)
          (Balanced.black_root Color.black Color.red n pl (Tree.node Color.red l x r) px bp
            (Balanced.red_root n l r x bl br)))
  rb_insert-Inserted _ _ l x r
        (Hole.red_right _ px pl _ bp (Hole.black_right _ cu _ gx _ up Balanced.null h)) bl br =
      rotated_right_right 0 l x r px pl gx Tree.leaf up refl Balanced.null bp h bl br
  rb_insert-Inserted _ _ l x r
        (Hole.red_right _ px pl _ bp
          (Hole.black_right _ cu _ gx _ up (Balanced.black_root cl cr n ul ur ux bul bur) h))
        bl br =
      rotated_right_right (suc n) l x r px pl gx (Tree.node Color.black ul ux ur) up refl
        (Balanced.black_root cl cr n ul ur ux bul bur) bp h bl br
