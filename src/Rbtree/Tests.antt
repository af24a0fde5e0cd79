-- ===== src/Rbtree/Tests.antt =====
-- rbtree/rbtree.c: runs of the insertion, and the theorems on them.
use xlinux.Common.{ℕ, ◌≡◌, refl, some, List, [], ◌∷◌}
use xlinux.Rbtree.{Color, Tree, Step, rb_insert, rb_insert_color, red_children, rotate, blacken}
use xlinux.Rbtree.Shape.{Balanced, Hole}
use xlinux.Rbtree.Rotations.{Inserted}
use xlinux.Rbtree.Insertion.{rb_insert-Inserted}

-- Below the left child 3 of the black root 5: its only child, on the right.
abbrev inner_path : List (Step ℕ)
inner_path = Step.right_of Color.red 3 Tree.leaf ∷ Step.left_of Color.black 5 Tree.leaf ∷ []

rotates_twice :
    rb_insert_color inner_path 4
    ≡ some (
        Tree.node Color.black
          (Tree.node Color.red Tree.leaf 3 Tree.leaf)
          4
          (Tree.node Color.red Tree.leaf 5 Tree.leaf))
unfolding rb_insert_color rb_insert red_children rotate blacken
rotates_twice = refl

rb_insert-Inserted_example : (t : Tree ℕ) × Inserted inner_path Tree.leaf 4 Tree.leaf t
rb_insert-Inserted_example =
    rb_insert-Inserted 0 inner_path Tree.leaf 4 Tree.leaf
      (Hole.red_right 0 3 Tree.leaf (Step.left_of Color.black 5 Tree.leaf ∷ []) Balanced.null
        (Hole.black_left Color.red Color.black 0 5 Tree.leaf [] Balanced.null (Hole.root 1)))
      Balanced.null Balanced.null
