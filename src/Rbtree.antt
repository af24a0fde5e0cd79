-- ===== src/Rbtree.antt =====
-- rbtree/rbtree.c and include/rbtree.h: insertion into a red-black tree.
-- A position in a tree is the path from it to the root, which the parent pointers give.
pub mod Shape
pub mod Rotations
pub mod Insertion
mod Tests
use xlinux.Common.{Option, none, some, List, [], ◌∷◌, ◌++◌, Bool, true, false}

pub data Color : Type 0 where
  red : Color
  black : Color

-- A `struct rb_node` with the item that contains it; `leaf` is `NULL`.
pub data Tree (A : Type 0) : Type 0 where
  leaf : Tree A
  node : Color → Tree A → A → Tree A → Tree A

-- A step to the parent: its colour, its item and its other child.
pub data Step (A : Type 0) : Type 0 where
  left_of : Color → A → Tree A → Step A
  right_of : Color → A → Tree A → Step A

module _ {A : Type 0} where
  -- `rb_set_parent_color` with `RB_BLACK`, where the node is not `NULL`.
  pub blacken : Tree A → Tree A
  blacken Tree.leaf = Tree.leaf
  blacken (Tree.node color l x r) = Tree.node Color.black l x r

  -- The tree with a subtree at a position, `__rb_change_child`.
  abbrev pub plug : Tree A → List (Step A) → Tree A
  plug t [] = t
  plug t (Step.left_of color x r ∷ up) = plug (Tree.node color t x r) up
  plug t (Step.right_of color x l ∷ up) = plug (Tree.node color l x t) up

  -- Cases 2 and 3 of `__rb_insert`, by the steps to the parent and to the grandparent, whose other
  -- child is black.
  pub rotate : Step A → Step A → Tree A → A → Tree A → Tree A
  rotate (Step.left_of _ px pr) (Step.left_of gc gx u) l x r =
      Tree.node gc (Tree.node Color.red l x r) px (Tree.node Color.red (blacken pr) gx u)
  rotate (Step.right_of _ px pl) (Step.left_of gc gx u) l x r =
      Tree.node gc (Tree.node Color.red pl px (blacken l)) x (Tree.node Color.red (blacken r) gx u)
  rotate (Step.right_of _ px pl) (Step.right_of gc gx u) l x r =
      Tree.node gc (Tree.node Color.red u gx (blacken pl)) px (Tree.node Color.red l x r)
  rotate (Step.left_of _ px pr) (Step.right_of gc gx u) l x r =
      Tree.node gc (Tree.node Color.red u gx (blacken l)) x (Tree.node Color.red (blacken r) px pr)

  -- The parent with its children, black after case 1.
  pub black_parent : Step A → Tree A → Tree A
  black_parent (Step.left_of _ px pr) t = Tree.node Color.black t px pr
  black_parent (Step.right_of _ px pl) t = Tree.node Color.black pl px t

  -- `tmp && rb_is_red(tmp)`, with the children.
  pub red_children : Tree A → Option (Tree A × A × Tree A)
  red_children Tree.leaf = none
  red_children (Tree.node Color.black l x r) = none
  red_children (Tree.node Color.red l x r) = some (l, x, r)

  -- The loop of `__rb_insert` at a red node with its children; `none` is a red root, whose parent
  -- the code would read.
  pub rb_insert : List (Step A) → Tree A → A → Tree A → Option (Tree A)
  rb_insert [] l x r = some (Tree.node Color.black l x r)
  rb_insert (Step.left_of Color.black px pr ∷ up) l x r =
      some (plug (Tree.node Color.red l x r) (Step.left_of Color.black px pr ∷ up))
  rb_insert (Step.right_of Color.black px pl ∷ up) l x r =
      some (plug (Tree.node Color.red l x r) (Step.right_of Color.black px pl ∷ up))
  rb_insert (Step.left_of Color.red px pr ∷ []) l x r = none
  rb_insert (Step.right_of Color.red px pl ∷ []) l x r = none
  rb_insert (Step.left_of Color.red px pr ∷ Step.left_of gc gx u ∷ up) l x r =
      elim (red_children u) [
        | some (ul, ux, ur) ↦
            rb_insert up (black_parent (Step.left_of Color.red px pr) (Tree.node Color.red l x r))
              gx (Tree.node Color.black ul ux ur)
        | none ↦ some (plug (rotate (Step.left_of Color.red px pr) (Step.left_of gc gx u) l x r) up)
      ]
  rb_insert (Step.left_of Color.red px pr ∷ Step.right_of gc gx u ∷ up) l x r =
      elim (red_children u) [
        | some (ul, ux, ur) ↦
            rb_insert up (Tree.node Color.black ul ux ur) gx
              (black_parent (Step.left_of Color.red px pr) (Tree.node Color.red l x r))
        | none ↦
            some (plug (rotate (Step.left_of Color.red px pr) (Step.right_of gc gx u) l x r) up)
      ]
  rb_insert (Step.right_of Color.red px pl ∷ Step.left_of gc gx u ∷ up) l x r =
      elim (red_children u) [
        | some (ul, ux, ur) ↦
            rb_insert up (black_parent (Step.right_of Color.red px pl) (Tree.node Color.red l x r))
              gx (Tree.node Color.black ul ux ur)
        | none ↦
            some (plug (rotate (Step.right_of Color.red px pl) (Step.left_of gc gx u) l x r) up)
      ]
  rb_insert (Step.right_of Color.red px pl ∷ Step.right_of gc gx u ∷ up) l x r =
      elim (red_children u) [
        | some (ul, ux, ur) ↦
            rb_insert up (Tree.node Color.black ul ux ur) gx
              (black_parent (Step.right_of Color.red px pl) (Tree.node Color.red l x r))
        | none ↦
            some (plug (rotate (Step.right_of Color.red px pl) (Step.right_of gc gx u) l x r) up)
      ]

  -- `rb_link_node` and `rb_insert_color`: a new item at the position of a leaf.
  unfoldable pub rb_insert_color : List (Step A) → A → Option (Tree A)
  rb_insert_color path x = rb_insert path Tree.leaf x Tree.leaf

  -- `rb_first`: the leftmost item.
  pub leftmost : A → Tree A → A
  leftmost x Tree.leaf = x
  leftmost x (Tree.node color l y r) = leftmost y l

  pub rb_first : Tree A → Option A
  rb_first Tree.leaf = none
  rb_first (Tree.node color l x r) = some (leftmost x l)
