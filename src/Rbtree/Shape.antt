-- ===== src/Rbtree/Shape.antt =====
-- rbtree/rbtree.c: the order of the items of a tree and its balance.
use xlinux.Common.{ℕ, suc, List, [], ◌∷◌, ◌++◌}
use xlinux.Rbtree.{Color, Tree, Step, plug}

-- A tree whose paths from the root have `n` black nodes each, and no red node above a red one.
pub data Balanced {A : Type 0} : Color → ℕ → Tree A → Type 0 where
  null : Balanced Color.black 0 Tree.leaf
  red_root :
      (n : ℕ) (l r : Tree A) (x : A)
      → Balanced Color.black n l
      → Balanced Color.black n r
      → Balanced Color.red n (Tree.node Color.red l x r)
  black_root :
      (cl cr : Color) (n : ℕ) (l r : Tree A) (x : A)
      → Balanced cl n l
      → Balanced cr n r
      → Balanced Color.black (suc n) (Tree.node Color.black l x r)

-- A position at which a balanced subtree of the colour and the height makes the tree balanced.
pub data Hole {A : Type 0} : Color → ℕ → List (Step A) → Type 0 where
  root : (n : ℕ) → Hole Color.black n []
  red_left :
      (n : ℕ) (x : A) (r : Tree A) (up : List (Step A))
      → Balanced Color.black n r
      → Hole Color.red n up
      → Hole Color.black n (Step.left_of Color.red x r ∷ up)
  red_right :
      (n : ℕ) (x : A) (l : Tree A) (up : List (Step A))
      → Balanced Color.black n l
      → Hole Color.red n up
      → Hole Color.black n (Step.right_of Color.red x l ∷ up)
  black_left :
      (c cr : Color) (n : ℕ) (x : A) (r : Tree A) (up : List (Step A))
      → Balanced cr n r
      → Hole Color.black (suc n) up
      → Hole c n (Step.left_of Color.black x r ∷ up)
  black_right :
      (c cl : Color) (n : ℕ) (x : A) (l : Tree A) (up : List (Step A))
      → Balanced cl n l
      → Hole Color.black (suc n) up
      → Hole c n (Step.right_of Color.black x l ∷ up)

module _ {A : Type 0} where
  -- The items in order: of a tree, and of what stands before and after a position.
  abbrev pub items : Tree A → List A
  items Tree.leaf = []
  items (Tree.node color l x r) = items l ++ (x ∷ items r)

  abbrev pub before : List (Step A) → List A
  before [] = []
  before (Step.left_of color x r ∷ up) = before up
  before (Step.right_of color x l ∷ up) = before up ++ (items l ++ (x ∷ []))

  abbrev pub after : List (Step A) → List A
  after [] = []
  after (Step.left_of color x r ∷ up) = x ∷ (items r ++ after up)
  after (Step.right_of color x l ∷ up) = after up

  pub plug-Balanced :
      (c : Color) (n : ℕ) (t : Tree A) (path : List (Step A))
      → Hole c n path
      → Balanced c n t
      → (m : ℕ) × Balanced Color.black m (plug t path)
  plug-Balanced _ n t _ (Hole.root _) b = (n, b)
  plug-Balanced _ n t _ (Hole.red_left _ x r up o h) b =
      plug-Balanced Color.red n (Tree.node Color.red t x r) up h (Balanced.red_root n t r x b o)
  plug-Balanced _ n t _ (Hole.red_right _ x l up o h) b =
      plug-Balanced Color.red n (Tree.node Color.red l x t) up h (Balanced.red_root n l t x o b)
  plug-Balanced c n t _ (Hole.black_left _ cr _ x r up o h) b =
      plug-Balanced Color.black (suc n) (Tree.node Color.black t x r) up h
        (Balanced.black_root c cr n t r x b o)
  plug-Balanced c n t _ (Hole.black_right _ cl _ x l up o h) b =
      plug-Balanced Color.black (suc n) (Tree.node Color.black l x t) up h
        (Balanced.black_root cl c n l t x o b)
