-- ===== src/Rbtree/Rotations.antt =====
-- rbtree/rbtree.c: the steps of an insertion, where the uncle is red and where it is not.
use xlinux.Common.{ℕ, suc, ◌≡◌, refl, sym, ◌∙◌, none, some, List, [], ◌∷◌, ◌++◌}
use mathlib.Core.List.{append_assoc, append-nil}
use xlinux.Rbtree.{Color, Tree, Step, plug, blacken, rotate, red_children, rb_insert}
use xlinux.Rbtree.Shape.{Balanced, Hole, items, before, after, plug-Balanced}

module _ {A : Type 0} where
  plug-items :
      (t : Tree A) (path : List (Step A))
      → items (plug t path) ≡ before path ++ (items t ++ after path)
  plug-items t [] = sym (append-nil (items t))
  plug-items t (Step.left_of color x r ∷ up) =
      plug-items (Tree.node color t x r) up ∙ simp append_assoc refl
  plug-items t (Step.right_of color x l ∷ up) =
      plug-items (Tree.node color l x t) up ∙ simp append_assoc refl

  blacken-items : (t : Tree A) → items (blacken t) ≡ items t
  unfolding blacken
  blacken-items Tree.leaf = refl
  blacken-items (Tree.node color l x r) = refl

  blacken-Balanced :
      (n : ℕ) (t : Tree A) → Balanced Color.black n t → Balanced Color.black n (blacken t)
  unfolding blacken
  blacken-Balanced _ _ Balanced.null = Balanced.null
  blacken-Balanced _ _ (Balanced.black_root cl cr n l r x bl br) =
      Balanced.black_root cl cr n l r x bl br

  -- The tree that an insertion returns: the items in order with the new one at its place, and
  -- balanced.
  pub record Inserted (path : List (Step A)) (l : Tree A) (x : A) (r : Tree A) (t : Tree A)
      : Type 0 where
    pub run : rb_insert path l x r ≡ some t
    pub order : items t ≡ before path ++ ((items l ++ (x ∷ items r)) ++ after path)
    pub balance : (m : ℕ) × Balanced Color.black m t

  abbrev pub Result : List (Step A) → Tree A → A → Tree A → Type 0
  Result path l x r = (t : Tree A) × Inserted path l x r t

  -- The position two levels up takes a tree with the same items, black and one higher.
  plugged :
      (p g : Step A) (up : List (Step A)) (n : ℕ) (l : Tree A) (x : A) (r t : Tree A)
      → Hole Color.black (suc n) up
      → Balanced Color.black (suc n) t
      → rb_insert (p ∷ g ∷ up) l x r ≡ some (plug t up)
      → before up ++ (items t ++ after up)
        ≡ before (p ∷ g ∷ up) ++ ((items l ++ (x ∷ items r)) ++ after (p ∷ g ∷ up))
      → Result (p ∷ g ∷ up) l x r
  plugged p g up n l x r t h b run order = (
    plug t up,
    record {
      run = run;
      order = plug-items t up ∙ order;
      balance = plug-Balanced Color.black (suc n) t up h b;
    },
  )

  -- The recursion at the grandparent.
  pub flipped :
      (p g : Step A) (up : List (Step A)) (l : Tree A) (x : A) (r l' : Tree A) (x' : A)
      (r' : Tree A)
      → rb_insert (p ∷ g ∷ up) l x r ≡ rb_insert up l' x' r'
      → before up ++ ((items l' ++ (x' ∷ items r')) ++ after up)
        ≡ before (p ∷ g ∷ up) ++ ((items l ++ (x ∷ items r)) ++ after (p ∷ g ∷ up))
      → Result up l' x' r'
      → Result (p ∷ g ∷ up) l x r
  flipped p g up l x r l' x' r' same order (t, i) =
      (t, record { run = same ∙ i.run; order = i.order ∙ order; balance = i.balance })

  -- The node replaces a black position below a black parent.
  pub done :
      (p : Step A) (up : List (Step A)) (n : ℕ) (l : Tree A) (x : A) (r : Tree A)
      → Hole Color.red n (p ∷ up)
      → Balanced Color.black n l
      → Balanced Color.black n r
      → rb_insert (p ∷ up) l x r ≡ some (plug (Tree.node Color.red l x r) (p ∷ up))
      → Result (p ∷ up) l x r
  done p up n l x r h bl br run =
      let t = Tree.node Color.red l x r in
      (
        plug t (p ∷ up),
        record {
          run = run;
          order = plug-items t (p ∷ up);
          balance = plug-Balanced Color.red n t (p ∷ up) h (Balanced.red_root n l r x bl br);
        },
      )

  pub rotated_left_left :
      (n : ℕ) (l : Tree A) (x : A) (r : Tree A) (px : A) (pr : Tree A) (gx : A) (u : Tree A)
      (up : List (Step A))
      → red_children u ≡ none
      → Balanced Color.black n u
      → Balanced Color.black n pr
      → Hole Color.black (suc n) up
      → Balanced Color.black n l
      → Balanced Color.black n r
      → Result (Step.left_of Color.red px pr ∷ Step.left_of Color.black gx u ∷ up) l x r
  unfolding rb_insert rotate
  rotated_left_left n l x r px pr gx u up no_red bu bp h bl br =
      plugged (Step.left_of Color.red px pr) (Step.left_of Color.black gx u) up n l x r
        (rotate (Step.left_of Color.red px pr) (Step.left_of Color.black gx u) l x r) h
        (Balanced.black_root Color.red Color.red n (Tree.node Color.red l x r)
          (Tree.node Color.red (blacken pr) gx u) px (Balanced.red_root n l r x bl br)
          (Balanced.red_root n (blacken pr) u gx (blacken-Balanced n pr bp) bu))
        (rw (no_red, rb_insert) refl) (simp (blacken-items pr, append_assoc) refl)

  pub rotated_left_right :
      (n : ℕ) (l : Tree A) (x : A) (r : Tree A) (px : A) (pr : Tree A) (gx : A) (u : Tree A)
      (up : List (Step A))
      → red_children u ≡ none
      → Balanced Color.black n u
      → Balanced Color.black n pr
      → Hole Color.black (suc n) up
      → Balanced Color.black n l
      → Balanced Color.black n r
      → Result (Step.left_of Color.red px pr ∷ Step.right_of Color.black gx u ∷ up) l x r
  unfolding rb_insert rotate
  rotated_left_right n l x r px pr gx u up no_red bu bp h bl br =
      plugged (Step.left_of Color.red px pr) (Step.right_of Color.black gx u) up n l x r
        (rotate (Step.left_of Color.red px pr) (Step.right_of Color.black gx u) l x r) h
        (Balanced.black_root Color.red Color.red n (Tree.node Color.red u gx (blacken l))
          (Tree.node Color.red (blacken r) px pr) x
          (Balanced.red_root n u (blacken l) gx bu (blacken-Balanced n l bl))
          (Balanced.red_root n (blacken r) pr px (blacken-Balanced n r br) bp))
        (rw (no_red, rb_insert) refl) (simp (blacken-items l, blacken-items r, append_assoc) refl)

  pub rotated_right_left :
      (n : ℕ) (l : Tree A) (x : A) (r : Tree A) (px : A) (pl : Tree A) (gx : A) (u : Tree A)
      (up : List (Step A))
      → red_children u ≡ none
      → Balanced Color.black n u
      → Balanced Color.black n pl
      → Hole Color.black (suc n) up
      → Balanced Color.black n l
      → Balanced Color.black n r
      → Result (Step.right_of Color.red px pl ∷ Step.left_of Color.black gx u ∷ up) l x r
  unfolding rb_insert rotate
  rotated_right_left n l x r px pl gx u up no_red bu bp h bl br =
      plugged (Step.right_of Color.red px pl) (Step.left_of Color.black gx u) up n l x r
        (rotate (Step.right_of Color.red px pl) (Step.left_of Color.black gx u) l x r) h
        (Balanced.black_root Color.red Color.red n (Tree.node Color.red pl px (blacken l))
          (Tree.node Color.red (blacken r) gx u) x
          (Balanced.red_root n pl (blacken l) px bp (blacken-Balanced n l bl))
          (Balanced.red_root n (blacken r) u gx (blacken-Balanced n r br) bu))
        (rw (no_red, rb_insert) refl) (simp (blacken-items l, blacken-items r, append_assoc) refl)

  pub rotated_right_right :
      (n : ℕ) (l : Tree A) (x : A) (r : Tree A) (px : A) (pl : Tree A) (gx : A) (u : Tree A)
      (up : List (Step A))
      → red_children u ≡ none
      → Balanced Color.black n u
      → Balanced Color.black n pl
      → Hole Color.black (suc n) up
      → Balanced Color.black n l
      → Balanced Color.black n r
      → Result (Step.right_of Color.red px pl ∷ Step.right_of Color.black gx u ∷ up) l x r
  unfolding rb_insert rotate
  rotated_right_right n l x r px pl gx u up no_red bu bp h bl br =
      plugged (Step.right_of Color.red px pl) (Step.right_of Color.black gx u) up n l x r
        (rotate (Step.right_of Color.red px pl) (Step.right_of Color.black gx u) l x r) h
        (Balanced.black_root Color.red Color.red n (Tree.node Color.red u gx (blacken pl))
          (Tree.node Color.red l x r) px
          (Balanced.red_root n u (blacken pl) gx bu (blacken-Balanced n pl bp))
          (Balanced.red_root n l r x bl br))
        (rw (no_red, rb_insert) refl) (simp (blacken-items pl, append_assoc) refl)
