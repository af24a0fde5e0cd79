-- ===== src/CString/Compare.antt =====
-- `strncmp`, `strcasecmp` and `skip_spaces` on terminated texts.
use xlinux.Common.{
  ℕ, zero, suc, ◌<◌, ◌≡◌, ◌≢◌, ◌↔◌, true, false, some, [], ◌∷◌, ◌++◌, map, ltb, ◌==◌, if◌then◌else◌,
  arith, refl, Bool-cases, inl, inr,
}
use xlinux.Ctype.{isspace, tolower}
use xlinux.Ctype.Classes.{tolower_lem, ctype_classes}
use xlinux.CString.{Bytes, Order, before, same, after, strncmp, strcasecmp, skip_spaces}
use xlinux.CString.Scan.{IsText}

unfoldable pub take : ℕ → Bytes → Bytes
take zero s = []
take (suc n) [] = []
take (suc n) (b ∷ s) = b ∷ take n s

-- The dictionary order of two texts by bytes, a proper prefix first.
unfoldable pub compare_texts : Bytes → Bytes → Order
compare_texts [] [] = same
compare_texts [] (b ∷ t) = before
compare_texts (a ∷ s) [] = after
compare_texts (a ∷ s) (b ∷ t) =
    if ltb a b then before else if ltb b a then after else compare_texts s t

compare_texts-same : (s t : Bytes) → compare_texts s t ≡ same → s ≡ t
unfolding compare_texts
compare_texts-same [] [] h = refl
compare_texts-same [] (b ∷ t) h = cc
compare_texts-same (a ∷ s) [] h = cc
compare_texts-same (a ∷ s) (b ∷ t) h = ground (arith, compare_texts-same s t)

compare_texts_refl : (s : Bytes) → compare_texts s s ≡ same
unfolding compare_texts
compare_texts_refl [] = refl
compare_texts_refl (a ∷ s) = ground (arith, compare_texts_refl s)

module _ (rest rest' : Bytes) where
  strncmp-compare_texts :
      (n : ℕ) (s t : Bytes)
      → IsText s
      → IsText t
      → strncmp n (s ++ 0 ∷ rest) (t ++ 0 ∷ rest') ≡ some (compare_texts (take n s) (take n t))
  unfolding strncmp compare_texts take
  strncmp-compare_texts zero s t p q = refl
  strncmp-compare_texts (suc n) [] [] p q = refl
  strncmp-compare_texts (suc n) [] (b ∷ t) p q = ground arith
  strncmp-compare_texts (suc n) (a ∷ s) [] p q = ground arith
  strncmp-compare_texts (suc n) (a ∷ s) (b ∷ t) p q =
      ground (arith, strncmp-compare_texts n s t p.1 q.1)

  -- On terminated texts `strncmp` returns the dictionary order of the first `n` bytes of each, and
  -- 0 exactly when these are equal.
  pub strncmp-take :
      (n : ℕ) (s t : Bytes)
      → IsText s
      → IsText t
      → (o : Order) × (strncmp n (s ++ 0 ∷ rest) (t ++ 0 ∷ rest') ≡ some o)
        × (o ≡ compare_texts (take n s) (take n t))
        × ((o ≡ same) ↔ (take n s ≡ take n t))
  strncmp-take n s t p q = (
    compare_texts (take n s) (take n t),
    strncmp-compare_texts n s t p q,
    refl,
    (compare_texts-same (take n s) (take n t), λ e. rw e (compare_texts_refl (take n t))),
  )

-- Every character is a byte.
abbrev pub IsBytes : Bytes → Type 0
IsBytes [] = Unit {0}
IsBytes (b ∷ s) = (b < 256) × IsBytes s

tolower_pos : (b : ℕ) → b < 256 → b ≢ 0 → (tolower b == 0) ≡ false
tolower_pos b h ne = ground (arith, tolower_lem b h)

tolower_nul : tolower 0 ≡ 0
tolower_nul = ground (arith, tolower_lem 0)

module _ (rest rest' : Bytes) where
  -- On terminated texts of bytes `strcasecmp` returns the difference of two lowered bytes, which
  -- are equal exactly when the lowered texts are.
  pub strcasecmp-tolower :
      (s t : Bytes)
      → IsText s
      → IsBytes s
      → IsText t
      → IsBytes t
      → (c1 c2 : ℕ) × (strcasecmp (s ++ 0 ∷ rest) (t ++ 0 ∷ rest') ≡ some (c1, c2))
        × ((c1 ≡ c2) ↔ (map tolower s ≡ map tolower t))
  unfolding strcasecmp
  strcasecmp-tolower [] [] p bs q bt = (0, 0, rw tolower_nul, (λ e. refl, λ e. refl))
  strcasecmp-tolower [] (b ∷ t) p bs q bt =
      let pos = tolower_pos b bt.0 q.0 in
      (0, tolower b, rw tolower_nul (ground arith), (ground arith, λ e. cc))
  strcasecmp-tolower (a ∷ s) [] p bs q bt =
      let pos = tolower_pos a bs.0 p.0 in
      (tolower a, 0, rw tolower_nul (ground arith), (ground arith, λ e. cc))
  strcasecmp-tolower (a ∷ s) (b ∷ t) p bs q bt = elim (Bool-cases (tolower a == tolower b)) [
    | inl eq ↦
        let (c1, c2, got, iff) = strcasecmp-tolower s t p.1 bs.1 q.1 bt.1 in
        let pos = tolower_pos a bs.0 p.0 in
        (c1, c2, rw (eq, pos) got, (ground (arith, iff.0), ground (arith, iff.1)))
    | inr ne ↦ (tolower a, tolower b, rw ne, (ground arith, ground arith))
  ]

abbrev pub AllSpaces : Bytes → Type 0
AllSpaces [] = Unit {0}
AllSpaces (b ∷ s) = (isspace b ≡ true) × AllSpaces s

abbrev pub NoLeadingSpace : Bytes → Type 0
NoLeadingSpace [] = ⊥
NoLeadingSpace (b ∷ s) = isspace b ≡ false

-- `skip_spaces` drops the longest prefix of white space, and reads no byte behind the terminator.
skip_spaces-AllSpaces :
    (text rest : Bytes)
    → (front back : Bytes) × (skip_spaces (text ++ 0 ∷ rest) ≡ some back)
      × (front ++ back ≡ text ++ 0 ∷ rest)
      × AllSpaces front
      × NoLeadingSpace back
unfolding skip_spaces
skip_spaces-AllSpaces [] rest =
    let nul = (ctype_classes 0 (omega arith)).0 in ([], 0 ∷ rest, rw nul, refl, tt, nul)
skip_spaces-AllSpaces (b ∷ text) rest = elim (Bool-cases (isspace b)) [
  | inl space ↦
      let (front, back, got, whole, all, lead) = skip_spaces-AllSpaces text rest in
      (b ∷ front, back, rw (space, got), rw whole, (space, all), lead)
  | inr other ↦ ([], b ∷ (text ++ 0 ∷ rest), rw other, refl, tt, other)
]
