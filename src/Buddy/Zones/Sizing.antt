-- ===== src/Buddy/Zones/Sizing.antt =====
-- buddy/buddy.c: the frames that the zones count at boot.
use xlinux.Common.{
  ℕ, ◌+◌, ◌-◌, ◌^◌, ◌≤◌, ◌<◌, ◌≡◌, inl, inr, max, false, ◌&&◌, ◌||◌, List, [], ◌∷◌, ltb, ◌==◌,
  arith, refl, ap, ◌∙◌, Bool-cases,
}
use xlinux.Buddy.Zones.{
  sub, zone_spanned_pages_in_node, absent_from, absent_pages_in_range, zone_absent_pages_in_node,
  real_size,
}
use xlinux.Memblock.Alloc.{clamp}

-- Ranges of frames between two bounds, in order and apart.
abbrev pub Ordered : ℕ → ℕ → List (ℕ × ℕ) → Type 0
Ordered low high [] = low ≤ high
Ordered low high ((s, e) ∷ l) = (low ≤ s) × (s < e) × Ordered e high l

-- How many frames the ranges have.
abbrev pub frames : List (ℕ × ℕ) → ℕ
frames [] = 0
frames ((s, e) ∷ l) = (e - s) + frames l

-- The part of them between two bounds.
abbrev pub overlaps : List (ℕ × ℕ) → ℕ → ℕ → ℕ
overlaps [] lo hi = 0
overlaps ((s, e) ∷ l) lo hi = (clamp e lo hi - clamp s lo hi) + overlaps l lo hi

pub Ordered-le : (low high : ℕ) (l : List (ℕ × ℕ)) → Ordered low high l → low ≤ high
Ordered-le low high [] h = h
Ordered-le low high ((s, e) ∷ l) (a, b, o) = let r = Ordered-le e high l o in omega arith

sub_small : (a b : ℕ) → b ≤ a → a < 2 ^ 64 → sub a b ≡ a - b
sub_small a b h top = omega arith

pub clamp_mono : (x y lo hi : ℕ) → x ≤ y → clamp x lo hi ≤ clamp y lo hi
clamp_mono x y lo hi h = omega arith

pub overlaps-le :
    (low high lo hi : ℕ) (l : List (ℕ × ℕ))
    → Ordered low high l
    → overlaps l lo hi + clamp low lo hi ≤ clamp high lo hi
overlaps-le low high lo hi [] h = omega (arith, clamp_mono low high lo hi h)
overlaps-le low high lo hi ((s, e) ∷ l) (a, b, o) =
    let rest = overlaps-le e high lo hi l o in
    let first = clamp_mono low s lo hi a in
    let inner = clamp_mono s e lo hi (omega arith) in omega (arith, rest, first, inner)

absent_from-overlaps :
    (low high lo hi nr : ℕ) (l : List (ℕ × ℕ))
    → Ordered low high l
    → hi < 2 ^ 64
    → overlaps l lo hi ≤ nr
    → nr < 2 ^ 64
    → absent_from l lo hi nr ≡ nr - overlaps l lo hi
unfolding absent_from
absent_from-overlaps low high lo hi nr [] o top h small = omega arith
absent_from-overlaps low high lo hi nr ((s, e) ∷ l) (a, b, o) top h small =
    let inner = clamp_mono s e lo hi (omega arith) in
    let d : sub (clamp e lo hi) (clamp s lo hi) ≡ clamp e lo hi - clamp s lo hi =
      sub_small (clamp e lo hi) (clamp s lo hi) inner (omega arith) in
    let n : sub nr (sub (clamp e lo hi) (clamp s lo hi)) ≡ nr - (clamp e lo hi - clamp s lo hi) =
      ap (sub nr) d ∙ sub_small nr (clamp e lo hi - clamp s lo hi) (omega arith) small in
    ap (absent_from l lo hi) n
    ∙ absent_from-overlaps e high lo hi (nr - (clamp e lo hi - clamp s lo hi)) l o top (omega arith)
        (omega arith)
    ∙ omega arith

-- Clamping between clamped bounds.
clamp_inner :
    (x ns ne lo hi : ℕ)
    → ns ≤ x
    → x ≤ ne
    → lo ≤ hi
    → clamp x (clamp ns lo hi) (clamp ne lo hi) ≡ clamp x lo hi
clamp_inner x ns ne lo hi a b h = omega arith

pub overlaps_inner :
    (low ns ne lo hi : ℕ) (l : List (ℕ × ℕ))
    → Ordered low ne l
    → ns ≤ low
    → lo ≤ hi
    → overlaps l (clamp ns lo hi) (clamp ne lo hi) ≡ overlaps l lo hi
overlaps_inner low ns ne lo hi [] o a h = refl
overlaps_inner low ns ne lo hi ((s, e) ∷ l) (p, q, o) a h =
    let below = Ordered-le e ne l o in
    omega (
      arith,
      clamp_inner s ns ne lo hi (omega arith) (omega arith) h,
      clamp_inner e ns ne lo hi (omega arith) below h,
      overlaps_inner e ns ne lo hi l o (omega arith) h,
    )

pub clamp_split :
    (x lo mid hi : ℕ) → lo ≤ mid → mid ≤ hi → clamp x lo mid + clamp x mid hi ≡ clamp x lo hi + mid
clamp_split x lo mid hi a b = omega arith

pub differences_split :
    (a b d a' b' d' m : ℕ)
    → a' ≤ a
    → b' ≤ b
    → a + b ≡ d + m
    → a' + b' ≡ d' + m
    → (a - a') + (b - b') ≡ d - d'
differences_split a b d a' b' d' m h h' e e' = omega arith

pub overlaps_split :
    (lo mid hi : ℕ) (l : List (ℕ × ℕ))
    → lo ≤ mid
    → mid ≤ hi
    → (low high : ℕ) → Ordered low high l
    → overlaps l lo mid + overlaps l mid hi ≡ overlaps l lo hi
overlaps_split lo mid hi [] a b low high o = refl
overlaps_split lo mid hi ((s, e) ∷ l) a b low high (p, q, o) =
    let first : (clamp e lo mid - clamp s lo mid) + (clamp e mid hi - clamp s mid hi)
        ≡ clamp e lo hi - clamp s lo hi =
      differences_split (clamp e lo mid) (clamp e mid hi) (clamp e lo hi) (clamp s lo mid)
        (clamp s mid hi) (clamp s lo hi) mid (clamp_mono s e lo mid (omega arith))
        (clamp_mono s e mid hi (omega arith)) (clamp_split e lo mid hi a b)
        (clamp_split s lo mid hi a b) in
    sums (clamp e lo mid - clamp s lo mid) (clamp e mid hi - clamp s mid hi) (overlaps l lo mid)
      (overlaps l mid hi)
    ∙ ap (λ (t : ℕ). t + (overlaps l lo mid + overlaps l mid hi)) first
    ∙ ap (λ (t : ℕ). (clamp e lo hi - clamp s lo hi) + t) (overlaps_split lo mid hi l a b e high o)
  where
    sums : (a b d f : ℕ) → a + d + (b + f) ≡ a + b + (d + f)
    sums a b d f = omega arith

pub overlaps_whole :
    (low high lo hi : ℕ) (l : List (ℕ × ℕ))
    → Ordered low high l
    → lo ≤ low
    → high ≤ hi
    → overlaps l lo hi ≡ frames l
overlaps_whole low high lo hi [] o a b = refl
overlaps_whole low high lo hi ((s, e) ∷ l) (p, q, o) a b =
    let below = Ordered-le e high l o in
    omega (arith, overlaps_whole e high lo hi l o (omega arith) b)

pub zone_spanned_lem :
    (lo hi ns ne : ℕ)
    → lo ≤ hi
    → ns < ne
    → hi < 2 ^ 64
    → zone_spanned_pages_in_node lo hi ns ne ≡ clamp ne lo hi - clamp ns lo hi
unfolding zone_spanned_pages_in_node
zone_spanned_lem lo hi ns ne h less top =
    let t1 : ((ns == 0) && (ne == 0)) ≡ false = ground arith in
    elim (Bool-cases (ltb (clamp ne lo hi) ns || ltb ne (clamp ns lo hi))) [
      | inl away ↦ rw (t1, away) (ground (arith, away))
      | inr near ↦ rw (t1, near) (ground (arith, near))
    ]

-- A zone counts the frames of memory between its bounds.
pub real_size_lem :
    (ranges : List (ℕ × ℕ)) (lo hi ns ne : ℕ)
    → Ordered ns ne ranges
    → lo ≤ hi
    → ns < ne
    → hi < 2 ^ 64
    → real_size ranges ns ne (lo, hi) ≡ overlaps ranges lo hi
unfolding real_size zone_absent_pages_in_node absent_pages_in_range
real_size_lem ranges lo hi ns ne o h less top =
    let t1 : ((ns == 0) && (ne == 0)) ≡ false = ground arith in
    let zs = clamp ns lo hi in
    let ze = clamp ne lo hi in
    let mono : zs ≤ ze = clamp_mono ns ne lo hi (omega arith) in
    let ze_top : ze ≤ hi = omega arith in
    let inner = overlaps_inner ns ns ne lo hi ranges o (omega arith) h in
    let most = overlaps-le ns ne lo hi ranges o in
    let size : sub ze zs ≡ ze - zs = sub_small ze zs mono (omega arith) in
    let bound : overlaps ranges zs ze ≤ ze - zs = omega (arith, inner, most) in
    let absent : absent_from ranges zs ze (sub ze zs) ≡ (ze - zs) - overlaps ranges lo hi =
      ap (absent_from ranges zs ze) size
      ∙ absent_from-overlaps ns ne zs ze (ze - zs) ranges o (omega arith) bound (omega arith)
      ∙ ap (λ (t : ℕ). (ze - zs) - t) inner in
    let bound' : overlaps ranges lo hi ≤ ze - zs = omega (arith, most) in
    rw (t1, zone_spanned_lem lo hi ns ne h less top, absent)
      (sub_small (ze - zs) ((ze - zs) - overlaps ranges lo hi) (omega arith) (omega arith)
        ∙ omega (arith, bound'))

-- The highest frame of the zones that `area_bounds` makes.
abbrev pub last_bound : ℕ → List ℕ → ℕ
last_bound start [] = start
last_bound start (m ∷ l) = last_bound (max m start) l

pub last_bound-le : (start : ℕ) (l : List ℕ) → start ≤ last_bound start l
last_bound-le start [] = omega arith
last_bound-le start (m ∷ l) = let r = last_bound-le (max m start) l in omega arith
