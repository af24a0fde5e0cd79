-- ===== src/CString/Scan.antt =====
-- The searches of lib/string.c on a terminated text.
use xlinux.Common.{
  ℕ, zero, suc, ◌+◌, ◌%◌, ◌<◌, ◌≡◌, ◌≢◌, min, Bool, true, false, Option, none, some, [], ◌∷◌, ◌++◌,
  ◌==◌, if◌then◌else◌, arith, length, refl, get_elem?, Bool-cases, inl, inr,
}
use xlinux.CString.{
  Bytes, shift, strlen, strnlen, strchr, strchrnul, strrchr_from, strrchr, is_rejected, strcspn,
}

-- The bytes of a text: none of them ends it.
abbrev pub IsText : Bytes → Type 0
IsText [] = Unit {0}
IsText (b ∷ s) = (b ≢ 0) × IsText s

-- The index of the first byte of `text` that is `c`.
unfoldable pub index_of : ℕ → Bytes → Option ℕ
index_of c [] = none
index_of c (b ∷ s) = if b == c then some 0 else shift (index_of c s)

-- The index of the last one.
unfoldable pub last_index_of : ℕ → Bytes → Option ℕ
last_index_of c [] = none
last_index_of c (b ∷ s) = elim (last_index_of c s) [
  | some i ↦ some (suc i)
  | none ↦ if b == c then some 0 else none
]

unfoldable pub or_else : Option ℕ → ℕ → ℕ
or_else none n = n
or_else (some i) n = i

module _ (rest : Bytes) where
  -- `strlen` counts the bytes before the terminator, whatever stands behind it.
  strlen-length : (text : Bytes) → IsText text → strlen (text ++ 0 ∷ rest) ≡ some (length text)
  unfolding strlen
  strlen-length [] t = refl
  strlen-length (b ∷ s) t = ground (arith, strlen-length s t.1)

  -- `strnlen` is the smaller of the length and the limit.
  strnlen-min :
      (text : Bytes) (count : ℕ)
      → IsText text
      → strnlen count (text ++ 0 ∷ rest) ≡ some (min count (length text))
  unfolding strnlen
  strnlen-min [] zero t = ground arith
  strnlen-min [] (suc count) t = ground arith
  strnlen-min (b ∷ s) zero t = ground arith
  strnlen-min (b ∷ s) (suc count) t = ground (arith, strnlen-min s count t.1)

  pub strchr-index_of :
      (c : ℕ) (text : Bytes)
      → IsText text
      → strchr c (text ++ 0 ∷ rest)
        ≡ some (if c % 256 == 0 then some (length text) else index_of (c % 256) text)
  unfolding strchr index_of
  strchr-index_of c [] t = ground arith
  strchr-index_of c (b ∷ s) t = ground (arith, strchr-index_of c s t.1)

  pub strchrnul-index_of :
      (c : ℕ) (text : Bytes)
      → IsText text
      → strchrnul c (text ++ 0 ∷ rest) ≡ some (or_else (index_of (c % 256) text) (length text))
  unfolding strchrnul index_of or_else
  strchrnul-index_of c [] t = ground arith
  strchrnul-index_of c (b ∷ s) t = ground (arith, strchrnul-index_of c s t.1)

  strrchr_from-last_index_of :
      (c i : ℕ) (last : Option ℕ) (text : Bytes)
      → IsText text
      → c % 256 ≢ 0
      → strrchr_from c i last (text ++ 0 ∷ rest)
        ≡ some (elim (last_index_of (c % 256) text) [ some k ↦ some (i + k) | none ↦ last ])
  unfolding strrchr_from last_index_of
  strrchr_from-last_index_of c i last [] t nz = ground arith
  strrchr_from-last_index_of c i last (b ∷ s) t nz =
      ground (
        arith,
        strrchr_from-last_index_of c (suc i) (if b == c % 256 then some i else last) s t.1 nz,
      )

  strrchr-last_index_of :
      (c : ℕ) (text : Bytes)
      → IsText text
      → c % 256 ≢ 0
      → strrchr c (text ++ 0 ∷ rest) ≡ some (last_index_of (c % 256) text)
  unfolding strrchr
  strrchr-last_index_of c text t nz = ground (arith, strrchr_from-last_index_of c 0 none text t nz)

-- `p` is the first place of `c` in `text`, or there is none.
abbrev pub IsFirst : ℕ → Bytes → Option ℕ → Type 0
IsFirst c text (some i) =
    (get_elem? text i ≡ some c) × ((j : ℕ) → j < i → get_elem? text j ≢ some c)
IsFirst c text none = (j : ℕ) → get_elem? text j ≢ some c

-- `p` is the last place of `c` in `text`, or there is none.
abbrev pub IsLast : ℕ → Bytes → Option ℕ → Type 0
IsLast c text (some i) = (get_elem? text i ≡ some c) × ((j : ℕ) → i < j → get_elem? text j ≢ some c)
IsLast c text none = (j : ℕ) → get_elem? text j ≢ some c

IsFirst-cons :
    (c b : ℕ) (s : Bytes) (p : Option ℕ) → b ≢ c → IsFirst c s p → IsFirst c (b ∷ s) (shift p)
IsFirst-cons c b s none ne h = λ j. elim j as (λ k. get_elem? (b ∷ s) k ≢ some c) [
  | zero ↦ λ e. ne (ground arith)
  | suc k ↦ h k
]
IsFirst-cons c b s (some i) ne h = (
  h.0,
  λ j. elim j as (λ k. k < suc i → get_elem? (b ∷ s) k ≢ some c) [
    | zero ↦ λ lt e. ne (ground arith)
    | suc k ↦ λ lt. h.1 k (omega arith)
  ],
)

index_of-IsFirst : (c : ℕ) (text : Bytes) → IsFirst c text (index_of c text)
unfolding index_of
index_of-IsFirst c [] = λ j. cc
index_of-IsFirst c (b ∷ s) = elim (Bool-cases (b == c)) [
  | inl hit ↦ rw hit (ground arith, λ j lt. absurd (omega arith))
  | inr miss ↦ rw miss (IsFirst-cons c b s _ (ground arith) (index_of-IsFirst c s))
]

last_index_of-IsLast : (c : ℕ) (text : Bytes) → IsLast c text (last_index_of c text)
unfolding last_index_of
last_index_of-IsLast c [] = λ j. cc
last_index_of-IsLast c (b ∷ s) = go (last_index_of c s) (last_index_of-IsLast c s)
  where
    go :
        (p : Option ℕ)
        → IsLast c s p
        → IsLast c
            (b ∷ s)
            (elim p [ some i ↦ some (suc i) | none ↦ if b == c then some 0 else none ])
    go (some i) h = (
      h.0,
      λ j. elim j as (λ k. suc i < k → get_elem? (b ∷ s) k ≢ some c) [
        | zero ↦ λ lt. absurd (omega arith)
        | suc k ↦ λ lt. h.1 k (omega arith)
      ],
    )
    go none h = elim (Bool-cases (b == c)) [
      | inl hit ↦ rw hit (
        ground arith,
        λ j. elim j as (λ k. 0 < k → get_elem? (b ∷ s) k ≢ some c) [
          | zero ↦ λ lt. absurd (omega arith)
          | suc k ↦ λ lt. h k
        ],
      )
      | inr miss ↦ rw miss (IsFirst-cons c b s none (ground arith) h)
    ]

-- A search for a character that is not the terminator: `strchr` returns the first place of the
-- character in the text or `NULL`, `strchrnul` that place or the end of the text, and `strrchr`
-- the last place or `NULL`, whatever stands behind the terminator.
strchr-IsFirst :
    (c : ℕ) (text rest : Bytes)
    → IsText text
    → c % 256 ≢ 0
    → (p q : Option ℕ) × (strchr c (text ++ 0 ∷ rest) ≡ some p)
      × (strchrnul c (text ++ 0 ∷ rest) ≡ some (or_else p (length text)))
      × (strrchr c (text ++ 0 ∷ rest) ≡ some q)
      × IsFirst (c % 256) text p
      × IsLast (c % 256) text q
strchr-IsFirst c text rest t nz = (
  index_of (c % 256) text,
  last_index_of (c % 256) text,
  ground (arith, strchr-index_of rest c text t),
  strchrnul-index_of rest c text t,
  strrchr-last_index_of rest c text t nz,
  index_of-IsFirst (c % 256) text,
  last_index_of-IsLast (c % 256) text,
)

-- Whether `text` has the byte `b`.
unfoldable pub has : ℕ → Bytes → Bool
has b [] = false
has b (r ∷ text) = if b == r then true else has b text

is_rejected-has :
    (b : ℕ) (reject rest : Bytes)
    → IsText reject
    → is_rejected b (reject ++ 0 ∷ rest) ≡ some (has b reject)
unfolding is_rejected has
is_rejected-has b [] rest t = refl
is_rejected-has b (r ∷ reject) rest t = ground (arith, is_rejected-has b reject rest t.1)

-- The first `n` bytes of the text avoid `reject`, and the next, if there is one, does not.
abbrev pub Span : ℕ → Bytes → Bytes → Type 0
Span zero [] reject = Unit {0}
Span zero (b ∷ s) reject = has b reject ≡ true
Span (suc n) [] reject = ⊥
Span (suc n) (b ∷ s) reject = (has b reject ≡ false) × Span n s reject

-- On terminated texts `strcspn` returns the length of the longest prefix without a byte of
-- `reject`.
strcspn-Span :
    (text rest reject rest' : Bytes)
    → IsText text
    → IsText reject
    → (n : ℕ) × (strcspn (text ++ 0 ∷ rest) (reject ++ 0 ∷ rest') ≡ some n) × Span n text reject
unfolding strcspn
strcspn-Span [] rest reject rest' t u = (0, refl, tt)
strcspn-Span (b ∷ s) rest reject rest' t u =
    let nz : (b == 0) ≡ false = ground arith in
    let (n, got, span) = strcspn-Span s rest reject rest' t.1 u in
    elim (Bool-cases (has b reject)) [
      | inl hit ↦ (0, rw (nz, is_rejected-has b reject rest' u) (rw hit), hit)
      | inr miss ↦ (suc n, rw (nz, is_rejected-has b reject rest' u) (rw (miss, got)), (miss, span))
    ]
