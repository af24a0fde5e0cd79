-- ===== src/CString/Memory/Copies.antt =====
-- What the copying functions of lib/string.c leave in memory.
use xlinux.Common.{
  ℕ, zero, suc, ◌+◌, ◌-◌, ◌≤◌, ◌<◌, ◌≡◌, ◌≢◌, ◌⊎◌, inl, inr, false, ◌&&◌, some, List, [], ◌∷◌, map,
  length, ltb, leb, ◌==◌, if◌then◌else◌, arith, refl, Bool-cases, ◌∙◌,
}
use xlinux.CString.Memory.{Mem, write, copy_up, copy_down, memmove, strcpy, replace_one, strreplace}

-- The bytes from `dest` on are those that `m` had from `src` on, and the others are as they were.
abbrev pub copied : Mem → ℕ → ℕ → ℕ → ℕ → ℕ
copied m dest src count x = if leb dest x && ltb x (dest + count) then m (src + (x - dest)) else m x

-- One byte copied upwards, with the others still to come from memory that it did not touch.
copied_step :
    (count : ℕ) (m : Mem) (dest src x : ℕ)
    → (dest ≤ src) ⊎ (src + count < dest)
    → copied (write m dest (m src)) (dest + 1) (src + 1) count x ≡ copied m dest src (suc count) x
unfolding write
copied_step count m dest src x h = elim (Bool-cases (ltb dest x)) [
  | inl behind ↦
      let e : src + 1 + (x - (dest + 1)) ≡ src + (x - dest) = ground arith in rw e (ground arith)
  | inr front ↦ elim (Bool-cases (x == dest)) [
    | inl here ↦
        let e : x ≡ dest = ground arith in
        let z : src + (dest - dest) ≡ src = omega arith in rw (e, z) (ground arith)
    | inr low ↦ ground arith
  ]
]

copy_up-copied :
    (count : ℕ) (m : Mem) (dest src x : ℕ)
    → dest ≤ src
    → copy_up count m dest src x ≡ copied m dest src count x
unfolding copy_up
copy_up-copied zero m dest src x h = ground arith
copy_up-copied (suc count) m dest src x h =
    copy_up-copied count (write m dest (m src)) (dest + 1) (src + 1) x (omega arith)
    ∙ copied_step count m dest src x (inl h)

copy_down-copied :
    (count : ℕ) (m : Mem) (dest src x : ℕ)
    → src ≤ dest
    → copy_down count m (dest + count) (src + count) x ≡ copied m dest src count x
unfolding copy_down write
copy_down-copied zero m dest src x h = ground arith
copy_down-copied (suc count) m dest src x h =
    let top : dest + suc count - 1 ≡ dest + count = omega arith in
    let last : src + suc count - 1 ≡ src + count = omega arith in
    rw (top, last)
      (copy_down-copied count (write m (dest + count) (m (src + count))) dest src x h ∙ step)
  where
    step :
        copied (write m (dest + count) (m (src + count))) dest src count x
        ≡ copied m dest src (suc count) x
    step = elim (Bool-cases (x == dest + count)) [
      | inl here ↦
          let e : x ≡ dest + count = ground arith in
          let z : src + (dest + count - dest) ≡ src + count = omega arith in
          rw (e, z) (ground arith)
      | inr other ↦ ground arith
    ]

-- `memmove` copies the bytes that were at `src`, however the two ranges overlap, and changes no
-- other byte.
pub memmove-copied :
    (m : Mem) (dest src count x : ℕ) → memmove m dest src count x ≡ copied m dest src count x
unfolding memmove
memmove-copied m dest src count x = elim (Bool-cases (leb dest src)) [
  | inl low ↦ rw low (copy_up-copied count m dest src x (ground arith))
  | inr high ↦ rw high (copy_down-copied count m dest src x (ground arith))
]

-- `text` stands at `src`, with its terminator.
abbrev pub Holds : Mem → ℕ → List ℕ → Type 0
Holds m src [] = m src ≡ 0
Holds m src (b ∷ text) = (m src ≡ b) × (b ≢ 0) × Holds m (src + 1) text

Holds-write :
    (m : Mem) (a v src : ℕ) (text : List ℕ)
    → (a < src) ⊎ (src + length text < a)
    → Holds m src text
    → Holds (write m a v) src text
unfolding write
Holds-write m a v src [] apart h = ground arith
Holds-write m a v src (b ∷ text) apart h =
    (ground arith, h.1, Holds-write m a v (src + 1) text (ground arith) h.2)

-- The text ends below `dest`, or begins behind the place that the copy takes.
abbrev pub Apart : ℕ → ℕ → List ℕ → Type 0
Apart dest src text = (src + length text < dest) ⊎ (dest + length text < src)

-- With enough fuel `strcpy` returns, and it copies the text with its terminator and changes no
-- other byte, if the two places do not overlap.
pub strcpy-copied :
    (fuel : ℕ) (m : Mem) (dest src : ℕ) (text : List ℕ)
    → length text < fuel
    → Holds m src text
    → Apart dest src text
    → (m' : Mem) × (strcpy fuel m dest src ≡ some m')
      × ((x : ℕ) → m' x ≡ copied m dest src (suc (length text)) x)
unfolding strcpy
strcpy-copied zero m dest src text f h apart = absurd (omega arith)
strcpy-copied (suc fuel) m dest src [] f h apart =
    (write m dest (m src), rw h, λ x. no_more x ∙ copied_step 0 m dest src x (ground arith))
  where
    no_more :
        (x : ℕ) → write m dest (m src) x ≡ copied (write m dest (m src)) (dest + 1) (src + 1) 0 x
    no_more x = ground arith
strcpy-copied (suc fuel) m dest src (b ∷ text) f h apart =
    let m' = write m dest (m src) in
    let held = Holds-write m dest (m src) (src + 1) text (ground arith) h.2 in
    let (out, got, same) =
      strcpy-copied fuel m' (dest + 1) (src + 1) text (omega arith) held (ground arith) in
    let more : (m src == 0) ≡ false = ground arith in
    (out, rw (more, got), λ x. same x ∙ copied_step (suc (length text)) m dest src x (ground arith))

abbrev pub replaced : ℕ → ℕ → List ℕ → List ℕ
replaced old new = map (λ b. if b == old then new else b)

Holds-replace_one :
    (m : Mem) (s old new : ℕ) (text : List ℕ)
    → Holds m (s + 1) text
    → Holds (replace_one m s old new) (s + 1) text
unfolding replace_one
Holds-replace_one m s old new text h = elim (Bool-cases (m s == old)) [
  | inl hit ↦ rw hit (Holds-write m s new (s + 1) text (inl (omega arith)) h)
  | inr miss ↦ rw miss h
]

replace_one_lem :
    (m : Mem) (s old new x : ℕ)
    → replace_one m s old new x ≡ (if x == s then (if m s == old then new else m s) else m x)
unfolding replace_one write
replace_one_lem m s old new x = ground arith

-- With enough fuel `strreplace` returns the address of the terminator, and leaves the text with
-- every `old` replaced by `new`, if `new` does not end it, and all other memory unchanged.
pub strreplace-replaced :
    (fuel : ℕ) (m : Mem) (s old new : ℕ) (text : List ℕ)
    → length text < fuel
    → new ≢ 0
    → Holds m s text
    → (m' : Mem) × (strreplace fuel m s old new ≡ some (m', s + length text))
      × Holds m' s (replaced old new text)
      × ((x : ℕ) → (x < s) ⊎ (s + length text ≤ x) → m' x ≡ m x)
unfolding strreplace
strreplace-replaced zero m s old new text f nz h = absurd (omega arith)
strreplace-replaced (suc fuel) m s old new [] f nz h =
    let e : s + 0 ≡ s = omega arith in (m, rw (h, e), h, λ x o. refl)
strreplace-replaced (suc fuel) m s old new (b ∷ text) f nz h =
    let (out, got, held, same) =
      strreplace-replaced fuel (replace_one m s old new) (s + 1) old new text (omega arith) nz
        (Holds-replace_one m s old new text h.2) in
    let more : (m s == 0) ≡ false = ground arith in
    let e : s + 1 + length text ≡ s + suc (length text) = omega arith in
    let here = replace_one_lem m s old new s in
    (
      out,
      rw (more, got, e),
      (ground (arith, same s, here), ground arith, held),
      λ x o. ground (arith, same x, replace_one_lem m s old new x),
    )
