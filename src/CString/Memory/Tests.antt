-- ===== src/CString/Memory/Tests.antt =====
-- Copies between overlapping and separate places, and the theorems there.
use xlinux.Common.{ℕ, ◌<◌, ◌≤◌, ◌≡◌, ◌⊎◌, inl, some, [], ◌∷◌, arith, refl, ◌==◌, if◌then◌else◌}
use xlinux.CString.Memory.{Mem, write, copy_up, copy_down, memmove, strcpy, strncpy, strreplace}
use xlinux.CString.Memory.Copies.{copied, Holds, memmove-copied, strcpy-copied, strreplace-replaced}

-- The text "ab" at address 10.
abbrev ab : Mem
ab x = if x == 10 then b'a' else if x == 11 then b'b' else 0

overlap :
    (memmove ab 11 10 2 11 ≡ b'a') × (memmove ab 11 10 2 12 ≡ b'b') × (memmove ab 9 10 2 10 ≡ b'b')
unfolding memmove copy_up copy_down write
overlap = (refl, refl, refl)

padding : (strncpy 4 ab 20 10 21 ≡ b'b') × (strncpy 4 ab 20 10 23 ≡ 0)
unfolding strncpy write
padding = (refl, refl)

memmove-copied_example : memmove ab 11 10 2 12 ≡ copied ab 11 10 2 12
memmove-copied_example = memmove-copied ab 11 10 2 12

strcpy-copied_example :
    (m' : Mem) × (strcpy 5 ab 20 10 ≡ some m') × ((x : ℕ) → m' x ≡ copied ab 20 10 3 x)
strcpy-copied_example =
    strcpy-copied 5 ab 20 10 (b'a' ∷ b'b' ∷ []) (omega arith) (omega arith) (inl (omega arith))

strreplace-replaced_example :
    (m' : Mem) × (strreplace 5 ab 10 b'a' b'c' ≡ some (m', 12))
    × Holds m' 10 (b'c' ∷ b'b' ∷ [])
    × ((x : ℕ) → (x < 10) ⊎ (12 ≤ x) → m' x ≡ ab x)
strreplace-replaced_example =
    strreplace-replaced 5 ab 10 b'a' b'c' (b'a' ∷ b'b' ∷ []) (omega arith) (omega arith)
      (omega arith)
