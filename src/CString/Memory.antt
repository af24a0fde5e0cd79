-- ===== src/CString/Memory.antt =====
-- The functions of lib/string.c that write: memory is a function from addresses to bytes.
pub mod Copies
mod Tests
use xlinux.Common.{
  ℕ, zero, suc, ◌+◌, ◌-◌, Bool, true, false, Option, none, some, ltb, leb, ◌==◌, if◌then◌else◌,
}

abbrev pub Mem : Type 0
Mem = ℕ → ℕ

-- `*a = v`
unfoldable pub write : Mem → ℕ → ℕ → Mem
write m a v x = if x == a then v else m x

-- `while (count--) *tmp++ = *s++;`
pub copy_up : ℕ → Mem → ℕ → ℕ → Mem
copy_up zero m tmp s = m
copy_up (suc count) m tmp s = copy_up count (write m tmp (m s)) (tmp + 1) (s + 1)

-- `while (count--) *--tmp = *--s;`
pub copy_down : ℕ → Mem → ℕ → ℕ → Mem
copy_down zero m tmp s = m
copy_down (suc count) m tmp s = copy_down count (write m (tmp - 1) (m (s - 1))) (tmp - 1) (s - 1)

-- `memmove`
pub memmove : Mem → ℕ → ℕ → ℕ → Mem
memmove m dest src count =
    if leb dest src
    then copy_up count m dest src
    else copy_down count m (dest + count) (src + count)

-- `strcpy` on fuel: the memory behind it; `none` is that the fuel ran out.
pub strcpy : ℕ → Mem → ℕ → ℕ → Option Mem
strcpy zero m dest src = none
strcpy (suc fuel) m dest src =
    let m' = write m dest (m src) in
    let rest = strcpy fuel m' (dest + 1) (src + 1) in if m src == 0 then some m' else rest

-- `strncpy`: `src` stays at a terminator, so that the rest is padded.
pub strncpy : ℕ → Mem → ℕ → ℕ → Mem
strncpy zero m tmp src = m
strncpy (suc count) m tmp src =
    strncpy count (write m tmp (m src)) (tmp + 1) (if m src == 0 then src else src + 1)

-- `if (*s == old) *s = new;`
unfoldable pub replace_one : Mem → ℕ → ℕ → ℕ → Mem
replace_one m s old new = if m s == old then write m s new else m

-- `strreplace` on fuel: the memory and the address of the terminator.
pub strreplace : ℕ → Mem → ℕ → ℕ → ℕ → Option (Mem × ℕ)
strreplace zero m s old new = none
strreplace (suc fuel) m s old new =
    let m' = replace_one m s old new in
    let rest = strreplace fuel m' (s + 1) old new in if m s == 0 then some (m, s) else rest
