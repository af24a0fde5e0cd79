-- ===== src/CString.antt =====
-- lib/string.c. A `const char *` that is only read is the list of bytes from it to the end of its
-- object: `++s` drops the first byte, and a read behind the end is `none`, a fault. Found pointers
-- are offsets from the argument. Functions that write stand in CString/Memory.antt.
pub mod Scan
pub mod Compare
pub mod Memory
mod Tests
use xlinux.Common.{
  ℕ, zero, suc, ◌+◌, ◌-◌, ◌%◌, Bool, true, false, not, Option, none, some, List, [], ◌∷◌, ltb, leb,
  ◌==◌, if◌then◌else◌,
}
use mathlib.Core.Option
use xlinux.Ctype.{isspace, tolower}

abbrev pub Bytes : Type 0
Bytes = List ℕ

-- What `++s` does to an offset that is found further on.
abbrev pub shift : Option ℕ → Option ℕ
shift none = none
shift (some i) = some (suc i)

-- The fault is outside, the pointer `NULL` inside.
abbrev pub shift_ptr : Option (Option ℕ) → Option (Option ℕ)
shift_ptr none = none
shift_ptr (some p) = some (shift p)

-- `memchr`
pub memchr : ℕ → ℕ → Bytes → Option (Option ℕ)
memchr c zero s = some none
memchr c (suc n) [] = none
memchr c (suc n) (b ∷ s) =
    let rest = memchr c n s in if c % 256 == b then some (some 0) else shift_ptr rest

-- `strlen`
pub strlen : Bytes → Option ℕ
strlen [] = none
strlen (b ∷ s) = if b == 0 then some 0 else shift (strlen s)

-- `strnlen`; `count-- && *sc != '\0'`
pub strnlen : ℕ → Bytes → Option ℕ
strnlen zero s = some 0
strnlen (suc count) [] = none
strnlen (suc count) (b ∷ s) = if b == 0 then some 0 else shift (strnlen count s)

-- `strchr`
pub strchr : ℕ → Bytes → Option (Option ℕ)
strchr c [] = none
strchr c (b ∷ s) =
    let rest = strchr c s in
    if b == c % 256 then some (some 0) else if b == 0 then some none else shift_ptr rest

-- `strchrnul`
pub strchrnul : ℕ → Bytes → Option ℕ
strchrnul c [] = none
strchrnul c (b ∷ s) =
    let rest = strchrnul c s in
    if b == 0 then some 0 else if b == c % 256 then some 0 else shift rest

-- `strrchr`, with the number of bytes passed and `last`; the test `*s++` comes after the match.
pub strrchr_from : ℕ → ℕ → Option ℕ → Bytes → Option (Option ℕ)
strrchr_from c i last [] = none
strrchr_from c i last (b ∷ s) =
    let last' = if b == c % 256 then some i else last in
    let rest = strrchr_from c (suc i) last' s in if b == 0 then some last' else rest

pub strrchr : ℕ → Bytes → Option (Option ℕ)
strrchr c s = strrchr_from c 0 none s

-- The inner loop of `strcspn`: whether the byte is one of `reject`.
pub is_rejected : ℕ → Bytes → Option Bool
is_rejected b [] = none
is_rejected b (r ∷ reject) =
    let rest = is_rejected b reject in
    if r == 0 then some false else if b == r then some true else rest

-- `strcspn`
pub strcspn : Bytes → Bytes → Option ℕ
strcspn [] reject = none
strcspn (b ∷ s) reject =
    let rest = strcspn s reject in
    if b == 0
    then some 0
    else elim (is_rejected b reject) [ none ↦ none | some true ↦ some 0 | some false ↦ shift rest ]

-- The results -1, 0 and 1 of `strncmp`.
pub data Order : Type 0 where
  before same after : Order

-- `strncmp`
pub strncmp : ℕ → Bytes → Bytes → Option Order
strncmp zero cs ct = some same
strncmp (suc count) [] ct = none
strncmp (suc count) (c1 ∷ cs) [] = none
strncmp (suc count) (c1 ∷ cs) (c2 ∷ ct) =
    let rest = strncmp count cs ct in
    if not (c1 == c2)
    then some (if ltb c1 c2 then before else after)
    else if c1 == 0
    then some same
    else rest

-- `strcasecmp`: the two lowered bytes whose difference it returns.
pub strcasecmp : Bytes → Bytes → Option (ℕ × ℕ)
strcasecmp [] s2 = none
strcasecmp (b1 ∷ s1) [] = none
strcasecmp (b1 ∷ s1) (b2 ∷ s2) =
    let c1 = tolower b1 in
    let c2 = tolower b2 in
    let rest = strcasecmp s1 s2 in
    if c1 == c2 then (if c1 == 0 then some (c1, c2) else rest) else some (c1, c2)

-- `skip_spaces`: the bytes from the returned pointer on.
pub skip_spaces : Bytes → Option Bytes
skip_spaces [] = none
skip_spaces (b ∷ s) = let rest = skip_spaces s in if isspace b then rest else some (b ∷ s)
