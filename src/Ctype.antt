-- ===== src/Ctype.antt =====
-- The character classes of lib/string.c and include/types.h, include/string.h.
pub mod Classes
mod Tests
use xlinux.Common.{
  ℕ, ◌+◌, ◌-◌, ◌/◌, ◌%◌, ◌^◌, ◌≤◌, ◌<◌, ◌≡◌, ◌↔◌, ◌⊎◌, Bool, true, false, not, ◌&&◌, ◌||◌, List, [],
  ◌∷◌, ◌==◌, leb, if◌then◌else◌, get_elem?, bit_and, arith, refl,
}
use mathlib.Core.Option

-- The combinations of `_U _L _D _C _P _S _X _SP` that occur in the table.
abbrev nn : ℕ
nn = 0

abbrev uu : ℕ
uu = 0x01

abbrev ll : ℕ
ll = 0x02

abbrev dd : ℕ
dd = 0x04

abbrev ct : ℕ
ct = 0x08

abbrev pp : ℕ
pp = 0x10

abbrev cs : ℕ
cs = 0x28

abbrev sp : ℕ
sp = 0xa0

abbrev ux : ℕ
ux = 0x41

abbrev lx : ℕ
lx = 0x42

-- `_ctype`, sixteen characters a line.
unfoldable pub ctype : List ℕ
ctype =
    ct ∷ ct ∷ ct ∷ ct ∷ ct ∷ ct ∷ ct ∷ ct ∷ ct ∷ cs ∷ cs ∷ cs ∷ cs ∷ cs ∷ ct ∷ ct ∷ ct ∷ ct ∷ ct
    ∷ ct ∷ ct ∷ ct ∷ ct ∷ ct ∷ ct ∷ ct ∷ ct ∷ ct ∷ ct ∷ ct ∷ ct ∷ ct ∷ sp ∷ pp ∷ pp ∷ pp ∷ pp ∷ pp
    ∷ pp ∷ pp ∷ pp ∷ pp ∷ pp ∷ pp ∷ pp ∷ pp ∷ pp ∷ pp ∷ dd ∷ dd ∷ dd ∷ dd ∷ dd ∷ dd ∷ dd ∷ dd ∷ dd
    ∷ dd ∷ pp ∷ pp ∷ pp ∷ pp ∷ pp ∷ pp ∷ pp ∷ ux ∷ ux ∷ ux ∷ ux ∷ ux ∷ ux ∷ uu ∷ uu ∷ uu ∷ uu ∷ uu
    ∷ uu ∷ uu ∷ uu ∷ uu ∷ uu ∷ uu ∷ uu ∷ uu ∷ uu ∷ uu ∷ uu ∷ uu ∷ uu ∷ uu ∷ uu ∷ pp ∷ pp ∷ pp ∷ pp
    ∷ pp ∷ pp ∷ lx ∷ lx ∷ lx ∷ lx ∷ lx ∷ lx ∷ ll ∷ ll ∷ ll ∷ ll ∷ ll ∷ ll ∷ ll ∷ ll ∷ ll ∷ ll ∷ ll
    ∷ ll ∷ ll ∷ ll ∷ ll ∷ ll ∷ ll ∷ ll ∷ ll ∷ ll ∷ pp ∷ pp ∷ pp ∷ pp ∷ ct ∷ nn ∷ nn ∷ nn ∷ nn ∷ nn
    ∷ nn ∷ nn ∷ nn ∷ nn ∷ nn ∷ nn ∷ nn ∷ nn ∷ nn ∷ nn ∷ nn ∷ nn ∷ nn ∷ nn ∷ nn ∷ nn ∷ nn ∷ nn ∷ nn
    ∷ nn ∷ nn ∷ nn ∷ nn ∷ nn ∷ nn ∷ nn ∷ nn ∷ sp ∷ pp ∷ pp ∷ pp ∷ pp ∷ pp ∷ pp ∷ pp ∷ pp ∷ pp ∷ pp
    ∷ pp ∷ pp ∷ pp ∷ pp ∷ pp ∷ pp ∷ pp ∷ pp ∷ pp ∷ pp ∷ pp ∷ pp ∷ pp ∷ pp ∷ pp ∷ pp ∷ pp ∷ pp ∷ pp
    ∷ pp ∷ pp ∷ uu ∷ uu ∷ uu ∷ uu ∷ uu ∷ uu ∷ uu ∷ uu ∷ uu ∷ uu ∷ uu ∷ uu ∷ uu ∷ uu ∷ uu ∷ uu ∷ uu
    ∷ uu ∷ uu ∷ uu ∷ uu ∷ uu ∷ uu ∷ pp ∷ uu ∷ uu ∷ uu ∷ uu ∷ uu ∷ uu ∷ uu ∷ ll ∷ ll ∷ ll ∷ ll ∷ ll
    ∷ ll ∷ ll ∷ ll ∷ ll ∷ ll ∷ ll ∷ ll ∷ ll ∷ ll ∷ ll ∷ ll ∷ ll ∷ ll ∷ ll ∷ ll ∷ ll ∷ ll ∷ ll ∷ ll
    ∷ pp ∷ ll ∷ ll ∷ ll ∷ ll ∷ ll ∷ ll ∷ ll ∷ ll ∷ []

-- `__ismask(x)`
unfoldable pub ismask : ℕ → ℕ
unfolding ctype
ismask x = Option.get_or (get_elem? ctype (x % 256)) 0

unfoldable pub isspace : ℕ → Bool
unfolding ismask
isspace c = not (bit_and (ismask c) 0x20 == 0)

unfoldable pub isupper : ℕ → Bool
unfolding ismask
isupper c = not (bit_and (ismask c) 0x01 == 0)

unfoldable pub isxdigit : ℕ → Bool
unfolding ismask
isxdigit c = not (bit_and (ismask c) 0x44 == 0)

-- `__tolower`: `c -= 'A' - 'a'` on an unsigned char.
unfoldable pub tolower : ℕ → ℕ
tolower c = if isupper c then (c % 256 + 32) % 256 else c % 256
