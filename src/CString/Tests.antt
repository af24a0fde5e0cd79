-- ===== src/CString/Tests.antt =====
-- Runs of lib/string.c on short strings, and the theorems there.
use xlinux.Common.{ℕ, ◌≡◌, ◌↔◌, none, some, [], ◌∷◌, ◌++◌, map, arith, refl}
use xlinux.Ctype.{isupper, tolower}
use xlinux.CString.{
  Bytes, Order, before, same, memchr, strlen, strnlen, strchr, strchrnul, strrchr_from, strrchr,
  is_rejected, strcspn, strncmp, strcasecmp,
}
use xlinux.CString.Compare.{take, compare_texts, strncmp-take, strcasecmp-tolower}

abbrev path : Bytes
path = b'/' ∷ b'd' ∷ b'/' ∷ b'x' ∷ []

abbrev garbage : Bytes
garbage = 7 ∷ []

abbrev stored : Bytes
stored = b'/' ∷ b'd' ∷ b'/' ∷ b'x' ∷ 0 ∷ 7 ∷ []

searches :
    (strlen stored ≡ some 4)
    × (strlen path ≡ none)
    × (strnlen 2 stored ≡ some 2)
    × (strchr 0 stored ≡ some (some 4))
    × (strrchr b'/' stored ≡ some (some 2))
    × (strchrnul b'q' stored ≡ some 4)
    × (memchr b'x' 3 stored ≡ some none)
    × (strcspn stored (b'x' ∷ b'd' ∷ 0 ∷ []) ≡ some 1)
unfolding strlen strnlen strchr strrchr strrchr_from strchrnul memchr strcspn is_rejected
searches = (refl, refl, refl, refl, refl, refl, refl, refl)

comparisons :
    (strncmp 1 stored (b'/' ∷ b'e' ∷ 0 ∷ []) ≡ some same)
    × (strncmp 2 stored (b'/' ∷ b'e' ∷ 0 ∷ []) ≡ some before)
    × (strcasecmp (b'A' ∷ 0 ∷ []) (b'a' ∷ 0 ∷ []) ≡ some (0, 0))
unfolding strncmp strcasecmp tolower isupper
comparisons = (refl, refl, refl)

strncmp-take_example :
    (o : Order) × (strncmp 2 (path ++ 0 ∷ garbage) ((b'/' ∷ []) ++ 0 ∷ garbage) ≡ some o)
    × (o ≡ compare_texts (take 2 path) (take 2 (b'/' ∷ [])))
    × ((o ≡ same) ↔ (take 2 path ≡ take 2 (b'/' ∷ [])))
strncmp-take_example = strncmp-take garbage garbage 2 path (b'/' ∷ []) (omega arith) (omega arith)

strcasecmp-tolower_example :
    (c1 c2 : ℕ) × (strcasecmp ((b'A' ∷ []) ++ 0 ∷ garbage) ((b'a' ∷ []) ++ 0 ∷ garbage)
      ≡ some (c1, c2))
    × ((c1 ≡ c2) ↔ (map tolower (b'A' ∷ []) ≡ map tolower (b'a' ∷ [])))
strcasecmp-tolower_example =
    strcasecmp-tolower garbage garbage (b'A' ∷ []) (b'a' ∷ []) (omega arith) (omega arith)
      (omega arith) (omega arith)
