-- ===== src/Common/Counts.antt =====
-- How often a number stands in a list.
use Prim.Native.Nat.{ℕ, ◌+◌, ◌≤◌}
use mathlib.Core.Path.{◌≡◌}
use mathlib.Core.List.{List, [], ◌∷◌, ◌++◌}
use native.Mathlib.Omega.{arith}
use xlinux.Common.Tests.{◌==◌, if◌then◌else◌}
use xlinux.Common.Lists.{length}

abbrev pub count : ℕ → List ℕ → ℕ
count p [] = 0
count p (q ∷ l) = (if p == q then 1 else 0) + count p l

pub count_le : (p : ℕ) (l : List ℕ) → count p l ≤ length l
count_le p [] = omega arith
count_le p (q ∷ l) = ground (arith, count_le p l)

pub count-append : (q : ℕ) (l m : List ℕ) → count q (l ++ m) ≡ count q l + count q m
count-append q [] m = omega arith
count-append q (r ∷ l) m = omega (arith, count-append q l m)
