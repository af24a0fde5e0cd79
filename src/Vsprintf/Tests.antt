-- ===== src/Vsprintf/Tests.antt =====
-- Runs of `number` and `_parse_integer`, and the theorem that relates them.
use xlinux.Common.{◌≡◌, true, false, some, [], ◌∷◌, ◌++◌, arith, length, refl, inl, inr}
use xlinux.CString.{Bytes}
use xlinux.Vsprintf.{number, parsed, parse_integer}
use xlinux.Vsprintf.RoundTrip.{read_back, parse_integer-number}

runs :
    (number 16 false 48879 ≡ some (b'B' ∷ b'E' ∷ b'E' ∷ b'F' ∷ []))
    × (number 10 true 18446744073709551609 ≡ some (b'-' ∷ b'7' ∷ []))
    × (parse_integer 8 0 0 (b'7' ∷ b'7' ∷ b'8' ∷ []) ≡ parsed 2 63)
unfolding number xlinux.Vsprintf.digits xlinux.Vsprintf.hex_asc_upper parse_integer
    xlinux.Vsprintf.digit_val
runs = (refl, refl, refl)

parse_integer-number_example :
    (out : Bytes) × (number 10 false 1042 ≡ some out)
    × (parse_integer 10 0 0 (out ++ b',' ∷ b'1' ∷ []) ≡ read_back 10 1042 (length out))
unfolding xlinux.Vsprintf.digit_val
parse_integer-number_example =
    parse_integer-number 10 1042 b',' (b'1' ∷ []) (inr (inl refl)) (omega arith) refl
