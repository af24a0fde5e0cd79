-- ===== src/Vsprintf/Format/Sign.antt =====
-- The theorem on the flag `SIGN` of `format_decode` of lib/vsprintf.c and its lemmas.
use xlinux.Common.{
  ℕ, Bool, true, false, ◌||◌, Option, none, some, [], ◌∷◌, ◌==◌, if◌then◌else◌, ◌≡◌, refl,
  Bool-cases, inl, inr,
}
use mathlib.Core.Path.{subst}
use xlinux.CString.{Bytes}
use xlinux.Vsprintf.Format.{
  FormatType, uint, Spec, integer, conversion, Decoded, decode_conversion, format_decode,
}

abbrev is_uint : FormatType → Bool
is_uint uint = true
is_uint _ = false

-- The flag is set, and the type is not the unsigned `int`.
abbrev pub IsSigned : Spec → Type 0
IsSigned s = (s.sign ≡ true) × (is_uint s.type ≡ false)

-- A result, if there is one, is signed.
abbrev AllSigned : Option Spec → Type 0
AllSigned none = Unit {0}
AllSigned (some s) = IsSigned s

AllSigned-if :
    (b : Bool) (x y : Option Spec) → AllSigned x → AllSigned y → AllSigned (if b then x else y)
AllSigned-if true x y p q = p
AllSigned-if false x y p q = q

integer-IsSigned : (long : Bool) (base : ℕ) (b : Bool) → b ≡ true → IsSigned (integer long base b)
integer-IsSigned true base b e = (e, refl)
integer-IsSigned false base b e = rw e (refl, refl)

conversion-AllSigned :
    (long : Bool) (c : ℕ) (s : Spec) → s.sign ≡ true → AllSigned (conversion long c s)
unfolding conversion
conversion-AllSigned long c s e =
    AllSigned-if (c == b'c') _ _ (e, refl)
      (AllSigned-if (c == b's') _ _ (e, refl)
        (AllSigned-if (c == b'p') _ _ (e, refl)
          (AllSigned-if (c == b'o') _ _ (integer-IsSigned long 8 s.sign e) (
            AllSigned-if ((c == b'X') || (c == b'x')) _ _ (integer-IsSigned long 16 s.sign e) (
              AllSigned-if ((c == b'd') || (c == b'i')) _ _ (integer-IsSigned long 10 true refl)
                (AllSigned-if (c == b'u') _ _ (integer-IsSigned long 10 s.sign e) tt))))))

abbrev Decodes : Option Decoded → Type 0
Decodes none = Unit {0}
Decodes (some d) = IsSigned d.spec

with_spec :
    (n : ℕ) (o : Option Spec)
    → AllSigned o
    → Decodes (elim o [ none ↦ none | some s ↦ some (record { taken = n; piece = []; spec = s }) ])
with_spec n none p = tt
with_spec n (some s) p = p

decode_conversion-Decodes :
    (fmt : Bytes) (s : Spec) → s.sign ≡ true → Decodes (decode_conversion fmt s)
unfolding decode_conversion
decode_conversion-Decodes [] s e = tt
decode_conversion-Decodes (c ∷ []) s e =
    with_spec 2 (conversion false c s) (conversion-AllSigned false c s e)
decode_conversion-Decodes (c ∷ d ∷ fmt) s e = elim (Bool-cases (c == b'l')) [
  | inl long ↦ rw long (with_spec 3 (conversion true d s) (conversion-AllSigned true d s e))
  | inr short ↦ rw short (with_spec 2 (conversion false c s) (conversion-AllSigned false c s e))
]

format_decode-Decodes : (fmt : Bytes) (s : Spec) → s.sign ≡ true → Decodes (format_decode fmt s)
unfolding format_decode
format_decode-Decodes [] s e = tt
format_decode-Decodes (c ∷ fmt) s e = elim (Bool-cases (c == b'%')) [
  | inl percent ↦ rw percent (decode_conversion-Decodes fmt s e)
  | inr other ↦ rw other (e, refl)
]

-- Once the flag `SIGN` is set in the specification, `format_decode` leaves it set at every format,
-- and gives no conversion the type of the unsigned `int`.
pub format_decode-IsSigned :
    (fmt : Bytes) (s : Spec) (d : Decoded)
    → s.sign ≡ true
    → format_decode fmt s ≡ some d
    → IsSigned d.spec
format_decode-IsSigned fmt s d e got = subst Decodes got (format_decode-Decodes fmt s e)
