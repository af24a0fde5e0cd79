-- ===== src/Vsprintf/Format/Takes.antt =====
-- Lemmas on the bytes that `format_decode` of lib/vsprintf.c reads.
use xlinux.Common.{
  true, false, ℕ, ◌<◌, Bool, Option, none, some, [], ◌∷◌, ◌==◌, arith, Bool-cases, Option-cases,
  inl, inr,
}
use xlinux.CString.{Bytes}
use xlinux.Vsprintf.Format.{Spec, conversion, Decoded, literal_of, decode_conversion, format_decode}

-- A directive takes at least one byte of the format.
abbrev pub Takes : Option Decoded → Type 0
Takes none = Unit {0}
Takes (some d) = 0 < d.taken

conversion-Takes :
    (long : Bool) (c : ℕ) (s : Spec) (n : ℕ)
    → 0 < n
    → Takes (elim (conversion long c s) [
      | none ↦ none
      | some s' ↦ some (record { taken = n; piece = []; spec = s' })
    ])
conversion-Takes long c s n h = elim (Option-cases (conversion long c s)) [
  | inl e ↦ rw e tt
  | inr (s', e) ↦ rw e h
]

decode_conversion-Takes : (fmt : Bytes) (s : Spec) → Takes (decode_conversion fmt s)
unfolding decode_conversion
decode_conversion-Takes [] s = tt
decode_conversion-Takes (c ∷ []) s = conversion-Takes false c s 2 (omega arith)
decode_conversion-Takes (c ∷ d ∷ fmt) s = elim (Bool-cases (c == b'l')) [
  | inl long ↦ rw long (conversion-Takes true d s 3 (omega arith))
  | inr short ↦ rw short (conversion-Takes false c s 2 (omega arith))
]

pub format_decode-Takes : (c : ℕ) (fmt : Bytes) (s : Spec) → Takes (format_decode (c ∷ fmt) s)
unfolding format_decode literal_of
format_decode-Takes c fmt s = elim (Bool-cases (c == b'%')) [
  | inl percent ↦ rw percent (decode_conversion-Takes fmt s)
  | inr other ↦ rw other (omega arith)
]
