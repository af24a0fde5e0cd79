-- ===== src/Vsprintf/Format/Reference.antt =====
-- lib/vsprintf.c: the output of a format without a buffer, as a reference for `vsnprintf`.
use xlinux.Common.{
  ℕ, zero, suc, ◌<◌, none, some, List, [], ◌∷◌, ◌++◌, length, drop, arith, Option-cases, inl, inr,
  length-drop-le,
}
use mathlib.Core.Path.{subst}
use xlinux.CString.{Bytes}
use xlinux.Vsprintf.Format.Takes.{Takes, format_decode-Takes}
use xlinux.Vsprintf.Format.{
  FormatType, literal, Spec, Decoded, format_decode, Arg, directive, Outcome, ok, bug, bad_arg,
  no_fuel,
}

-- The characters before those that follow.
unfoldable pub behind : Bytes → Outcome Bytes → Outcome Bytes
behind out (ok t) = ok (out ++ t)
behind out bug = bug
behind out bad_arg = bad_arg
behind out no_fuel = no_fuel

unfoldable pub argument : Decoded → (List Arg → Outcome Bytes) → List Arg → Outcome Bytes
argument d next [] = bad_arg
argument d next (a ∷ args) = elim (directive d a) [
  | none ↦ bad_arg
  | some out ↦ behind out (next args)
]

unfoldable pub piece : Decoded → FormatType → (List Arg → Outcome Bytes) → List Arg → Outcome Bytes
piece d literal next args = behind d.piece (next args)
piece d _ next args = argument d next args

-- The whole output of a format, without a buffer: the literals as they are, and for a directive the
-- characters of its argument. It is a panic at an unknown conversion, and fails at an argument that
-- is missing or of another kind.
unfoldable pub formatted : ℕ → Bytes → Spec → List Arg → Outcome Bytes
formatted zero fmt s args = no_fuel
formatted (suc fuel) [] s args = ok []
formatted (suc fuel) (c ∷ fmt) s args = elim (format_decode (c ∷ fmt) s) [
  | none ↦ bug
  | some d ↦ piece d d.spec.type (formatted fuel (drop d.taken (c ∷ fmt)) d.spec) args
]

-- The outcome is not that the fuel ran out.
abbrev pub HasEnded : Outcome Bytes → Type 0
HasEnded (ok t) = Unit {0}
HasEnded bug = Unit {0}
HasEnded bad_arg = Unit {0}
HasEnded no_fuel = ⊥

behind-HasEnded : (out : Bytes) (o : Outcome Bytes) → HasEnded o → HasEnded (behind out o)
unfolding behind
behind-HasEnded out (ok t) h = tt
behind-HasEnded out bug h = tt
behind-HasEnded out bad_arg h = tt
behind-HasEnded out no_fuel h = h

argument-HasEnded :
    (d : Decoded) (next : List Arg → Outcome Bytes) (args : List Arg)
    → ((args : List Arg) → HasEnded (next args))
    → HasEnded (argument d next args)
unfolding argument
argument-HasEnded d next [] h = tt
argument-HasEnded d next (a ∷ args) h = elim (Option-cases (directive d a)) [
  | inl nothing ↦ rw (nothing, argument) tt
  | inr (out, got) ↦ rw (got, argument) (behind-HasEnded out (next args) (h args))
]

piece-HasEnded :
    (d : Decoded) (t : FormatType) (next : List Arg → Outcome Bytes) (args : List Arg)
    → ((args : List Arg) → HasEnded (next args))
    → HasEnded (piece d t next args)
unfolding piece
piece-HasEnded d literal next args h = behind-HasEnded d.piece (next args) (h args)
piece-HasEnded d _ next args h = argument-HasEnded d next args h

rest-lt :
    (fuel c : ℕ) (fmt : Bytes) (n : ℕ)
    → 0 < n
    → length (c ∷ fmt) < suc fuel
    → length (drop n (c ∷ fmt)) < fuel
rest-lt fuel c fmt zero pos h = absurd (omega arith)
rest-lt fuel c fmt (suc n) pos h = omega (arith, length-drop-le n fmt)

pub formatted-HasEnded :
    (fuel : ℕ) (fmt : Bytes) (s : Spec) (args : List Arg)
    → length fmt < fuel
    → HasEnded (formatted fuel fmt s args)
unfolding formatted
formatted-HasEnded zero fmt s args h = absurd (omega arith)
formatted-HasEnded (suc fuel) [] s args h = tt
formatted-HasEnded (suc fuel) (c ∷ fmt) s args h = elim (Option-cases (format_decode (c ∷ fmt) s)) [
  | inl e ↦ rw (e, formatted) tt
  | inr (d, e) ↦
      let takes : Takes (some d) = subst Takes e (format_decode-Takes c fmt s) in
      rw (e, formatted)
        (piece-HasEnded d d.spec.type (formatted fuel (drop d.taken (c ∷ fmt)) d.spec) args
          (λ args'.
            formatted-HasEnded fuel (drop d.taken (c ∷ fmt)) d.spec args'
              (rest-lt fuel c fmt d.taken takes h)))
]
