-- ===== src/Vsprintf/Format/Tests.antt =====
-- Runs of `vsnprintf`, and the theorem on its buffer.
use xlinux.Common.{true, false, ◌-◌, ◌^◌, ◌≡◌, ◌≢◌, List, [], ◌∷◌, refl}
use xlinux.CString.{Bytes}
use xlinux.Vsprintf.Format.Sign.{IsSigned, format_decode-IsSigned}
use xlinux.Vsprintf.Format.{
  Spec, no_spec, no_fuel, integer, format_decode, Arg, word, text, ok, bug, vsnprintf, vscnprintf,
}
use xlinux.Vsprintf.Format.Reference.{formatted}
use xlinux.Vsprintf.Format.Bounded.{cut, vsnprintf-formatted}

-- `%s=%d`
abbrev pair_format : Bytes
pair_format = b'%' ∷ b's' ∷ b'=' ∷ b'%' ∷ b'd' ∷ []

abbrev pair_args : List Arg
pair_args = text (2 ^ 32) (b'i' ∷ b'd' ∷ []) ∷ word (2 ^ 32 - 5) ∷ []

runs :
    (vsnprintf 16 pair_format pair_args ≡ ok (5, b'i' ∷ b'd' ∷ b'=' ∷ b'-' ∷ b'5' ∷ 0 ∷ []))
    × (vsnprintf 4 pair_format pair_args ≡ ok (5, b'i' ∷ b'd' ∷ b'=' ∷ 0 ∷ []))
    × (vscnprintf 4 pair_format pair_args ≡ ok (3, b'i' ∷ b'd' ∷ b'=' ∷ 0 ∷ []))
    × (vsnprintf 4 (b'%' ∷ b'q' ∷ []) [] ≡ bug)
unfolding vsnprintf xlinux.Vsprintf.Format.vscnprintf xlinux.Vsprintf.Format.finish
    xlinux.Vsprintf.Format.format_loop xlinux.Vsprintf.Format.format_decode
    xlinux.Vsprintf.Format.decode_conversion xlinux.Vsprintf.Format.conversion
    xlinux.Vsprintf.Format.apply_directive xlinux.Vsprintf.Format.convert
    xlinux.Vsprintf.Format.directive xlinux.Vsprintf.Format.literal_of xlinux.Vsprintf.number
    xlinux.Vsprintf.Format.int_arg xlinux.Vsprintf.digits xlinux.Vsprintf.Format.put_all
    xlinux.Vsprintf.Format.terminate xlinux.Vsprintf.Format.put xlinux.Vsprintf.Format.put_literal
    xlinux.Vsprintf.Format.string_text xlinux.Vsprintf.hex_asc_upper
runs = (refl, refl, refl, refl)

vsnprintf-formatted_example :
    (vsnprintf 4 pair_format pair_args ≡ cut 4 (formatted 6 pair_format no_spec pair_args))
    × (formatted 6 pair_format no_spec pair_args ≢ no_fuel)
vsnprintf-formatted_example = vsnprintf-formatted 4 pair_format pair_args

-- The state of the specification behind `%d`.
abbrev behind_d : Spec
behind_d = integer false 10 true

format_decode-IsSigned_example : IsSigned (integer false 10 true)
unfolding xlinux.Vsprintf.Format.format_decode xlinux.Vsprintf.Format.decode_conversion
    xlinux.Vsprintf.Format.conversion
format_decode-IsSigned_example =
    format_decode-IsSigned (b'%' ∷ b'u' ∷ []) behind_d
      (record { taken = 2; piece = []; spec = integer false 10 true }) refl refl
