-- ===== src/Vsprintf/Format.antt =====
-- lib/vsprintf.c: `format_decode`, `vsnprintf` and the bounded output buffer.
-- The flags of `struct printf_spec` that the code tests are one, `SIGN`; `field_width` is not read.
pub mod Reference
pub mod Bounded
pub mod Takes
pub mod Sign
mod Tests
use xlinux.Common.{
  ℕ, zero, suc, ◌+◌, ◌-◌, ◌%◌, ◌^◌, min, Bool, true, false, ◌||◌, Option, none, some, List, [], ◌∷◌,
  ◌++◌, ltb, leb, ◌==◌, if◌then◌else◌, length, take, drop,
}
use xlinux.CString.{Bytes}
use xlinux.Vsprintf.{number}

-- The values of `enum format_type` that `format_decode` stores.
pub data FormatType : Type 0 where
  literal char str ptr ulong uint int : FormatType

pub record Spec : Type 0 where
  pub type : FormatType
  pub base : ℕ
  pub sign : Bool

-- `struct printf_spec spec = {0};`
abbrev pub no_spec : Spec
no_spec = record { type = literal; base = 0; sign = false }

-- The specification of an integer: `FORMAT_TYPE_UINT + (spec->flags & SIGN)` without the
-- qualifier `l`.
abbrev pub integer : Bool → ℕ → Bool → Spec
integer long b sg = record {
  type = if long then ulong else if sg then int else uint;
  base = b;
  sign = sg;
}

-- The conversion characters behind the qualifier; `none` is the `BUG_ON` of the default case.
pub conversion : Bool → ℕ → Spec → Option Spec
conversion long c s =
    if c == b'c'
    then some (record s { type = char; base = 10 })
    else if c == b's'
    then some (record s { type = str; base = 10 })
    else if c == b'p'
    then some (record s { type = ptr; base = 10 })
    else if c == b'o'
    then some (integer long 8 s.sign)
    else if (c == b'X') || (c == b'x')
    then some (integer long 16 s.sign)
    else if (c == b'd') || (c == b'i')
    then some (integer long 10 true)
    else if c == b'u'
    then some (integer long 10 s.sign)
    else none

-- What `format_decode` reads: `taken` bytes, which are `piece` for a literal.
pub record Decoded : Type 0 where
  pub taken : ℕ
  pub piece : Bytes
  pub spec : Spec

-- The bytes up to the first `%` or to the end of the format.
pub literal_of : Bytes → Bytes
literal_of [] = []
literal_of (c ∷ fmt) = let rest = literal_of fmt in if c == b'%' then [] else c ∷ rest

-- From the character behind the `%`; an empty list is the terminator.
pub decode_conversion : Bytes → Spec → Option Decoded
decode_conversion [] s = none
decode_conversion (c ∷ []) s = elim (conversion false c s) [
  | none ↦ none
  | some s' ↦ some (record { taken = 2; piece = []; spec = s' })
]
decode_conversion (c ∷ d ∷ fmt) s =
    if c == b'l'
    then elim (conversion true d s) [
      | none ↦ none
      | some s' ↦ some (record { taken = 3; piece = []; spec = s' })
    ]
    else elim (conversion false c s) [
      | none ↦ none
      | some s' ↦ some (record { taken = 2; piece = []; spec = s' })
    ]

-- `format_decode` at a format that is not at its end; the format is its bytes before the NUL.
pub format_decode : Bytes → Spec → Option Decoded
format_decode [] s = none
format_decode (c ∷ fmt) s =
    let text = literal_of (c ∷ fmt) in
    if c == b'%'
    then decode_conversion fmt s
    else some (record { taken = length text; piece = text; spec = record s { type = literal } })

-- An argument: a word, or a pointer to a text with its address.
pub data Arg : Type 0 where
  word : ℕ → Arg
  text : ℕ → Bytes → Arg

-- `check_pointer_msg` and `string`: a bad pointer prints as a message.
pub string_text : ℕ → Bytes → Bytes
string_text addr s =
    if addr == 0
    then b'(' ∷ b'n' ∷ b'u' ∷ b'l' ∷ b'l' ∷ b')' ∷ []
    else if ltb addr 4096 || leb (2 ^ 64 - 4095) addr
    then b'(' ∷ b'e' ∷ b'f' ∷ b'a' ∷ b'u' ∷ b'l' ∷ b't' ∷ b')' ∷ []
    else s

-- `(int)va_arg(args, int)` as an `unsigned long long`.
pub int_arg : ℕ → ℕ
int_arg w = let v = w % 2 ^ 32 in if ltb v (2 ^ 31) then v else v + (2 ^ 64 - 2 ^ 32)

-- The characters that a directive prints; `none` is an argument of another kind, or a panic.
pub directive : Decoded → Arg → Option Bytes
directive d (text addr s) = elim d.spec.type [ str ↦ some (string_text addr s) | _ ↦ none ]
directive d (word w) = elim d.spec.type [
  | literal ↦ none
  | char ↦ some (w % 2 ^ 8 ∷ [])
  | str ↦ none
  | ptr ↦ number 16 d.spec.sign (w % 2 ^ 64)
  | ulong ↦ number d.spec.base d.spec.sign (w % 2 ^ 64)
  | uint ↦ number d.spec.base d.spec.sign (w % 2 ^ 32)
  | int ↦ number d.spec.base d.spec.sign (int_arg w)
]

-- The output: `pos` is `str - buf`, and `bytes` are those stored before `end`.
pub record Buf : Type 0 where
  pub size : ℕ
  pub pos : ℕ
  pub bytes : Bytes

-- `if (str < end) *str = c; ++str;`
pub put : ℕ → Buf → Buf
put c b = record b {
  pos = suc b.pos;
  bytes = if ltb b.pos b.size then b.bytes ++ (c ∷ []) else b.bytes;
}

pub put_all : Bytes → Buf → Buf
put_all [] b = b
put_all (c ∷ s) b = put_all s (put c b)

-- The `memcpy` of a literal, cut at `end`.
pub put_literal : Bytes → Buf → Buf
put_literal s b = record b {
  pos = b.pos + length s;
  bytes = if ltb b.pos b.size then b.bytes ++ take (min (length s) (b.size - b.pos)) s else b.bytes;
}

-- A result; the panic of an unknown conversion; an argument that is missing or of another kind;
-- or the fuel ran out.
pub data Outcome (A : Type 0) : Type 0 where
  ok : A → Outcome A
  bug bad_arg no_fuel : Outcome A

-- The loop behind one directive.
abbrev pub Next : Type 0
Next = List Arg → Buf → Outcome Buf

-- A directive that takes an argument.
pub convert : Decoded → Next → Next
convert d next [] b = bad_arg
convert d next (a ∷ args) b = elim (directive d a) [
  | none ↦ bad_arg
  | some out ↦ next args (put_all out b)
]

-- `switch (spec.type)`
pub apply_directive : Decoded → FormatType → Next → Next
apply_directive d literal next args b = next args (put_literal d.piece b)
apply_directive d _ next args b = convert d next args b

-- The loop of `vsnprintf` on fuel.
pub format_loop : ℕ → Bytes → Spec → Next
format_loop zero fmt s args b = no_fuel
format_loop (suc fuel) [] s args b = ok b
format_loop (suc fuel) (c ∷ fmt) s args b = elim (format_decode (c ∷ fmt) s) [
  | none ↦ bug
  | some d ↦ apply_directive d d.spec.type (format_loop fuel (drop d.taken (c ∷ fmt)) d.spec) args b
]

-- The terminator that `vsnprintf` writes behind the loop.
pub terminate : Buf → Bytes
terminate b =
    if ltb 0 b.size
    then (if ltb b.pos b.size then b.bytes else take (b.size - 1) b.bytes) ++ (0 ∷ [])
    else b.bytes

-- The end of `vsnprintf`: the value returned and the bytes stored.
pub finish : Outcome Buf → Outcome (ℕ × Bytes)
finish (ok b) = ok (b.pos, terminate b)
finish bug = bug
finish bad_arg = bad_arg
finish no_fuel = no_fuel

pub vsnprintf : ℕ → Bytes → List Arg → Outcome (ℕ × Bytes)
vsnprintf size fmt args =
    finish (
      format_loop (suc (length fmt)) fmt no_spec args (record { size = size; pos = 0; bytes = [] }))

-- `vscnprintf`: the number of characters stored before the terminator.
pub vscnprintf : ℕ → Bytes → List Arg → Outcome (ℕ × Bytes)
vscnprintf size fmt args = elim (vsnprintf size fmt args) [
  | ok (i, bytes) ↦ ok (if ltb i size then i else if size == 0 then 0 else size - 1, bytes)
  | bug ↦ bug
  | bad_arg ↦ bad_arg
  | no_fuel ↦ no_fuel
]
