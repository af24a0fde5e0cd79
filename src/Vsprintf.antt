-- ===== src/Vsprintf.antt =====
-- lib/vsprintf.c: the digits that `number` prints and the integers that `_parse_integer` reads.
-- The output buffer and the format strings stand in Vsprintf/Format.antt.
pub mod Reading
pub mod RoundTrip
pub mod Format
mod Tests
use xlinux.Common.{
  ℕ, zero, suc, ◌+◌, ◌-◌, ◌*◌, ◌/◌, ◌%◌, ◌^◌, Bool, true, false, ◌&&◌, ◌||◌, Option, none, some,
  List, [], ◌∷◌, ◌++◌, map, ltb, leb, ◌==◌, if◌then◌else◌, get_elem?, bit_or,
}
use mathlib.Core.List.{reverse}
use mathlib.Core.Option
use xlinux.Ctype.{isxdigit}
use xlinux.CString.{Bytes}

-- `hex_asc_upper[d]`
unfoldable pub hex_asc_upper : ℕ → ℕ
hex_asc_upper d = if ltb d 10 then b'0' + d else b'A' + (d - 10)

-- The `do` loop of `number`: the digits of `num`, lowest first. `room` is what is left of `tmp`;
-- `none` is a write behind its end.
pub digits : ℕ → ℕ → ℕ → Option Bytes
digits base zero num = none
digits base (suc room) num =
    let rest = digits base room (num / base) in
    if num / base == 0
    then some (hex_asc_upper (num % base) ∷ [])
    else Option.map (λ ds. hex_asc_upper (num % base) ∷ ds) rest

-- `sizeof tmp`, which is `3 * sizeof(num)`.
abbrev pub tmp_size : ℕ
tmp_size = 24

-- `(signed long long)num < 0`
abbrev pub is_negative : ℕ → Bool
is_negative num = leb (2 ^ 63) num

-- `number`: the characters that it prints, from the sign on; `none` is also its `BUG_ON`.
pub number : ℕ → Bool → ℕ → Option Bytes
number base sign num =
    if (base == 16) || (base == 8)
    then Option.map reverse (digits base tmp_size num)
    else if base == 10
    then if sign && is_negative num
      then Option.map (λ ds. b'-' ∷ reverse ds) (digits base tmp_size (2 ^ 64 - num))
      else Option.map reverse (digits base tmp_size num)
    else none

-- The value of a digit in `_parse_integer`, or its `break`.
unfoldable pub digit_val : ℕ → Option ℕ
digit_val c =
    let lc = bit_or c 0x20 in
    if leb b'0' c && leb c b'9'
    then some (c - b'0')
    else if leb b'a' lc && leb lc b'f'
    then some (lc - b'a' + 10)
    else none

-- What `_parse_integer` returns: the count and the value; a panic; or a read out of bounds.
pub data Parsed : Type 0 where
  parsed : ℕ → ℕ → Parsed
  overflow fault : Parsed

-- `_parse_integer`, from a state of its loop. `res & (~0ull << 60)` is `res` from `2 ^ 60` on.
pub parse_integer : ℕ → ℕ → ℕ → Bytes → Parsed
parse_integer base rv res [] = fault
parse_integer base rv res (c ∷ s) = elim (digit_val c) [
  | none ↦ parsed rv res
  | some val ↦
      let rest = parse_integer base (rv + 1) ((res * base + val) % 2 ^ 64) s in
      if leb base val then parsed rv res else if leb (2 ^ 60) res then overflow else rest
]
