-- ===== src/Vsprintf/RoundTrip.antt =====
-- The theorem on `number` and `_parse_integer` of lib/vsprintf.c and its lemmas.
use xlinux.Common.{
  ℕ, ◌/◌, ◌^◌, ◌≤◌, ◌<◌, ◌≡◌, ◌⊎◌, false, none, some, [], ◌∷◌, ◌++◌, ltb, if◌then◌else◌, arith,
  length, refl, Bool-cases, inl, inr, ◌∙◌, ap, sym, length-append,
}
use mathlib.Core.List.{reverse, reverse-append}
use mathlib.Core.Option
use xlinux.CString.{Bytes}
use xlinux.Vsprintf.{digits, tmp_size, number, digit_val, Parsed, parsed, overflow, parse_integer}
use xlinux.Vsprintf.Reading.{digits_total, parse-digits, parse-digits_overflow}

length-reverse : (ds : Bytes) → length (reverse ds) ≡ length ds
length-reverse [] = refl
length-reverse (c ∷ ds) =
    ap (λ (l : Bytes). length l) (reverse-append (c ∷ []) ds)
    ∙ omega (arith, length-append (reverse ds) (c ∷ []), length-reverse ds)

parse_stop :
    (base n v stop : ℕ) (rest : Bytes)
    → digit_val stop ≡ none
    → parse_integer base n v (stop ∷ rest) ≡ parsed n v
unfolding parse_integer
parse_stop base n v stop rest e = rw (e, parse_integer)

number_unsigned :
    (base num : ℕ)
    → (base ≡ 8) ⊎ (base ≡ 10) ⊎ (base ≡ 16)
    → number base false num ≡ Option.map reverse (digits base tmp_size num)
unfolding number
number_unsigned base num which = elim which [
  | inl e ↦ rw e refl
  | inr more ↦ elim more [ inl e ↦ rw e refl | inr e ↦ rw e refl ]
]

room_for : (base num : ℕ) → (base ≡ 8) ⊎ (base ≡ 10) ⊎ (base ≡ 16) → num < 2 ^ 64 → num < base ^ 24
room_for base num which top = elim which [
  | inl e ↦ rw e (omega arith)
  | inr more ↦ elim more [ inl e ↦ rw e (omega arith) | inr e ↦ rw e (omega arith) ]
]

-- What `_parse_integer` makes of the digits of a number.
abbrev pub read_back : ℕ → ℕ → ℕ → Parsed
read_back base num n = if ltb (num / base) (2 ^ 60) then parsed n num else overflow

-- For base 8, 10 or 16 and every number of 64 bits that is printed without a sign, `number` writes
-- inside its array. `_parse_integer` reads what was printed, up to the first character that is no
-- digit of the base, and returns its length and the number, if the number is below `2 ^ 60` when it
-- is divided by the base; for a larger one it panics.
pub parse_integer-number :
    (base num stop : ℕ) (rest : Bytes)
    → (base ≡ 8) ⊎ (base ≡ 10) ⊎ (base ≡ 16)
    → num < 2 ^ 64
    → digit_val stop ≡ none
    → (out : Bytes) × (number base false num ≡ some out)
      × (parse_integer base 0 0 (out ++ stop ∷ rest) ≡ read_back base num (length out))
parse_integer-number base num stop rest which top no_digit =
    let low : 1 < base = omega arith in
    let high : base ≤ 16 = omega arith in
    let (ds, got) = digits_total base 23 num low (room_for base num which top) in
    (
      reverse ds,
      rw (number_unsigned base num which, got),
      elim (Bool-cases (ltb (num / base) (2 ^ 60))) [
        | inl fits ↦ rw fits (
            parse-digits base low high tmp_size num ds (stop ∷ rest) top (ground (arith, fits)) got
            ∙ parse_stop base (length ds) num stop rest no_digit
            ∙ ap (λ (n : ℕ). parsed n num) (sym (length-reverse ds)))
        | inr large ↦ rw large (
            parse-digits_overflow base low high 23 num ds (stop ∷ rest) which top
              (ground (arith, large)) got)
      ],
    )
