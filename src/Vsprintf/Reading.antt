-- ===== src/Vsprintf/Reading.antt =====
-- lib/vsprintf.c: `_parse_integer` on the digits that `number` makes.
use xlinux.Common.{
  ℕ, zero, suc, ◌+◌, ◌*◌, ◌/◌, ◌%◌, ◌^◌, ◌≤◌, ◌<◌, ◌≡◌, ◌⊎◌, Bool, true, false, Option, none, some,
  [], ◌∷◌, ◌++◌, leb, ◌==◌, arith, length, refl, Option-cases, Bool-cases, inl, inr, ◌∙◌, ap,
}
use mathlib.Core.List.{reverse, reverse-append, append_assoc}
use mathlib.Core.Path.{ap₂}
use native.Mathlib.Nat.{pow-suc, pow-zero, div-eq_of_lt}
use xlinux.Common.Table.{passes, passes_entry}
use xlinux.CString.{Bytes}
use xlinux.Vsprintf.{hex_asc_upper, digits, digit_val, overflow, parse_integer}

abbrev is_val : Option ℕ → ℕ → Bool
is_val none d = false
is_val (some v) d = v == d

is_val-eq : (o : Option ℕ) (d : ℕ) → is_val o d ≡ true → o ≡ some d
is_val-eq none d h = cc
is_val-eq (some v) d h = ground arith

digits_table : passes (λ x. is_val (digit_val (hex_asc_upper x)) x) 16 ≡ true
unfolding passes digit_val hex_asc_upper
digits_table = refl

-- Each digit character is read as its digit.
digit_val-hex_asc_upper : (d : ℕ) → d < 16 → digit_val (hex_asc_upper d) ≡ some d
digit_val-hex_asc_upper d h =
    is_val-eq (digit_val (hex_asc_upper d)) d
      (passes_entry (λ x. is_val (digit_val (hex_asc_upper x)) x) 16 d h digits_table)

reverse-cons : (c : ℕ) (ds rest : Bytes) → reverse (c ∷ ds) ++ rest ≡ reverse ds ++ (c ∷ rest)
reverse-cons c ds rest =
    ap (λ l. l ++ rest) (reverse-append (c ∷ []) ds) ∙ append_assoc (reverse ds) (c ∷ []) rest

div-lt-pow : (num base p : ℕ) → 0 < base → num < base * p → num / base < p
div-lt-pow num base p hb h = grind arith

-- The digits of a number below `base ^ (room + 1)` fit.
pub digits_total :
    (base room num : ℕ)
    → 1 < base
    → num < base ^ suc room
    → (ds : Bytes) × (digits base (suc room) num ≡ some ds)
unfolding digits
digits_total base zero num hb h =
    let one_power : base ^ suc zero ≡ base = rw (pow-suc, pow-zero) (omega arith) in
    let small : num < base = rw one_power at h in
    let z : (num / base == 0) ≡ true = rw (div-eq_of_lt small) in
    (hex_asc_upper (num % base) ∷ [], rw z)
digits_total base (suc room) num hb h = elim (Bool-cases (num / base == 0)) [
  | inl last ↦ (hex_asc_upper (num % base) ∷ [], rw last)
  | inr more ↦
      let (ds, got) = digits_total base room (num / base) hb (
        div-lt-pow num base (base ^ suc room) (omega arith)
          (omega (arith, pow-suc base (suc room)))) in
      (hex_asc_upper (num % base) ∷ ds, rw (more, got))
]

module _ (base : ℕ) (low : 1 < base) (high : base ≤ 16) where
  parse_step :
      (n r d : ℕ) (rest : Bytes)
      → d < base
      → r < 2 ^ 60
      → r * base + d < 2 ^ 64
      → parse_integer base n r (hex_asc_upper d ∷ rest)
        ≡ parse_integer base (n + 1) (r * base + d) rest
  unfolding parse_integer
  parse_step n r d rest hd hr hv =
      let in_base : leb base d ≡ false = ground arith in
      let in_range : leb (2 ^ 60) r ≡ false = ground arith in
      let whole : (r * base + d) % 2 ^ 64 ≡ r * base + d = omega arith in
      rw (digit_val-hex_asc_upper d (omega arith), parse_integer) (rw (in_base, in_range, whole))

  -- Reading the digits of `num` and going on.
  pub parse-digits :
      (room num : ℕ) (ds rest : Bytes)
      → num < 2 ^ 64
      → num / base < 2 ^ 60
      → digits base room num ≡ some ds
      → parse_integer base 0 0 (reverse ds ++ rest) ≡ parse_integer base (length ds) num rest
  unfolding digits
  parse-digits zero num ds rest top fits e = cc
  parse-digits (suc room) num ds rest top fits e = elim (Bool-cases (num / base == 0)) [
    | inl last ↦
        let one_digit : ds ≡ hex_asc_upper (num % base) ∷ [] = ground arith in
        let small : num % base ≡ num = grind arith in
        rw (one_digit, small)
          (parse_step 0 0 num rest (grind arith) (omega arith) (omega arith)
            ∙ ap (λ (v : ℕ). parse_integer base 1 v rest) (omega arith))
    | inr more ↦ elim (Option-cases (digits base room (num / base))) [
      | inl nothing ↦ cc
      | inr (ds', got) ↦
          let c = hex_asc_upper (num % base) in
          let split : ds ≡ c ∷ ds' = ground arith in
          let whole : num / base * base + num % base ≡ num = grind arith in
          let rem : num % base < base = grind arith in
          let unrolled : reverse (c ∷ ds') ++ rest ≡ reverse ds' ++ (c ∷ rest) =
            reverse-cons c ds' rest in
          rw
            (
              split,
              unrolled,
              parse-digits room (num / base) ds' (c ∷ rest) (grind arith) (grind arith) got,
            )
            (parse_step (length ds') (num / base) (num % base) rest rem fits (omega arith)
              ∙ ap₂ (λ k v. parse_integer base k v rest) (omega arith) whole)
    ]
  ]

  -- The last digit of a large number is refused.
  parse_overflow :
      (n r d : ℕ) (rest : Bytes)
      → d < base
      → 2 ^ 60 ≤ r
      → parse_integer base n r (hex_asc_upper d ∷ rest) ≡ overflow
  unfolding parse_integer
  parse_overflow n r d rest hd hr =
      let in_base : leb base d ≡ false = ground arith in
      let too_large : leb (2 ^ 60) r ≡ true = ground arith in
      rw (digit_val-hex_asc_upper d (omega arith), parse_integer) (rw (in_base, too_large) refl)

  pub parse-digits_overflow :
      (room num : ℕ) (ds rest : Bytes)
      → (base ≡ 8) ⊎ (base ≡ 10) ⊎ (base ≡ 16)
      → num < 2 ^ 64
      → 2 ^ 60 ≤ num / base
      → digits base (suc room) num ≡ some ds
      → parse_integer base 0 0 (reverse ds ++ rest) ≡ overflow
  unfolding digits
  parse-digits_overflow room num ds rest which top large e =
      let more : (num / base == 0) ≡ false = ground (arith, large) in
      elim (Option-cases (digits base room (num / base))) [
        | inl nothing ↦ cc
        | inr (ds', got) ↦
            let c = hex_asc_upper (num % base) in
            let split : ds ≡ c ∷ ds' = ground arith in
            let rem : num % base < base = grind arith in
            let smaller : num / base < 2 ^ 61 = elim which [
              | inl b ↦ rw b (omega arith)
              | inr m ↦ elim m [ inl b ↦ rw b (omega arith) | inr b ↦ rw b (omega arith) ]
            ] in
            let fits : num / base / base < 2 ^ 60 = elim which [
              | inl b ↦ rw b (omega arith)
              | inr m ↦ elim m [ inl b ↦ rw b (omega arith) | inr b ↦ rw b (omega arith) ]
            ] in
            let unrolled : reverse (c ∷ ds') ++ rest ≡ reverse ds' ++ (c ∷ rest) =
              reverse-cons c ds' rest in
            ap (λ l. parse_integer base 0 0 (reverse l ++ rest)) split
            ∙ ap (λ l. parse_integer base 0 0 l) unrolled
            ∙ parse-digits room (num / base) ds' (c ∷ rest) (omega (arith, smaller)) fits got
            ∙ parse_overflow (length ds') (num / base) (num % base) rest rem large
      ]
