-- ===== src/Vsprintf/Format/Bounded.antt =====
-- The theorem on the buffer of `vsnprintf` of lib/vsprintf.c and its lemmas.
use xlinux.Common.{
  ℕ, zero, suc, ◌-◌, ◌≤◌, ◌≡◌, ◌≢◌, min, List, [], ◌∷◌, ◌++◌, ltb, leb, if◌then◌else◌, length, take,
  drop, arith, refl, Bool-cases, Option-cases, inl, inr, ap, sym, ◌∙◌, length-append,
  take-append_room, take-append_full, take_all, lt→ltb,
}
use mathlib.Core.Path.{subst}
use mathlib.Core.List.{append-nil, append_assoc}
use xlinux.CString.{Bytes}
use xlinux.Vsprintf.Format.{
  FormatType, literal, Spec, no_spec, Decoded, format_decode, Arg, directive, Buf, put, put_all,
  put_literal, Outcome, ok, bug, bad_arg, no_fuel, Next, convert, apply_directive, format_loop,
  terminate, finish, vsnprintf,
}
use xlinux.Vsprintf.Format.Reference.{
  behind, argument, piece, formatted, HasEnded, formatted-HasEnded,
}

-- The buffer of `size` bytes behind the output `full`.
abbrev buf_of : ℕ → Bytes → Buf
buf_of size full = record { size = size; pos = length full; bytes = take size full }

buf_of_eq :
    (size : ℕ) (full : Bytes) (p : ℕ) (bs : Bytes)
    → p ≡ length full
    → bs ≡ take size full
    → ◌≡◌ {A = Buf} (record { size = size; pos = p; bytes = bs }) (buf_of size full)
buf_of_eq size full p bs e f = λ i. record { size = size; pos = e i; bytes = f i }

take-min : (n : ℕ) (s : Bytes) → take (min (length s) n) s ≡ take n s
take-min n s = elim (Bool-cases (leb n (length s))) [
  | inl short ↦ ap (λ k. take k s) (ground arith)
  | inr long ↦ take_all _ s (ground arith) ∙ sym (take_all n s (ground arith))
]

put_literal-buf_of :
    (size : ℕ) (full s : Bytes) → put_literal s (buf_of size full) ≡ buf_of size (full ++ s)
unfolding put_literal
put_literal-buf_of size full s =
    buf_of_eq size (full ++ s) _ _ (omega (arith, length-append full s)) stored
  where
    stored :
        (if ltb (length full) size
          then take size full ++ take (min (length s) (size - length full)) s
          else take size full)
        ≡ take size (full ++ s)
    stored = elim (Bool-cases (ltb (length full) size)) [
      | inl room ↦
          let le : length full ≤ size = ground arith in
          rw (room, take_all size full le, take-min (size - length full) s)
            (sym (take-append_room size full s le))
      | inr none_left ↦ rw none_left (sym (take-append_full size full s (ground arith)))
    ]

put-buf_of : (size c : ℕ) (full : Bytes) → put c (buf_of size full) ≡ buf_of size (full ++ (c ∷ []))
unfolding put
put-buf_of size c full =
    buf_of_eq size (full ++ (c ∷ [])) _ _ (omega (arith, length-append full (c ∷ []))) stored
  where
    stored :
        (if ltb (length full) size then take size full ++ (c ∷ []) else take size full)
        ≡ take size (full ++ (c ∷ []))
    stored = elim (Bool-cases (ltb (length full) size)) [
      | inl room ↦
          let le : length full ≤ size = ground arith in
          let one : take (size - length full) (c ∷ []) ≡ c ∷ [] =
            take_all (size - length full) (c ∷ []) (ground arith) in
          rw (room, take_all size full le)
            (ap (λ l. full ++ l) (sym one) ∙ sym (take-append_room size full (c ∷ []) le))
      | inr none_left ↦ rw none_left (sym (take-append_full size full (c ∷ []) (ground arith)))
    ]

put_all-buf_of :
    (size : ℕ) (s full : Bytes) → put_all s (buf_of size full) ≡ buf_of size (full ++ s)
unfolding put_all
put_all-buf_of size [] full = ap (buf_of size) (sym (append-nil full))
put_all-buf_of size (c ∷ s) full =
    ap (put_all s) (put-buf_of size c full)
    ∙ put_all-buf_of size s (full ++ (c ∷ []))
    ∙ ap (buf_of size) (append_assoc full (c ∷ []) s)

-- The outcome with the output behind `full` in a buffer.
onto : ℕ → Bytes → Outcome Bytes → Outcome Buf
onto size full (ok t) = ok (buf_of size (full ++ t))
onto size full bug = bug
onto size full bad_arg = bad_arg
onto size full no_fuel = no_fuel

onto-behind :
    (size : ℕ) (full out : Bytes) (o : Outcome Bytes)
    → onto size (full ++ out) o ≡ onto size full (behind out o)
unfolding onto behind
onto-behind size full out (ok t) = ap (λ k. ok (buf_of size k)) (append_assoc full out t)
onto-behind size full out bug = refl
onto-behind size full out bad_arg = refl
onto-behind size full out no_fuel = refl

module _ (size : ℕ) where
  -- The loop with a buffer does what the reference says.
  abbrev Matches : Next → (List Arg → Outcome Bytes) → Type 0
  Matches next reference =
      (args : List Arg) (full : Bytes)
      → next args (buf_of size full) ≡ onto size full (reference args)

  convert-argument :
      (d : Decoded) (next : Next) (reference : List Arg → Outcome Bytes)
      → Matches next reference
      → Matches (convert d next) (argument d reference)
  unfolding convert argument onto
  convert-argument d next reference u [] full = refl
  convert-argument d next reference u (a ∷ args) full = elim (Option-cases (directive d a)) [
    | inl nothing ↦ rw (nothing, convert, argument) refl
    | inr (out, got) ↦
        rw (got, convert, argument)
          (ap (next args) (put_all-buf_of size out full)
            ∙ u args (full ++ out)
            ∙ onto-behind size full out (reference args))
  ]

  apply_directive-piece :
      (d : Decoded) (t : FormatType) (next : Next) (reference : List Arg → Outcome Bytes)
      → Matches next reference
      → Matches (apply_directive d t next) (piece d t reference)
  unfolding apply_directive piece
  apply_directive-piece d literal next reference u args full =
      ap (next args) (put_literal-buf_of size full d.piece)
      ∙ u args (full ++ d.piece)
      ∙ onto-behind size full d.piece (reference args)
  apply_directive-piece d _ next reference u args full =
      convert-argument d next reference u args full

  format_loop-formatted :
      (fuel : ℕ) (fmt : Bytes) (s : Spec) → Matches (format_loop fuel fmt s) (formatted fuel fmt s)
  unfolding format_loop formatted onto
  format_loop-formatted zero fmt s args full = refl
  format_loop-formatted (suc fuel) [] s args full =
      ap (λ k. ok (buf_of size k)) (sym (append-nil full))
  format_loop-formatted (suc fuel) (c ∷ fmt) s args full =
      elim (Option-cases (format_decode (c ∷ fmt) s)) [
        | inl e ↦ rw (e, format_loop, formatted) refl
        | inr (d, e) ↦
            rw (e, format_loop, formatted)
              (apply_directive-piece d d.spec.type
                (format_loop fuel (drop d.taken (c ∷ fmt)) d.spec)
                (formatted fuel (drop d.taken (c ∷ fmt)) d.spec)
                (format_loop-formatted fuel (drop d.taken (c ∷ fmt)) d.spec) args full)
      ]

-- What a buffer of `size` bytes holds of the output `full`: its beginning and the terminator.
abbrev pub stored : ℕ → Bytes → Bytes
stored zero full = []
stored (suc size) full = take size full ++ (0 ∷ [])

take-take-suc : (n : ℕ) (s : Bytes) → take n (take (suc n) s) ≡ take n s
take-take-suc zero s = refl
take-take-suc (suc n) [] = refl
take-take-suc (suc n) (c ∷ s) = ap (λ l. c ∷ l) (take-take-suc n s)

terminate_lem : (size : ℕ) (full : Bytes) → terminate (buf_of size full) ≡ stored size full
unfolding terminate
terminate_lem zero full = refl
terminate_lem (suc size) full =
    rw (lt→ltb 0 (suc size) (omega arith)) elim (Bool-cases (ltb (length full) (suc size))) [
      | inl room ↦ rw room (
          ap (λ l. l ++ (0 ∷ []))
            (take_all (suc size) full (ground arith) ∙ sym (take_all size full (ground arith))))
      | inr none_left ↦ rw none_left (
          ap (λ k. take k (take (suc size) full) ++ (0 ∷ [])) (omega arith)
          ∙ ap (λ l. l ++ (0 ∷ [])) (take-take-suc size full))
    ]

-- What a call with a buffer of `size` bytes comes to, by the whole output: its length, and what of it
-- is stored; or the same failure.
unfoldable pub cut : ℕ → Outcome Bytes → Outcome (ℕ × Bytes)
cut size (ok full) = ok (length full, stored size full)
cut size bug = bug
cut size bad_arg = bad_arg
cut size no_fuel = no_fuel

finish-cut : (size : ℕ) (o : Outcome Bytes) → finish (onto size [] o) ≡ cut size o
unfolding finish onto cut
finish-cut size (ok full) = ap (λ k. ok (length full, k)) (terminate_lem size full)
finish-cut size bug = refl
finish-cut size bad_arg = refl
finish-cut size no_fuel = refl

-- For every size, format and argument list, `vsnprintf` ends. It panics or fails exactly where the
-- formatting without a buffer does; otherwise it returns the length of the whole output that this
-- gives, and stores its first `size - 1` bytes and a terminator, and nothing where the size is 0.
pub vsnprintf-formatted :
    (size : ℕ) (fmt : Bytes) (args : List Arg)
    → (vsnprintf size fmt args ≡ cut size (formatted (suc (length fmt)) fmt no_spec args))
      × (formatted (suc (length fmt)) fmt no_spec args ≢ no_fuel)
unfolding vsnprintf
vsnprintf-formatted size fmt args =
    let fuel = suc (length fmt) in
    let start : ◌≡◌ {A = Buf} (record { size = size; pos = 0; bytes = [] }) (buf_of size []) =
      buf_of_eq size [] 0 [] refl (sym (take_all size [] (omega arith))) in
    (
      ap (λ b. finish (format_loop fuel fmt no_spec args b)) start
          ∙ ap finish (format_loop-formatted size fuel fmt no_spec args [])
          ∙ finish-cut size (formatted fuel fmt no_spec args),
      λ e. subst HasEnded e (formatted-HasEnded fuel fmt no_spec args (omega arith)),
    )
