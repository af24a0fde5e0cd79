-- ===== src/IovIter/Iterating.antt =====
-- iov_iter/iov_iter.c: what `iterate_kvec` writes, and where it ends.
use xlinux.Common.{
  ℕ, zero, suc, ◌+◌, ◌-◌, ◌≤◌, ◌<◌, min, ◌≡◌, refl, ap, sym, ◌∙◌, List, [], ◌∷◌, ◌++◌, some, ◌==◌,
  ltb, length, take, drop, arith, false, Bool-cases, inl, inr, length-append, take-append_full,
}
use mathlib.Core.List.{append_assoc}
use xlinux.IovIter.{Bytes, KvecCursor, overwrite, iterate_kvec}
use xlinux.IovIter.Writing.{
  flat, length-take, length-drop, overwrite-append, length-overwrite, next_kvecs-Written,
}

drop-append_full : (n : ℕ) (xs ys : Bytes) → n ≤ length xs → drop n (xs ++ ys) ≡ drop n xs ++ ys
drop-append_full zero xs ys h = refl
drop-append_full (suc n) [] ys h = absurd (omega arith)
drop-append_full (suc n) (x ∷ xs) ys h = drop-append_full n xs ys (omega arith)

-- Where `iterate_kvec` ends.
pub record Iterated (segments : List Bytes) (skip : ℕ) (from : Bytes) (c : KvecCursor)
    : Type 0 where
  pub run : iterate_kvec segments skip from ≡ some c
  pub memory :
      flat c.before ++ (c.current ++ flat c.behind)
      ≡ take skip (flat segments) ++ overwrite (length from) from (drop skip (flat segments))
  pub position : length (flat c.before) + c.skip ≡ skip + length from
  pub within : c.skip ≤ length c.current

pub iterate_kvec-Iterated :
    (segment : Bytes) (behind : List Bytes) (skip : ℕ) (from : Bytes)
    → skip ≤ length segment
    → skip + length from ≤ length (flat (segment ∷ behind))
    → (c : KvecCursor) × Iterated (segment ∷ behind) skip from c
unfolding iterate_kvec
iterate_kvec-Iterated segment behind skip from h total =
    let no_wrap : ltb (length segment) skip ≡ false = ground arith in
    let tail = drop skip segment in
    let n = min (length from) (length segment - skip) in
    let tail_room : length tail ≡ length segment - skip = length-drop skip segment in
    let now = take skip segment ++ overwrite n from tail in
    let rest = drop n from in
    let left : length rest ≡ length from - n = length-drop n from in
    let now_room : length now ≡ length segment = omega (
      arith,
      length-append (take skip segment) (overwrite n from tail),
      length-take skip segment h,
      tail_room,
      length-overwrite n from tail (omega arith) (omega (arith, tail_room)),
    ) in
    let sum = length-append segment (flat behind) in
    let (c, w) = next_kvecs-Written now (skip + n) behind rest (omega (arith, left, sum, total)) in
    (
      c,
      record {
        run = rw (no_wrap, iterate_kvec) w.run;
        memory =
            w.memory
            ∙ append_assoc (take skip segment) (overwrite n from tail)
                (overwrite (length rest) rest (flat behind))
            ∙ ap (λ k. take skip segment ++ k)
                (overwrite-append from tail (flat behind) n (omega (arith, tail_room)))
            ∙ ap (λ k. k ++ overwrite (length from) from (tail ++ flat behind))
                (sym (take-append_full skip segment (flat behind) h))
            ∙ ap (λ k. take skip (segment ++ flat behind) ++ overwrite (length from) from k)
                (sym (drop-append_full skip segment (flat behind) h));
        position = elim (Bool-cases (length rest == 0)) [
          | inl none_left ↦
              let z : length rest ≡ 0 = ground (arith, none_left) in
              omega (arith, w.stays z, left, z)
          | inr some_left ↦
              let p : 0 < length rest = ground (arith, some_left) in
              omega (arith, w.moves p, left, p, now_room)
        ];
        within = w.within (λ e. omega (arith, now_room));
      },
    )
