-- ===== src/IovIter/Advancing.antt =====
-- iov_iter/iov_iter.c: how the end of `iterate_and_advance` moves the iterator.
use xlinux.Common.{
  ℕ, ◌+◌, ◌-◌, ◌≤◌, ◌≡◌, refl, ap, ◌∙◌, List, [], ◌∷◌, ◌++◌, ◌==◌, length, arith, Bool-cases, inl,
  inr, length-append,
}
use mathlib.Core.List.{append_assoc, append-nil}
use xlinux.IovIter.{Bytes, KvecCursor, IovIter, advance_kvec}
use xlinux.IovIter.Writing.{flat, flat-append}

-- The offset is within the first segment.
abbrev pub InFirst : ℕ → List Bytes → Type 0
InFirst offset [] = offset ≡ 0
InFirst offset (segment ∷ l) = offset ≤ length segment

-- The memory of all segments, and the distance from its start at which the iterator stands.
abbrev pub contents : IovIter → Bytes
contents i = flat i.passed ++ flat i.kvec

abbrev pub position : IovIter → ℕ
position i = length (flat i.passed) + i.iov_offset

-- The state that `iterate_and_advance` leaves, from the end of `iterate_kvec` on.
pub record Advanced (i : IovIter) (n : ℕ) (c : KvecCursor) (i' : IovIter) : Type 0 where
  pub same : advance_kvec i n c ≡ i'
  pub kernel : i'.iter_type ≡ i.iter_type
  pub rest : i'.count ≡ i.count - n
  pub memory : contents i' ≡ flat i.passed ++ (flat c.before ++ (c.current ++ flat c.behind))
  pub place : position i' ≡ length (flat i.passed) + (length (flat c.before) + c.skip)
  pub first : InFirst i'.iov_offset i'.kvec

InFirst_zero : (l : List Bytes) → InFirst 0 l
InFirst_zero [] = refl
InFirst_zero (s ∷ l) = omega arith

pub advance_kvec-Advanced :
    (i : IovIter) (n : ℕ) (c : KvecCursor)
    → c.skip ≤ length c.current
    → (i' : IovIter) × Advanced i n c i'
unfolding advance_kvec
advance_kvec-Advanced i n c within = elim (Bool-cases (c.skip == length c.current)) [
  | inl at_end ↦
      let i' : IovIter = record i {
        iov_offset = 0;
        count = i.count - n;
        passed = i.passed ++ (c.before ++ (c.current ∷ []));
        kvec = c.behind;
      } in
      let flattened : flat (i.passed ++ (c.before ++ (c.current ∷ [])))
          ≡ flat i.passed ++ (flat c.before ++ c.current) =
        flat-append i.passed (c.before ++ (c.current ∷ []))
        ∙ ap (λ k. flat i.passed ++ k)
            (flat-append c.before (c.current ∷ [])
              ∙ ap (λ k. flat c.before ++ k) (append-nil c.current)) in
      let e : c.skip ≡ length c.current = ground (arith, at_end) in
      (
        i',
        record {
          same = rw (at_end, advance_kvec) refl;
          kernel = refl;
          rest = refl;
          memory = ap (λ k. k ++ flat c.behind) flattened ∙ simp append_assoc refl;
          place = omega (
            arith,
            ap (λ k. length k) flattened,
            length-append (flat i.passed) (flat c.before ++ c.current),
            length-append (flat c.before) c.current,
            e,
          );
          first = InFirst_zero c.behind;
        },
      )
  | inr inside ↦
      let i' : IovIter = record i {
        iov_offset = c.skip;
        count = i.count - n;
        passed = i.passed ++ c.before;
        kvec = c.current ∷ c.behind;
      } in
      let flattened = flat-append i.passed c.before in
      (
        i',
        record {
          same = rw (inside, advance_kvec) refl;
          kernel = refl;
          rest = refl;
          memory = ap (λ k. k ++ (c.current ++ flat c.behind)) flattened ∙ simp append_assoc refl;
          place =
              omega (
                arith,
                ap (λ k. length k) flattened,
                length-append (flat i.passed) (flat c.before),
              );
          first = within;
        },
      )
]
