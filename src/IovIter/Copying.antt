-- ===== src/IovIter/Copying.antt =====
-- iov_iter/iov_iter.c: a copy to an iterator writes the bytes where it stands, and moves it.
use xlinux.Common.{
  ℕ, zero, suc, ◌+◌, ◌-◌, ◌≤◌, ◌<◌, min, ◌≡◌, refl, ap, sym, ◌∙◌, List, [], ◌∷◌, ◌++◌, some, ◌==◌,
  length, take, drop, arith, false, Bool-cases, inl, inr, length-append, take_all,
}
use mathlib.Core.Path.{subst}
use xlinux.IovIter.{
  Bytes, IterType, IovIter, overwrite, advanced, iterate_and_advance, copy_to_iter_of, copy_to_iter,
}
use xlinux.IovIter.Writing.{flat, length-take, length-drop, length-overwrite}
use xlinux.IovIter.Advancing.{InFirst, contents, position, advance_kvec-Advanced}
use xlinux.IovIter.Iterating.{iterate_kvec-Iterated}

-- An iterator over memory of the kernel, with room for its count.
pub record IsValid (i : IovIter) : Type 0 where
  pub kernel : i.iter_type ≡ IterType.iter_kvec
  pub first : InFirst i.iov_offset i.kvec
  pub room : i.iov_offset + i.count ≤ length (flat i.kvec)

-- What a copy of `n` bytes makes of an iterator.
pub record Copied (from : Bytes) (i : IovIter) (n : ℕ) (i' : IovIter) : Type 0 where
  pub run : copy_to_iter from i ≡ some (n, i')
  pub rest : i'.count ≡ i.count - n
  pub moved : position i' ≡ position i + n
  pub written :
      contents i'
      ≡ flat i.passed
        ++ (take i.iov_offset (flat i.kvec)
            ++ (take n from ++ drop n (drop i.iov_offset (flat i.kvec))))
  pub valid : IsValid i'

take-drop : (n : ℕ) (l : Bytes) → take n l ++ drop n l ≡ l
take-drop zero l = refl
take-drop (suc n) [] = refl
take-drop (suc n) (x ∷ l) = ap (λ k. x ∷ k) (take-drop n l)

length-overwritten :
    (offset : ℕ) (l from : Bytes)
    → offset + length from ≤ length l
    → length (take offset l ++ overwrite (length from) from (drop offset l)) ≡ length l
length-overwritten offset l from h = omega (
  arith,
  length-append (take offset l) (overwrite (length from) from (drop offset l)),
  length-take offset l (omega arith),
  length-drop offset l,
  length-overwrite (length from) from (drop offset l) (omega arith)
      (omega (arith, length-drop offset l)),
)

-- The iterator has a segment and a count.
Copied-some :
    (from : Bytes) (direction offset count : ℕ) (before : List Bytes) (segments : List Bytes)
    → InFirst offset segments
    → 0 < count
    → offset + count ≤ length (flat segments)
    → (i' : IovIter) × Copied from
        (record {
          iter_type = IterType.iter_kvec;
          direction = direction;
          iov_offset = offset;
          count = count;
          passed = before;
          kvec = segments;
        })
        (min (length from) count)
        i'
unfolding copy_to_iter copy_to_iter_of iterate_and_advance advanced
Copied-some from direction offset count before [] first some_left room = absurd (omega arith)
Copied-some from direction offset count before (segment ∷ behind) first some_left room =
    let i : IovIter = record {
      iter_type = IterType.iter_kvec;
      direction = direction;
      iov_offset = offset;
      count = count;
      passed = before;
      kvec = segment ∷ behind;
    } in
    let n = min (length from) count in
    let memory = flat (segment ∷ behind) in
    let sized : length (take n from) ≡ n = length-take n from (omega arith) in
    let (c, it) =
      iterate_kvec-Iterated segment behind offset (take n from) first
        (omega (arith, sized, room)) in
    let (i', a) = advance_kvec-Advanced i n c it.within in
    let counted : (count == 0) ≡ false = ground arith in
    let here : take offset memory
          ++ overwrite (length (take n from)) (take n from) (drop offset memory)
        ≡ take offset memory ++ (take n from ++ drop n (drop offset memory)) =
      ap (λ k. take offset memory ++ k)
        (ap (λ k. k ++ drop (length (take n from)) (drop offset memory))
            (take_all (length (take n from)) (take n from) (omega arith))
          ∙ ap (λ k. take n from ++ drop k (drop offset memory)) sized) in
    let whole : contents i'
        ≡ flat before ++ (take offset memory ++ (take n from ++ drop n (drop offset memory))) =
      a.memory ∙ ap (λ k. flat before ++ k) (it.memory ∙ here) in
    let place : position i' ≡ length (flat before) + offset + n =
      omega (arith, a.place, it.position, sized) in
    let kept =
      length-append (flat before)
        (take offset memory ++ (take n from ++ drop n (drop offset memory))) in
    let same_room = length-overwritten offset memory (take n from) (omega (arith, sized, room)) in
    (
      i',
      record {
        run = rw (counted, it.run) (ap (λ k. some (n, k)) a.same);
        rest = a.rest;
        moved = place;
        written = whole;
        valid = record {
          kernel = a.kernel;
          first = a.first;
          room = omega (
            arith,
            ap (λ k. length k) whole,
            length-append (flat i'.passed) (flat i'.kvec),
            kept,
            same_room,
            ap (λ k. length k) here,
            place,
            a.rest,
            room,
          );
        };
      },
    )

-- A copy to a valid iterator does not panic: it copies as many bytes as are there and the count
-- allows, writes them over the memory where the iterator stands and nowhere else, moves the
-- iterator by them, takes them off its count, and leaves it valid.
pub copy_to_iter-Copied :
    (from : Bytes) (i : IovIter)
    → IsValid i
    → (i' : IovIter) × Copied from i (min (length from) i.count) i'
unfolding copy_to_iter copy_to_iter_of iterate_and_advance
copy_to_iter-Copied from i valid = elim (Bool-cases (i.count == 0)) [
  | inl no_count ↦
      let z : i.count ≡ 0 = ground (arith, no_count) in
      let n : min (length from) i.count ≡ 0 = omega (arith, z) in
      (
        i,
        record {
          run = rw (valid.kernel, no_count, copy_to_iter_of, iterate_and_advance) refl;
          rest = omega (arith, n);
          moved = omega (arith, n);
          written =
              ap (λ k. flat i.passed ++ k) (sym (take-drop i.iov_offset (flat i.kvec)))
              ∙ ap
                  (λ k.
                    flat i.passed
                    ++ (take i.iov_offset (flat i.kvec)
                        ++ (take k from ++ drop k (drop i.iov_offset (flat i.kvec)))))
                  (sym n);
          valid = valid;
        },
      )
  | inr some_left ↦
      subst
        (λ type.
          (i' : IovIter) × Copied from (record i { iter_type = type }) (min (length from) i.count)
            i')
        (sym valid.kernel)
        (Copied-some from i.direction i.iov_offset i.count i.passed i.kvec valid.first
          (ground (arith, some_left)) valid.room)
]
