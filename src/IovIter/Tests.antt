-- ===== src/IovIter/Tests.antt =====
-- iov_iter/iov_iter.c: runs of the copy, and the theorem on one.
use xlinux.Common.{◌≡◌, refl, none, some, [], ◌∷◌, true, arith}
use xlinux.IovIter.{
  IterType, IovIter, iov_iter_init, copy_to_iter, copy_to_iter_of, iterate_and_advance,
  iterate_kvec, next_kvecs, pass_segment, advance_kvec, advanced, copy_page_to_iter,
  is_bvec_or_kvec, page_copy_sane,
}
use xlinux.IovIter.Copying.{Copied, copy_to_iter-Copied}

-- Three segments, the second of them empty; one byte of the first is written already.
abbrev three_segments : IovIter
three_segments = record {
  iter_type = IterType.iter_kvec;
  direction = 0;
  iov_offset = 1;
  count = 4;
  passed = [];
  kvec = (1 ∷ 2 ∷ []) ∷ [] ∷ (4 ∷ 5 ∷ 6 ∷ []) ∷ [];
}

copies_over_segments :
    copy_to_iter (7 ∷ 8 ∷ []) three_segments
    ≡ some (
      2,
      record three_segments {
        iov_offset = 1;
        count = 2;
        passed = (1 ∷ 7 ∷ []) ∷ [] ∷ [];
        kvec = (8 ∷ 5 ∷ 6 ∷ []) ∷ [];
      },
    )
unfolding copy_to_iter copy_to_iter_of iterate_and_advance iterate_kvec next_kvecs pass_segment
    advance_kvec advanced
copies_over_segments = refl

user_memory_panics :
    copy_to_iter (7 ∷ []) (record three_segments { iter_type = IterType.iter_iovec }) ≡ none
unfolding copy_to_iter copy_to_iter_of
user_memory_panics = refl

bad_direction_panics : iov_iter_init true 2 ((1 ∷ []) ∷ []) 1 ≡ none
unfolding iov_iter_init
bad_direction_panics = refl

behind_the_page_panics : copy_page_to_iter [] 4096 1 three_segments ≡ none
unfolding copy_page_to_iter is_bvec_or_kvec page_copy_sane
behind_the_page_panics = refl

copy_to_iter-Copied_example : (i : IovIter) × Copied (7 ∷ 8 ∷ []) three_segments 2 i
copy_to_iter-Copied_example =
    copy_to_iter-Copied (7 ∷ 8 ∷ []) three_segments
      (record { kernel = refl; first = omega arith; room = omega arith })
