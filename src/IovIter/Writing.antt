-- ===== src/IovIter/Writing.antt =====
-- iov_iter/iov_iter.c: what the loop over the segments writes.
use xlinux.Common.{
  ℕ, zero, suc, ◌+◌, ◌-◌, ◌≤◌, ◌<◌, min, ◌≡◌, refl, ap, sym, ◌∙◌, List, [], ◌∷◌, ◌++◌, some, ◌==◌,
  length, take, drop, arith, true, false, Bool-cases, inl, inr, length-append,
}
use mathlib.Core.List.{append_assoc}
use xlinux.IovIter.{Bytes, KvecCursor, overwrite, next_kvecs, pass_segment}

-- The segments as one sequence of bytes.
abbrev pub flat : List Bytes → Bytes
flat [] = []
flat (s ∷ l) = s ++ flat l

pub flat-append : (xs ys : List Bytes) → flat (xs ++ ys) ≡ flat xs ++ flat ys
flat-append [] ys = refl
flat-append (s ∷ xs) ys =
    ap (λ k. s ++ k) (flat-append xs ys) ∙ sym (append_assoc s (flat xs) (flat ys))

pub length-take : (n : ℕ) (l : Bytes) → n ≤ length l → length (take n l) ≡ n
length-take zero l h = omega arith
length-take (suc n) [] h = absurd (omega arith)
length-take (suc n) (x ∷ l) h = omega (arith, length-take n l (omega arith))

pub length-drop : (n : ℕ) (l : Bytes) → length (drop n l) ≡ length l - n
length-drop zero l = omega arith
length-drop (suc n) [] = omega arith
length-drop (suc n) (x ∷ l) = omega (arith, length-drop n l)

-- The bytes that fit into a segment, and the others over what follows it.
pub overwrite-append :
    (from segment l : Bytes) (n : ℕ)
    → n ≡ min (length from) (length segment)
    → overwrite n from segment ++ overwrite (length (drop n from)) (drop n from) l
      ≡ overwrite (length from) from (segment ++ l)
overwrite-append [] segment l zero h = refl
overwrite-append [] segment l (suc n) h = absurd (omega arith)
overwrite-append (b ∷ from) [] l zero h = refl
overwrite-append (b ∷ from) [] l (suc n) h = absurd (omega arith)
overwrite-append (b ∷ from) (x ∷ segment) l zero h = absurd (omega arith)
overwrite-append (b ∷ from) (x ∷ segment) l (suc n) h =
    ap (λ k. b ∷ k) (overwrite-append from segment l n (omega arith))

pub length-overwrite :
    (n : ℕ) (from old : Bytes)
    → n ≤ length from
    → n ≤ length old
    → length (overwrite n from old) ≡ length old
length-overwrite n from old h h' =
    omega (arith, length-append (take n from) (drop n old), length-take n from h, length-drop n old)

-- Where the loop ends: the memory from the current segment on, and the distance.
pub record Written (current : Bytes) (skip : ℕ) (behind : List Bytes) (from : Bytes)
    (c : KvecCursor) : Type 0 where
  pub run : next_kvecs current skip behind from ≡ some c
  pub memory :
      flat c.before ++ (c.current ++ flat c.behind)
      ≡ current ++ overwrite (length from) from (flat behind)
  pub stays : length from ≡ 0 → length (flat c.before) + c.skip ≡ skip
  pub moves : 0 < length from → length (flat c.before) + c.skip ≡ length current + length from
  pub within : (length from ≡ 0 → skip ≤ length current) → c.skip ≤ length c.current

-- One more segment is passed.
passed :
    (current : Bytes) (skip : ℕ) (segment : Bytes) (behind : List Bytes) (b : ℕ) (from : Bytes)
    (now : Bytes) (at : ℕ) (rest : Bytes)
    → next_kvecs current skip (segment ∷ behind) (b ∷ from)
      ≡ pass_segment current (next_kvecs now at behind rest)
    → now ++ overwrite (length rest) rest (flat behind)
      ≡ overwrite (length (b ∷ from)) (b ∷ from) (segment ++ flat behind)
    → (length rest ≡ 0 → at ≡ length (b ∷ from))
    → (0 < length rest → length now + length rest ≡ length (b ∷ from))
    → (length rest ≡ 0 → at ≤ length now)
    → (c : KvecCursor) × Written now at behind rest c
    → (c : KvecCursor) × Written current skip (segment ∷ behind) (b ∷ from) c
unfolding pass_segment
passed current skip segment behind b from now at rest same memory stays moves within (c, w) = (
  record c { before = current ∷ c.before },
  record {
    run = same ∙ ap (pass_segment current) w.run;
    memory =
        append_assoc current (flat c.before) (c.current ++ flat c.behind)
        ∙ ap (λ k. current ++ k) (w.memory ∙ memory);
    stays = λ e. absurd (omega (arith, e));
    moves = λ e. elim (Bool-cases (length rest == 0)) [
      | inl none_left ↦
          let z : length rest ≡ 0 = ground (arith, none_left) in
          omega (arith, length-append current (flat c.before), w.stays z, stays z)
      | inr some_left ↦
          let p : 0 < length rest = ground (arith, some_left) in
          omega (arith, length-append current (flat c.before), w.moves p, moves p)
    ];
    within = λ e. w.within within;
  },
)

pub next_kvecs-Written :
    (current : Bytes) (skip : ℕ) (behind : List Bytes) (from : Bytes)
    → length from ≤ length (flat behind)
    → (c : KvecCursor) × Written current skip behind from c
unfolding next_kvecs
next_kvecs-Written current skip behind [] h = (
  record { before = []; current = current; behind = behind; skip = skip },
  record {
    run = refl;
    memory = refl;
    stays = λ e. omega arith;
    moves = λ e. absurd (omega (arith, e));
    within = λ f. f (omega arith);
  },
)
next_kvecs-Written current skip [] (b ∷ from) h = absurd (omega arith)
next_kvecs-Written current skip ([] ∷ behind) (b ∷ from) h =
    let empty : (min (length (b ∷ from)) 0 == 0) ≡ true = ground arith in
    passed current skip [] behind b from [] skip (b ∷ from) (rw (empty, next_kvecs) refl) refl
      (λ e. absurd (omega (arith, e))) (λ e. omega arith) (λ e. absurd (omega (arith, e)))
      (next_kvecs-Written [] skip behind (b ∷ from) h)
next_kvecs-Written current skip ((x ∷ segment) ∷ behind) (b ∷ from) h =
    let n = min (length (b ∷ from)) (length (x ∷ segment)) in
    let full : (n == 0) ≡ false = ground arith in
    let rest = drop n (b ∷ from) in
    let left : length rest ≡ length (b ∷ from) - n = length-drop n (b ∷ from) in
    let kept : length (overwrite n (b ∷ from) (x ∷ segment)) ≡ length (x ∷ segment) =
      length-overwrite n (b ∷ from) (x ∷ segment) (omega arith) (omega arith) in
    let room = length-append (x ∷ segment) (flat behind) in
    passed current skip (x ∷ segment) behind b from (overwrite n (b ∷ from) (x ∷ segment)) n rest
      (rw (full, next_kvecs) refl) (overwrite-append (b ∷ from) (x ∷ segment) (flat behind) n refl)
      (λ e. omega (arith, left, e)) (λ e. omega (arith, left, kept, e)) (λ e. omega (arith, kept))
      (next_kvecs-Written (overwrite n (b ∷ from) (x ∷ segment)) n behind rest
        (omega (arith, left, room, h)))
