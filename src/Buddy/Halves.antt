-- ===== src/Buddy/Halves.antt =====
-- Lemmas on `expand` of buddy/buddy.c.
use xlinux.Common.{
  ℕ, zero, suc, ◌+◌, ◌*◌, ◌^◌, ◌≤◌, ◌<◌, ◌≡◌, ◌⊎◌, ◌↔◌, inl, inr, ◌∷◌, leb, arith, refl, sym, ap,
  ◌∙◌, Bool-cases, max,
}
use mathlib.Core.Path.{subst}
use xlinux.Common.Bits.{pow-add_lem}
use xlinux.Common.Buddies.{Aligned}
use native.Mathlib.Nat.{one-le-pow, pow-suc}
use xlinux.Buddy.{Zone, max_order, set_page_order, add_to_free_list, expand}
use xlinux.Buddy.Blocks.{end_of, IsFree, WellFormed, IsClear}
use xlinux.Buddy.Free.{Freed, with_block-Freed}

-- A range without free pages overlaps no free block, and conversely.
pub IsClear-unused :
    (z : Zone) (p order : ℕ)
    → ((x : ℕ) → p ≤ x → x < p + 2 ^ order → ¬ IsFree z x)
    → IsClear z p order
IsClear-unused z p order f q h = elim (Bool-cases (leb (end_of z q) p)) [
  | inl before ↦ inl (ground arith)
  | inr late ↦ elim (Bool-cases (leb (p + 2 ^ order) q)) [
    | inl after ↦ inr (ground arith)
    | inr early ↦ absurd (
        f (max p q) (omega arith)
          (ground (arith, one-le-pow (z.page_order q) 2, one-le-pow order 2))
          (q, h, omega arith, ground (arith, one-le-pow (z.page_order q) 2)))
  ]
]

pub IsFree-used :
    (z : Zone) (p order x : ℕ) → IsClear z p order → p ≤ x → x < p + 2 ^ order → ¬ IsFree z x
IsFree-used z p order x clear lo hi (q, h, l, u) = let c = clear q h in absurd (ground arith)

-- The upper half of a block goes back to its list.
add_upper : ℕ → ℕ → Zone → Zone
add_upper page high z =
    set_page_order (page + 2 ^ high) high (add_to_free_list (page + 2 ^ high) high z)

upper_multiple :
    (m page high : ℕ) → page ≡ m * 2 ^ suc high → page + 2 ^ high ≡ (2 * m + 1) * 2 ^ high
upper_multiple m page high e =
    let t : m * 2 ^ suc high ≡ 2 * (m * 2 ^ high) =
      omega (arith, ap (λ (t : ℕ). m * t) (pow-suc 2 high)) in
    grind arith

add_upper-Freed :
    (z : Zone) (page high : ℕ)
    → WellFormed z
    → high < max_order
    → Aligned (suc high) page
    → IsClear z page (suc high)
    → Freed z (page + 2 ^ high) high (add_upper page high z)
unfolding add_upper set_page_order add_to_free_list
add_upper-Freed z page high wf low (m, e) clear =
    with_block-Freed z (page + 2 ^ high) high ((page + 2 ^ high) ∷ z.free_list high) wf low
      (2 * m + 1, upper_multiple m page high e)
      (λ q h. let c = clear q h in ground (arith, pow-suc 2 high)) (λ q. refl) refl

add_upper-IsClear :
    (z : Zone) (page high : ℕ)
    → IsClear z page (suc high)
    → (z' : Zone) → Freed z (page + 2 ^ high) high z'
    → IsClear z' page high
add_upper-IsClear z page high clear z' done = IsClear-unused z' page high (λ x lo hi h.
    elim ((done.free x).0 h) [
      | inl old ↦ IsFree-used z page (suc high) x clear lo (omega (arith, pow-suc 2 high)) old
      | inr (l, u) ↦ absurd (omega arith)
    ])

-- The zone `z'` after `expand` gave back all of a block of the order `high` but its first part.
pub record Expanded (z : Zone) (page low high : ℕ) (z' : Zone) : Type 0 where
  pub wf : WellFormed z'
  pub free : (x : ℕ) → IsFree z' x ↔ (IsFree z x ⊎ ((page + 2 ^ low ≤ x) × (x < page + 2 ^ high)))
  pub clear : IsClear z' page low
  pub refcounts : z'.refcount ≡ z.refcount

pub pow_grows : (low n : ℕ) → 2 ^ low ≤ 2 ^ (low + n)
pow_grows low n = rw (pow-add_lem low n) (grind (arith, one-le-pow n 2))

upper-Expanded :
    (z z' z'' : Zone) (page low n : ℕ)
    → Freed z (page + 2 ^ (low + n)) (low + n) z'
    → Expanded z' page low (low + n) z''
    → Expanded z page low (suc (low + n)) z''
upper-Expanded z z' z'' page low n up done = record {
  wf = done.wf;
  free = λ x. (
    λ h. elim ((done.free x).0 h) [
      | inl old ↦ elim ((up.free x).0 old) [
        | inl older ↦ inl older
        | inr (lo, hi) ↦ inr (omega (arith, pow_grows low n), ground (arith, pow-suc 2 (low + n)))
      ]
      | inr (lo, hi) ↦ inr (lo, ground (arith, pow-suc 2 (low + n)))
    ],
    λ h. elim h [
      | inl old ↦ (done.free x).1 (inl ((up.free x).1 (inl old)))
      | inr (lo, hi) ↦ elim (Bool-cases (leb (page + 2 ^ (low + n)) x)) [
        | inl high_half ↦
            (done.free x).1
              (inl ((up.free x).1 (inr (ground arith, ground (arith, pow-suc 2 (low + n))))))
        | inr low_half ↦ (done.free x).1 (inr (lo, ground arith))
      ]
    ],
  );
  clear = done.clear;
  refcounts = done.refcounts ∙ up.refcounts;
}

half-Aligned : (k page : ℕ) → Aligned (suc k) page → Aligned k page
half-Aligned k page (m, e) = (2 * m, e ∙ omega (arith, ap (λ (t : ℕ). m * t) (pow-suc 2 k)))

pub expand-Expanded :
    (n page low : ℕ) (z : Zone)
    → WellFormed z
    → low + n < max_order
    → Aligned (low + n) page
    → IsClear z page (low + n)
    → Expanded z page low (low + n) (expand n page low z)
unfolding expand add_upper
expand-Expanded zero page low z wf h al clear =
    let e : low + 0 ≡ low = omega arith in
    record {
      wf = wf;
      free = λ x. (
        inl,
        λ g. elim g [ inl old ↦ old | inr (lo, hi) ↦ absurd (omega (arith, ap (λ k. 2 ^ k) e)) ],
      );
      clear = subst (IsClear z page) e clear;
      refcounts = refl;
    }
expand-Expanded (suc n) page low z wf h al clear =
    let e : low + suc n ≡ suc (low + n) = omega arith in
    let al' = subst (λ k. Aligned k page) e al in
    let clear' = subst (IsClear z page) e clear in
    let up = add_upper-Freed z page (low + n) wf (omega arith) al' clear' in
    let done =
      expand-Expanded n page low (add_upper page (low + n) z) up.wf (omega arith)
        (half-Aligned (low + n) page al')
        (add_upper-IsClear z page (low + n) clear' (add_upper page (low + n) z) up) in
    subst (λ k. Expanded z page low k (expand (suc n) page low z)) (sym e)
      (upper-Expanded z (add_upper page (low + n) z)
        (expand n page low (add_upper page (low + n) z)) page low n up done)
