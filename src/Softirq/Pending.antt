-- ===== src/Softirq/Pending.antt =====
-- softirq/softirq.c: the actions that a run calls are those of the pending bits.
use xlinux.Common.{
  ℕ, zero, suc, ◌+◌, ◌-◌, ◌*◌, ◌/◌, ◌%◌, ◌^◌, ◌≤◌, ◌<◌, ◌≡◌, ◌≢◌, refl, ap, sym, ◌∙◌, List, [], ◌∷◌,
  Option, none, some, ◌==◌, ltb, arith, true, false, Bool-cases, Bool, inl, inr, if◌then◌else◌,
}
use xlinux.Common.Bits.{pow-add_lem}
use native.Mathlib.Nat.{
  one-le-pow, pow-suc, pow-le-pow_right, div-div-eq-div-mul, div-lt_iff_lt-mul,
}
use xlinux.Bitops.LowestBit.{Found, ffs_step-Found, multiple_of}
use xlinux.Softirq.{
  PendingState, SoftirqVec, Action, nr_softirqs, ffs_int, call_action, call_entry, softirq_loop,
  do_softirq, irq_exit,
}

-- The word is not 0: `ffs` is one more than the index of its lowest set bit.
record Lowest (x : ℕ) : Type 0 where
  index : ℕ
  high : ℕ
  found : ffs_int x ≡ suc index
  odd : high % 2 ≡ 1
  value : x ≡ high * 2 ^ index

ffs_int-Lowest : (x : ℕ) → 0 < x → x < 2 ^ 31 → Lowest x
unfolding ffs_int
ffs_int-Lowest x pos top =
    let start : Found 32 (x * 2) (1, x) = (omega arith, omega arith) in
    let s1 = ffs_step-Found 16 (λ w. omega arith) (x * 2) (1, x) start in
    let s2 = ffs_step-Found 8 (λ w. omega arith) (x * 2) _ s1.0 in
    let s3 = ffs_step-Found 4 (λ w. omega arith) (x * 2) _ s2.0 in
    let s4 = ffs_step-Found 2 (λ w. omega arith) (x * 2) _ s3.0 in
    let s5 = ffs_step-Found 1 (λ w. omega arith) (x * 2) _ s4.0 in
    let set : (x == 0) ≡ false = ground arith in lowest _ (rw set refl) s5.0.0 s5.0.1
  where
    lowest : (s : ℕ × ℕ) → ffs_int x ≡ s.0 → x * 2 ≡ s.1 * 2 ^ s.0 → s.1 % 2 ^ 1 ≢ 0 → Lowest x
    lowest (zero, word) run e odd = absurd (odd (omega (arith, e)))
    lowest (suc index, word) run e odd =
        let doubled : word * 2 ^ suc index ≡ word * 2 ^ index * 2 =
          ap (λ (t : ℕ). word * t) (pow-suc 2 index) ∙ grind arith in
        record {
          index = index;
          high = word;
          found = run;
          odd = omega (arith, odd);
          value = omega (arith, e, doubled);
        }

ffs_none : ffs_int 0 ≡ 0
unfolding ffs_int
ffs_none = refl

-- The indices of the set bits of a word of `n` bits, ascending, from an index on.
unfoldable pub set_bits : ℕ → ℕ → ℕ → List ℕ
set_bits zero i x = []
set_bits (suc n) i x =
    let rest = set_bits n (suc i) (x / 2) in if x % 2 == 1 then i ∷ rest else rest

set_bits_zero : (n i : ℕ) → set_bits n i 0 ≡ []
unfolding set_bits
set_bits_zero zero i = refl
set_bits_zero (suc n) i = set_bits_zero n (suc i)

set_bits_skip : (k m i q : ℕ) → set_bits (k + m) i (q * 2 ^ k) ≡ set_bits m (i + k) q
unfolding set_bits
set_bits_skip zero m i q =
    let z : 0 + m ≡ m = omega arith in
    let j : i + 0 ≡ i = omega arith in let w : q * 2 ^ 0 ≡ q = omega arith in rw (z, j, w) refl
set_bits_skip (suc k) m i q =
    let z : suc k + m ≡ suc (k + m) = omega arith in
    let j : i + suc k ≡ suc i + k = omega arith in
    let doubled : q * 2 ^ suc k ≡ q * 2 ^ k * 2 =
      ap (λ (t : ℕ). q * t) (pow-suc 2 k) ∙ grind arith in
    let even : (q * 2 ^ k * 2 % 2 == 1) ≡ false = ground arith in
    let half : q * 2 ^ k * 2 / 2 ≡ q * 2 ^ k = omega arith in
    rw (z, j, doubled, set_bits, even, half) (set_bits_skip k m (suc i) q)

-- The lowest set bit, and the others.
set_bits-Lowest :
    (n i x : ℕ) (l : Lowest x)
    → x < 2 ^ n
    → (m : ℕ) × (suc m ≤ n)
      × (x / 2 ^ suc l.index < 2 ^ m)
      × (set_bits n i x ≡ (i + l.index) ∷ set_bits m (i + suc l.index) (x / 2 ^ suc l.index))
unfolding set_bits
set_bits-Lowest n i x l top =
    let k = l.index in
    let p = 2 ^ k in
    let pos : 0 < p = one-le-pow k 2 (omega arith) in
    let large : p ≤ x = grind (arith, l.value, l.odd) in
    elim (Bool-cases (ltb k n)) [
      | inr low ↦
          let le : n ≤ k = ground (arith, low) in
          absurd (omega (arith, pow-le-pow_right {n = 2} (omega arith) le, large, top))
      | inl high ↦
          let lt : k < n = ground (arith, high) in
          let m = n - suc k in
          let width : k + suc m ≡ n = omega (arith, lt) in
          let whole : m + suc k ≡ n = omega (arith, lt) in
          let power : 2 ^ m * 2 ^ suc k ≡ 2 ^ n =
            sym (pow-add_lem m (suc k)) ∙ ap (λ t. 2 ^ t) whole in
          let half : x / 2 ^ suc k ≡ l.high / 2 =
            ap (λ t. x / t) (pow-suc 2 k)
            ∙ sym (div-div-eq-div-mul x p 2)
            ∙ ap (λ t. t / 2) (multiple_of x l.high p pos l.value).1 in
          let odd : (l.high % 2 == 1) ≡ true = ground (arith, l.odd) in
          let index : suc (i + k) ≡ i + suc k = omega arith in
          (
            m,
            omega (arith, lt),
            (div-lt_iff_lt-mul (one-le-pow (suc k) 2 (omega arith))).1 (omega (arith, power, top)),
            ap (λ t. set_bits t i x) (sym width)
                ∙ ap (λ t. set_bits (k + suc m) i t) l.value
                ∙ set_bits_skip k (suc m) i l.high
                ∙ rw (odd, half, index) refl,
          )
    ]

after_call :
    {S : Type 0} (o : Option (PendingState S)) (f g : PendingState S → Option (PendingState S))
    → ((s : PendingState S) → f s ≡ g s)
    → elim o [ none ↦ none | some s ↦ f s ] ≡ elim o [ none ↦ none | some s ↦ g s ]
after_call none f g h = refl
after_call (some s) f g h = h s

module _ {S : Type 0} (softirq_vec : SoftirqVec S) where
  -- The action of an index of the table.
  abbrev pub action_of : ℕ → Option (Action S)
  action_of i = if ltb i nr_softirqs then softirq_vec i else none

  -- The actions of the indices, one after the other, up to one that is missing or panics.
  unfoldable pub call_all : List ℕ → PendingState S → Option (PendingState S)
  call_all [] s = some s
  call_all (i ∷ l) s = elim (action_of i) [
    | none ↦ none
    | some action ↦ elim (action s) [ none ↦ none | some s' ↦ call_all l s' ]
  ]

  call_all-call_action :
      (i : ℕ) (l : List ℕ) (s : PendingState S)
      → call_all (i ∷ l) s
        ≡ elim (call_action softirq_vec i s) [ none ↦ none | some s' ↦ call_all l s' ]
  unfolding call_all call_action call_entry
  call_all-call_action i l s = entry (ltb i nr_softirqs) (softirq_vec i)
    where
      entry :
          (inside : Bool) (e : Option (Action S))
          → elim (if inside then e else none) [
            | none ↦ none
            | some action ↦ elim (action s) [ none ↦ none | some s' ↦ call_all l s' ]
          ]
            ≡ elim (if inside then call_entry e s else none) [
              | none ↦ none
              | some s' ↦ call_all l s'
            ]
      entry false e = refl
      entry true none = refl
      entry true (some action) = refl

  softirq_loop_stop :
      (fuel pending h : ℕ) (s : PendingState S)
      → ffs_int pending ≡ 0
      → softirq_loop softirq_vec (suc fuel) pending h s ≡ some s
  unfolding softirq_loop
  softirq_loop_stop fuel pending h s e = rw e refl

  softirq_loop_call :
      (fuel pending h k : ℕ) (s : PendingState S)
      → ffs_int pending ≡ suc k
      → softirq_loop softirq_vec (suc fuel) pending h s ≡ elim (call_action softirq_vec (h + k) s) [
        | none ↦ none
        | some s' ↦ softirq_loop softirq_vec fuel (pending / 2 ^ suc k) (h + suc k) s'
      ]
  unfolding softirq_loop
  softirq_loop_call fuel pending h k s e =
      let some_bit : (suc k == 0) ≡ false = ground arith in
      let index : suc k - 1 ≡ k = omega arith in
      ap
        (λ (b : ℕ). if b == 0 then some s else elim (call_action softirq_vec (h + (b - 1)) s) [
          | none ↦ none
          | some s' ↦ softirq_loop softirq_vec fuel (pending / 2 ^ b) (h + b) s'
        ])
        e
      ∙ rw (some_bit, index) refl

  softirq_loop-call_all :
      (fuel n pending h : ℕ) (s : PendingState S)
      → n < fuel
      → n ≤ 31
      → pending < 2 ^ n
      → softirq_loop softirq_vec fuel pending h s ≡ call_all (set_bits n h pending) s
  unfolding call_all
  softirq_loop-call_all zero n pending h s le most top = absurd (omega arith)
  softirq_loop-call_all (suc fuel) n pending h s le most top = elim (Bool-cases (pending == 0)) [
    | inl none_left ↦
        let z : pending ≡ 0 = ground (arith, none_left) in
        softirq_loop_stop fuel pending h s (ap ffs_int z ∙ ffs_none)
        ∙ sym (ap (λ l. call_all l s) (ap (set_bits n h) z ∙ set_bits_zero n h))
    | inr some_left ↦
        let bound : 2 ^ n ≤ 2 ^ 31 = pow-le-pow_right {n = 2} (omega arith) most in
        let l = ffs_int-Lowest pending (ground (arith, some_left)) (omega (arith, bound, top)) in
        let (m, less, top', bits) = set_bits-Lowest n h pending l top in
        let rest = pending / 2 ^ suc l.index in
        let next = h + suc l.index in
        softirq_loop_call fuel pending h l.index s l.found
        ∙ after_call (call_action softirq_vec (h + l.index) s)
            (softirq_loop softirq_vec fuel rest next) (call_all (set_bits m next rest))
            (λ s'.
              softirq_loop-call_all fuel m rest next s' (omega (arith, less, le))
                (omega (arith, less, most)) top')
        ∙ sym (call_all-call_action (h + l.index) (set_bits m next rest) s)
        ∙ sym (ap (λ l. call_all l s) bits)
  ]

  do_softirq-call_all :
      (pending : ℕ) (s : S)
      → pending < 2 ^ 31
      → do_softirq softirq_vec (pending, s) ≡ call_all (set_bits 31 0 pending) (0, s)
  unfolding do_softirq
  do_softirq-call_all pending s top =
      softirq_loop-call_all 32 31 pending 0 (0, s) (omega arith) (omega arith) top

  -- `irq_exit` with the pending bits of a positive `int` resets them and calls the actions of
  -- exactly these bits, the lowest first, each once. It returns unless one of the bits is not below
  -- `NR_SOFTIRQS`, or its action is `NULL` or panics.
  pub irq_exit-call_all :
      (pending : ℕ) (s : S)
      → pending < 2 ^ 31
      → irq_exit softirq_vec (pending, s) ≡ call_all (set_bits 31 0 pending) (0, s)
  unfolding irq_exit call_all
  irq_exit-call_all pending s top = elim (Bool-cases (pending == 0)) [
    | inl none_left ↦
        let z : pending ≡ 0 = ground (arith, none_left) in
        rw (none_left, z, set_bits_zero 31 0) refl
    | inr some_left ↦ rw some_left (do_softirq-call_all pending s top)
  ]
