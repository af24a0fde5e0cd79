-- ===== src/Slab/Places/Takes.antt =====
-- slab/slab.c: objects leave a slab for the stack of entries.
use mathlib.Core.Path.{subst}
use xlinux.Common.{
  ℕ, zero, suc, ◌+◌, ◌-◌, ◌≤◌, ◌<◌, ◌≡◌, ◌≢◌, inl, inr, Bool, false, Option, none, some, ◌∷◌, ◌==◌,
  if◌then◌else◌, arith, refl, ap, sym, Bool-cases,
}
use xlinux.Common.Counts.{count}
use xlinux.Common.Tables.{update, update_same, update_other}
use xlinux.Slab.{Cache, Slab, State, index_to_obj, get_free_obj, slab_get_obj, fill_entry}
use xlinux.Slab.Places.{
  Geometry, window, free_indices, SlabOk, stacked, address, Placed, address_once,
}

abbrev pub one_if : Bool → ℕ
one_if b = if b then 1 else 0

abbrev slab_of : ℕ → ℕ → Option ℕ → (ℕ → ℕ) → Slab
slab_of mem active freelist bytes = record {
  s_mem = mem;
  active = active;
  freelist = freelist;
  bytes = bytes;
}

-- The next free object leaves.
pub record Taken (c : Cache) (page : ℕ) (s : Slab) (idx : ℕ) : Type 0 where
  pub got : slab_get_obj c s ≡ some (address c page idx, record s { active = suc s.active })
  pub below : idx < c.num
  pub rest : free_indices c s ≡ idx ∷ free_indices c (record s { active = suc s.active })
  pub kept : SlabOk c page (record s { active = suc s.active })

module _ (c : Cache) (page : ℕ) where
  taken :
      (mem active : ℕ) (o : Option ℕ) (bytes : ℕ → ℕ)
      → SlabOk c page (slab_of mem active o bytes)
      → active < c.num
      → (idx : ℕ) × Taken c page (slab_of mem active o bytes) idx
  unfolding slab_get_obj get_free_obj index_to_obj
  taken mem active none bytes ok room = absurd (omega (arith, (ok.null refl).0))
  taken mem active (some fl) bytes ok room =
      let idx = bytes (fl + active) in
      let whole : c.num - active ≡ suc (c.num - suc active) = omega arith in
      let next : suc (fl + active) ≡ fl + suc active = omega arith in
      let rest : window bytes (fl + active) (c.num - active)
          ≡ idx ∷ window bytes (fl + suc active) (c.num - suc active) =
        rw (whole, next) refl in
      let more : (i : ℕ)
          → count i (window bytes (fl + suc active) (c.num - suc active))
            ≤ count i (window bytes (fl + active) (c.num - active)) =
        λ i. rw rest (omega arith) in
      (
        idx,
        record {
          got = rw (ok.mem) refl;
          below = ok.range idx (rw rest (ground arith));
          rest = rest;
          kept = record {
            mem = ok.mem;
            bound = omega arith;
            range = λ i h. ok.range i (omega (arith, more i));
            null = λ e. absurd (ground (arith, e));
            inside = λ f e h. ok.inside f e (omega arith);
            trailing = ok.trailing;
          };
        },
      )

stacked_below :
    (x v n k : ℕ) (entry : ℕ → ℕ) → k ≤ n → stacked x (update entry n v) k ≡ stacked x entry k
stacked_below x v n zero entry h = refl
stacked_below x v n (suc k) entry h =
    rw (update_other entry n v k (ground arith), stacked_below x v n k entry (omega arith)) refl

pub stacked_push :
    (x v n : ℕ) (entry : ℕ → ℕ)
    → stacked x (update entry n v) (suc n) ≡ (if x == v then 1 else 0) + stacked x entry n
stacked_push x v n entry =
    rw (update_same entry n v, stacked_below x v n n entry (omega arith)) refl

-- Equal addresses in a slab are equal indices.
pub same_test :
    (c : Cache) (g : Geometry c) (page i j : ℕ)
    → i < c.num
    → j < c.num
    → (address c page i == address c page j) ≡ (i == j)
same_test c g page i j hi hj = elim (Bool-cases (i == j)) [
  | inl same ↦ let e : i ≡ j = ground arith in rw e (ground arith)
  | inr other ↦ elim (Bool-cases (address c page i == address c page j)) [
    | inl clash ↦
        let e : i ≡ j = (address_once c g page page i j hi hj (ground arith)).1 in
        absurd (ground (arith, e))
    | inr apart ↦ rw (apart, other) refl
  ]
]

pub other_test :
    (c : Cache) (g : Geometry c) (p q i j : ℕ)
    → i < c.num
    → j < c.num
    → p ≢ q
    → (address c p i == address c q j) ≡ false
other_test c g p q i j hi hj ne = elim (Bool-cases (address c p i == address c q j)) [
  | inl clash ↦ absurd (ne (address_once c g p q i j hi hj (ground arith)).0)
  | inr apart ↦ apart
]

-- The state after an object went from a slab to the stack.
abbrev pub filled : Cache → ℕ → ℕ → State → State
filled c page idx st = record st {
  slab = update st.slab page (record (st.slab page) { active = suc (st.slab page).active });
  entry = update st.entry st.avail (address c page idx);
  avail = suc st.avail;
}

module _ (c : Cache) (g : Geometry c) (page : ℕ) (on : ℕ → ℕ) (st : State) (out : ℕ → ℕ)
    (p : Placed c on st out) (here : 0 < on page) where
  abbrev after : Slab
  after = record (st.slab page) { active = suc (st.slab page).active }

  pub filled-Placed :
      (idx : ℕ) → Taken c page (st.slab page) idx → Placed c on (filled c page idx st) out
  filled-Placed idx t =
      let v = address c page idx in
      let there : (q : ℕ) → q ≡ page → update st.slab page after q ≡ after =
        λ q e. rw e (update_same st.slab page after) in
      let others : (q : ℕ) → q ≢ page → update st.slab page after q ≡ st.slab q =
        λ q. update_other st.slab page after q in
      record {
        slabs = λ q h. elim (Bool-cases (q == page)) [
          | inl same ↦
              let e : q ≡ page = ground arith in
              subst (λ s. SlabOk c q s) (sym (there q e))
                (subst (λ r. SlabOk c r after) (sym e) t.kept)
          | inr other ↦ subst (λ s. SlabOk c q s) (sym (others q (ground arith))) (p.slabs q h)
        ];
        once = p.once;
        places = λ q i h hi.
            let x = address c q i in
            let pushed = stacked_push x v st.avail st.entry in
            let before = p.places q i h hi in
            elim (Bool-cases (q == page)) [
              | inl same ↦
                  let e : q ≡ page = ground arith in
                  let counted = ap (count i) t.rest in
                  let s = ap (λ s. count i (free_indices c s)) (there q e) in
                  let b =
                    subst
                      (λ r.
                        count i (free_indices c (st.slab r)) + (stacked x st.entry st.avail + out x)
                        ≡ 1)
                      e before in
                  let test : (x == v) ≡ (i == idx) =
                    subst (λ r. (address c r i == v) ≡ (i == idx)) (sym e)
                      (same_test c g page i idx hi t.below) in
                  let test' = ap one_if test in omega (arith, b, counted, s, pushed, test')
              | inr other ↦
                  let ne : q ≢ page = ground arith in
                  let s = ap (λ s. count i (free_indices c s)) (others q ne) in
                  let test = ap one_if (other_test c g q page i idx hi t.below ne) in
                  omega (arith, before, s, pushed, test)
            ];
        owned = λ x h.
            let pushed = stacked_push x v st.avail st.entry in
            elim (Bool-cases (x == v)) [
              | inl new ↦ (page, idx, here, t.below, ground arith)
              | inr old ↦ let test = ap one_if old in p.owned x (omega (arith, pushed, test, h))
            ];
      }

pub fill_entry-filled :
    (c : Cache) (page idx : ℕ) (st : State)
    → Taken c page (st.slab page) idx
    → fill_entry c page st ≡ some (filled c page idx st)
unfolding fill_entry
fill_entry-filled c page idx st t = rw (t.got, fill_entry) refl

pub next_free :
    (c : Cache) (page : ℕ) (s : Slab)
    → SlabOk c page s
    → s.active < c.num
    → (idx : ℕ) × Taken c page s idx
next_free c page s ok room = taken c page s.s_mem s.active s.freelist s.bytes ok room
