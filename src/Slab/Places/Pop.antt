-- ===== src/Slab/Places/Pop.antt =====
-- slab/slab.c: the last object of the stack of entries is given out.
use mathlib.Core.Path.{subst}
use xlinux.Common.{
  ℕ, zero, suc, ◌+◌, ◌-◌, ◌≤◌, ◌<◌, ◌≡◌, true, ◌==◌, if◌then◌else◌, arith, refl, ap, sym, ◌∙◌,
}
use xlinux.Slab.{Cache, State, pop_entry}
use xlinux.Slab.Places.{stacked, address}
use xlinux.Slab.Places.Chains.{WellFormed}

-- One object more is given out.
abbrev pub given : ℕ → (ℕ → ℕ) → ℕ → ℕ
given x out y = (if y == x then 1 else 0) + out y

-- The last object on the stack leaves it; nobody had it.
pub record Popped (c : Cache) (st : State) (out : ℕ → ℕ) : Type 0 where
  pub after : WellFormed c (pop_entry st).1 (given (pop_entry st).0 out)
  pub new : out (pop_entry st).0 ≡ 0

stacked_pop :
    (x n : ℕ) (entry : ℕ → ℕ)
    → 0 < n
    → stacked x entry n ≡ (if x == entry (n - 1) then 1 else 0) + stacked x entry (n - 1)
stacked_pop x (suc n) entry h =
    let e : suc n - 1 ≡ n = omega arith in
    subst (λ k. stacked x entry (suc n) ≡ (if x == entry k then 1 else 0) + stacked x entry k)
      (sym e) refl
stacked_pop x zero entry h = absurd (omega arith)

pub pop_entry-Popped :
    (c : Cache) (st : State) (out : ℕ → ℕ) → WellFormed c st out → 0 < st.avail → Popped c st out
unfolding pop_entry
pop_entry-Popped c st out w some_left =
    let p = w.placed in
    let v = st.entry (st.avail - 1) in
    let pop : (x : ℕ)
        → stacked x st.entry st.avail
          ≡ (if x == v then 1 else 0) + stacked x st.entry (st.avail - 1) =
      λ x. stacked_pop x st.avail st.entry some_left in
    record {
      after = record {
        placed = record {
          slabs = p.slabs;
          once = p.once;
          places = λ q i h hi. omega (arith, p.places q i h hi, pop (address c q i));
          owned = λ x h. p.owned x (omega (arith, pop x, h));
        };
        filed =
            λ q. let f = w.filed q in record { full = f.full; partial = f.partial; free = f.free };
      };
      new =
          let self : (v == v) ≡ true = ground arith in
          let there : stacked v st.entry st.avail ≡ 1 + stacked v st.entry (st.avail - 1) =
            pop v ∙ ap (λ b. (if b then 1 else 0) + stacked v st.entry (st.avail - 1)) self in
          let (q, i, h, hi, e) = p.owned v (omega (arith, there)) in
          let one : stacked v st.entry st.avail + out v ≤ 1 =
            subst (λ x. stacked x st.entry st.avail + out x ≤ 1) (sym e)
              (omega (arith, p.places q i h hi)) in
          omega (arith, there, one);
    }

-- An object that nobody had, and room on the stack for `b` objects less this one.
pub record Granted (c : Cache) (b : ℕ) (st : State) (x : ℕ) (st' : State) (out : ℕ → ℕ)
    : Type 0 where
  pub after : WellFormed c st' (given x out)
  pub new : out x ≡ 0
  pub fewer : suc st'.avail ≤ b
  pub limit : st'.limit ≡ st.limit
  pub batchcount : st'.batchcount ≡ st.batchcount

pub pop_entry-Granted :
    (c : Cache) (b : ℕ) (st0 st : State) (out : ℕ → ℕ)
    → WellFormed c st out
    → 0 < st.avail
    → st.avail ≤ b
    → st.limit ≡ st0.limit
    → st.batchcount ≡ st0.batchcount
    → Granted c b st0 (pop_entry st).0 (pop_entry st).1 out
unfolding pop_entry
pop_entry-Granted c b st0 st out w some_left few limit batch =
    let p = pop_entry-Popped c st out w some_left in
    record {
      after = p.after;
      new = p.new;
      fewer = omega (arith, some_left, few);
      limit = limit;
      batchcount = batch;
    }
