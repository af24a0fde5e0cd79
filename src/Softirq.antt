-- ===== src/Softirq.antt =====
-- softirq/softirq.c, include/interrupt.h and include/ffs.h: deferred work by pending bits.
pub mod Pending
mod Tests
use xlinux.Common.{
  ℕ, zero, suc, ◌+◌, ◌-◌, ◌/◌, ◌%◌, ◌^◌, bit_or, Option, none, some, ltb, ◌==◌, if◌then◌else◌,
}
use xlinux.Common.Tables.{update}
use xlinux.Bitops.{ffs_step}

-- `ffs` of include/ffs.h on an `int` that is not negative.
pub ffs_int : ℕ → ℕ
ffs_int x =
    if x == 0 then 0 else (ffs_step 1 (ffs_step 2 (ffs_step 4 (ffs_step 8 (ffs_step 16 (1, x)))))).0

-- `irq_stat.__softirq_pending`, and all that the actions act on.
abbrev pub PendingState : Type 0 → Type 0
PendingState S = ℕ × S

-- An action; `none` is a panic.
abbrev pub Action : Type 0 → Type 0
Action S = PendingState S → Option (PendingState S)

abbrev pub nr_softirqs : ℕ
nr_softirqs = 10

-- The entries of `softirq_vec` at the indices below `NR_SOFTIRQS`; `none` is `NULL`.
abbrev pub SoftirqVec : Type 0 → Type 0
SoftirqVec S = ℕ → Option (Action S)

module _ {S : Type 0} where
  -- `none` is a write behind the end of the array.
  pub open_softirq : SoftirqVec S → ℕ → Action S → Option (SoftirqVec S)
  open_softirq softirq_vec nr action =
      if ltb nr nr_softirqs then some (update softirq_vec nr (some action)) else none

  pub raise_softirq_irqoff : ℕ → PendingState S → PendingState S
  raise_softirq_irqoff nr (pending, s) = (bit_or pending (2 ^ nr) % 2 ^ 32, s)

  pub call_entry : Option (Action S) → PendingState S → Option (PendingState S)
  call_entry none s = none
  call_entry (some action) s = action s

  -- `h->action(h)` at an index; `none` is a read behind the end of the array, a call of `NULL`, or
  -- a panic of the action.
  pub call_action : SoftirqVec S → ℕ → PendingState S → Option (PendingState S)
  call_action softirq_vec nr s = if ltb nr nr_softirqs then call_entry (softirq_vec nr) s else none

  -- The loop of `__do_softirq`, which ends with a state, and `h` as an index of `softirq_vec`.
  pub softirq_loop : SoftirqVec S → ℕ → ℕ → ℕ → PendingState S → Option (PendingState S)
  softirq_loop softirq_vec zero pending h s = none
  softirq_loop softirq_vec (suc fuel) pending h s =
      let softirq_bit = ffs_int pending in
      let rest = softirq_loop softirq_vec fuel (pending / 2 ^ softirq_bit) (h + softirq_bit) in
      if softirq_bit == 0
      then some s
      else elim (call_action softirq_vec (h + (softirq_bit - 1)) s) [
        | none ↦ none
        | some s' ↦ rest s'
      ]

  -- `__do_softirq`
  pub do_softirq : SoftirqVec S → PendingState S → Option (PendingState S)
  do_softirq softirq_vec (pending, s) = softirq_loop softirq_vec 32 pending 0 (0, s)

  pub irq_exit : SoftirqVec S → PendingState S → Option (PendingState S)
  irq_exit softirq_vec (pending, s) =
      if pending == 0 then some (pending, s) else do_softirq softirq_vec (pending, s)
