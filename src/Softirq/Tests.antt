-- ===== src/Softirq/Tests.antt =====
-- softirq/softirq.c: a run with two pending bits, and the theorem on it.
use xlinux.Common.{ℕ, ◌≡◌, refl, List, [], ◌∷◌, none, some, arith, ◌==◌, if◌then◌else◌}
use xlinux.Bitops.{ffs_step}
use xlinux.Softirq.{
  SoftirqVec, open_softirq, raise_softirq_irqoff, irq_exit, do_softirq, softirq_loop, Action,
  call_action, call_entry, ffs_int,
}
use xlinux.Softirq.Pending.{call_all, set_bits, irq_exit-call_all}

-- An action that notes its index, and one that raises bit 2 besides.
abbrev noting : ℕ → Action (List ℕ)
noting nr (pending, log) = some (pending, nr ∷ log)

abbrev raising : ℕ → Action (List ℕ)
raising nr (pending, log) = some (raise_softirq_irqoff 2 (pending, nr ∷ log))

abbrev two_actions : SoftirqVec (List ℕ)
two_actions nr = if nr == 1 then some (raising 1) else if nr == 4 then some (noting 4) else none

behind_the_table_faults : irq_exit two_actions (1024, []) ≡ none
unfolding irq_exit do_softirq softirq_loop call_action ffs_int ffs_step
behind_the_table_faults = refl

opens_within_the_table : open_softirq two_actions 10 (noting 10) ≡ none
unfolding open_softirq
opens_within_the_table = refl

runs_lowest_first : irq_exit two_actions (18, []) ≡ some (4, 4 ∷ 1 ∷ [])
unfolding irq_exit do_softirq softirq_loop call_action call_entry ffs_int raise_softirq_irqoff
    ffs_step
runs_lowest_first = refl

irq_exit-call_all_example :
    irq_exit two_actions (18, []) ≡ call_all two_actions (set_bits 31 0 18) (0, [])
irq_exit-call_all_example = irq_exit-call_all two_actions 18 [] (omega arith)
