-- ===== src/Deadline.antt =====
-- block/mq-deadline.c: the scheduler with one queue for reads and one for writes.
mod Order
mod Tests
use xlinux.Common.{
  ℕ, zero, suc, ◌+◌, ◌==◌, Bool, true, false, not, ◌||◌, Option, none, some, List, [], ◌∷◌, ◌++◌,
  if◌then◌else◌,
}

-- `struct request`: its identity and `rq_data_dir`, true for a write.
pub record Request : Type 0 where
  pub id : ℕ
  pub write : Bool

-- `struct deadline_data`: the two lists, and `next_rq` of each direction.
pub record Deadline : Type 0 where
  pub reads : List Request
  pub writes : List Request
  pub next_read : Option Request
  pub next_write : Option Request

-- `dd_init_queue`
pub init_queue : Deadline
init_queue = record { reads = []; writes = []; next_read = none; next_write = none }

-- `dd_insert_request`; `none` is the `BUG_ON` of an insertion at the head.
pub insert_request : Bool → Request → Deadline → Option Deadline
insert_request true rq dd = none
insert_request false rq dd = some (
    if rq.write
    then record dd { writes = dd.writes ++ (rq ∷ []) }
    else record dd { reads = dd.reads ++ (rq ∷ []) })

-- `dd_insert_requests`
pub insert_requests : Bool → List Request → Deadline → Option Deadline
insert_requests at_head [] dd = some dd
insert_requests at_head (rq ∷ list) dd = elim (insert_request at_head rq dd) [
  | none ↦ none
  | some dd' ↦ insert_requests at_head list dd'
]

abbrev pub is_empty : List Request → Bool
is_empty [] = true
is_empty (rq ∷ list) = false

-- `dd_has_work`
pub has_work : Deadline → Bool
has_work dd = not (is_empty dd.reads) || not (is_empty dd.writes)

abbrev first : List Request → Option Request
first [] = none
first (rq ∷ list) = some rq

-- `deadline_fifo_request`: the first request of a direction.
pub fifo_request : Bool → Deadline → Option Request
fifo_request write dd = first (if write then dd.writes else dd.reads)

-- `deadline_next_request`
pub next_request : Bool → Deadline → Option Request
next_request write dd = if write then dd.next_write else dd.next_read

abbrev remove_first : List Request → List Request
remove_first [] = []
remove_first (rq ∷ list) = list

-- `deadline_move_request`, at the first request of a direction.
pub move_request : Bool → Deadline → Deadline
move_request write dd =
    if write
    then record dd { next_read = none; next_write = none; writes = remove_first dd.writes }
    else record dd { next_read = none; next_write = none; reads = remove_first dd.reads }

-- The outcome of a dispatch: a request or none, or the panic of a stale `next_rq`.
pub data Dispatch : Type 0 where
  dispatched : Option Request → Deadline → Dispatch
  stale : Dispatch

-- `dispatch_find_request` of `__dd_dispatch_request`.
pub find_request : Bool → Deadline → Dispatch
find_request write dd = elim (next_request write dd) [
  | some rq ↦ stale
  | none ↦ elim (fifo_request write dd) [
    | none ↦ dispatched none dd
    | some rq ↦ dispatched (some rq) (move_request write dd)
  ]
]

-- `__dd_dispatch_request`
pub dispatch_request : Deadline → Dispatch
dispatch_request dd =
    if not (is_empty dd.reads)
    then elim (fifo_request true dd) [
      | some rq ↦ find_request true dd
      | none ↦ find_request false dd
    ]
    else if not (is_empty dd.writes)
    then find_request true dd
    else dispatched none dd
