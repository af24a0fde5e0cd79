-- ===== src/Deadline/Order.antt =====
-- Theorems on the order of requests in block/mq-deadline.c.
use xlinux.Common.{
  ℕ, zero, suc, ◌+◌, ◌≤◌, ◌≡◌, Bool, true, false, Option, none, some, List, [], ◌∷◌, ◌++◌,
  if◌then◌else◌, length, arith, refl, ap, ◌∙◌, Bool-cases, inl, inr,
}
use mathlib.Core.List.{append_assoc, append-nil}
use xlinux.Deadline.{
  Request, Deadline, insert_request, insert_requests, has_work, fifo_request, next_request,
  move_request, dispatched, stale, find_request, dispatch_request,
}

-- A scheduler with these reads and writes whose `next_rq` are not set, as every operation leaves it.
abbrev pub holding : List Request → List Request → Deadline
holding rs ws = record { reads = rs; writes = ws; next_read = none; next_write = none }

abbrev pub is_some : Option Request → Bool
is_some none = false
is_some (some rq) = true

-- The requests of a direction, in their order.
abbrev pub of_direction : Bool → List Request → List Request
of_direction b [] = []
of_direction b (rq ∷ list) =
    let rest = of_direction b list in
    if (if rq.write then b else if b then false else true) then rq ∷ rest else rest

-- `n` dispatches: the requests in the order in which they leave.
abbrev pub drain : ℕ → Deadline → Option (List Request)
drain zero dd = some []
drain (suc n) dd = elim (dispatch_request dd) [
  | stale ↦ none
  | dispatched none dd' ↦ some []
  | dispatched (some rq) dd' ↦ elim (drain n dd') [ none ↦ none | some list ↦ some (rq ∷ list) ]
]

insert_requests-holding :
    (list rs ws : List Request)
    → insert_requests false list (holding rs ws)
      ≡ some (holding (rs ++ of_direction false list) (ws ++ of_direction true list))
unfolding insert_requests insert_request
insert_requests-holding [] rs ws = rw (append-nil rs, append-nil ws) refl
insert_requests-holding (rq ∷ list) rs ws = elim (Bool-cases rq.write) [
  | inl is_write ↦ simp is_write (
      insert_requests-holding list rs (ws ++ (rq ∷ []))
      ∙ ap (λ l. some (holding (rs ++ of_direction false list) l))
          (append_assoc ws (rq ∷ []) (of_direction true list)))
  | inr is_read ↦ simp is_read (
      insert_requests-holding list (rs ++ (rq ∷ [])) ws
      ∙ ap (λ l. some (holding l (ws ++ of_direction true list)))
          (append_assoc rs (rq ∷ []) (of_direction false list)))
]

drain-writes :
    (n : ℕ) (rs ws : List Request)
    → length ws + length rs ≤ n
    → drain n (holding rs ws) ≡ some (ws ++ rs)
unfolding dispatch_request find_request fifo_request next_request move_request
drain-writes zero [] [] h = refl
drain-writes zero rs (w ∷ ws) h = absurd (omega arith)
drain-writes zero (r ∷ rs) [] h = absurd (omega arith)
drain-writes (suc n) [] [] h = refl
drain-writes (suc n) [] (w ∷ ws) h = rw (drain-writes n [] ws (omega arith)) refl
drain-writes (suc n) (r ∷ rs) [] h = rw (drain-writes n rs [] (omega arith)) refl
drain-writes (suc n) (r ∷ rs) (w ∷ ws) h = rw (drain-writes n (r ∷ rs) ws (omega arith)) refl

-- Inserting a list of requests behind the reads `rs` and the writes `ws` that wait succeeds, and
-- dispatching as often as there are requests then gives each of them once: first all the writes and
-- then all the reads, those of a direction in the order in which they came.
pub drain-insert_requests :
    (list rs ws : List Request) (n : ℕ)
    → length (ws ++ of_direction true list) + length (rs ++ of_direction false list) ≤ n
    → (dd : Deadline) × (insert_requests false list (holding rs ws) ≡ some dd)
      × (drain n dd ≡ some ((ws ++ of_direction true list) ++ (rs ++ of_direction false list)))
drain-insert_requests list rs ws n h = (
  holding (rs ++ of_direction false list) (ws ++ of_direction true list),
  insert_requests-holding list rs ws,
  drain-writes n (rs ++ of_direction false list) (ws ++ of_direction true list) h,
)

-- Where no `next_rq` is set, a dispatch gives a request exactly if `dd_has_work` says so, and never
-- panics.
pub has_work-dispatch_request :
    (rs ws : List Request)
    → (r : Option Request) × (dd : Deadline) × (dispatch_request (holding rs ws) ≡ dispatched r dd)
      × (has_work (holding rs ws) ≡ is_some r)
unfolding dispatch_request find_request fifo_request next_request move_request has_work
has_work-dispatch_request [] [] = (none, _, refl, refl)
has_work-dispatch_request [] (w ∷ ws) = (some w, _, refl, refl)
has_work-dispatch_request (r ∷ rs) [] = (some r, _, refl, refl)
has_work-dispatch_request (r ∷ rs) (w ∷ ws) = (some w, _, refl, refl)
