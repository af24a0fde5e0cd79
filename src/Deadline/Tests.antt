-- ===== src/Deadline/Tests.antt =====
-- Four requests in turn, and the theorems on their order.
use xlinux.Common.{ℕ, ◌≡◌, true, false, Option, some, List, [], ◌∷◌, ◌++◌, arith, refl}
use xlinux.Deadline.{
  Request, Deadline, init_queue, insert_requests, has_work, dispatched, dispatch_request,
}
use xlinux.Deadline.Order.{
  holding, is_some, of_direction, drain, drain-insert_requests, has_work-dispatch_request,
}

abbrev read : ℕ → Request
read i = record { id = i; write = false }

abbrev write : ℕ → Request
write i = record { id = i; write = true }

abbrev mixed : List Request
mixed = read 1 ∷ write 2 ∷ read 3 ∷ write 4 ∷ []

starts_empty : init_queue ≡ holding [] []
unfolding init_queue
starts_empty = refl

order :
    of_direction true mixed ++ of_direction false mixed ≡ write 2 ∷ write 4 ∷ read 1 ∷ read 3 ∷ []
order = refl

drain-insert_requests_example :
    (dd : Deadline) × (insert_requests false mixed (holding [] []) ≡ some dd)
    × (drain 4 dd ≡ some (([] ++ of_direction true mixed) ++ ([] ++ of_direction false mixed)))
drain-insert_requests_example = drain-insert_requests mixed [] [] 4 (omega arith)

has_work-dispatch_request_example :
    (r : Option Request) × (dd : Deadline) × (dispatch_request
        (holding (read 1 ∷ []) (write 2 ∷ []))
      ≡ dispatched r dd)
    × (has_work (holding (read 1 ∷ []) (write 2 ∷ [])) ≡ is_some r)
has_work-dispatch_request_example = has_work-dispatch_request (read 1 ∷ []) (write 2 ∷ [])
