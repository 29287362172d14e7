-- ===== src/Sweeper/Recovery.antt =====
-- What a sweep does to a delivery (backend/src/jobs/stuck-sweeper.js).
use hook_tracker.Prelude.{
  ℕ, suc, ◌≡◌, List, [], ◌∷◌, ◌++◌, none, some, Bool, true, false, arith, any-append, ◌==◌,
}
use hook_tracker.Status.{retrying, in_flight, is_in_flight}
use hook_tracker.Store.{find_row, modify, find_row-modify, Delivery, recovered_by_sweeper}
use hook_tracker.World.{World, world, delivery_queue, call}
use hook_tracker.Publisher.{publish_delivery}
use hook_tracker.Carried.{IsCarried, has_message, carries}
use hook_tracker.Sweeper.{recover}
use hook_tracker.Worker.Settled.{message}

-- A delivery that is no longer IN_FLIGHT when the sweep comes to it is left alone: no row
-- changes, no message is published, and the sweep does not count it; if the call fails it throws.
pub recover_settled :
    (id : ℕ) (d row : Delivery) (w : World)
    → find_row id w.deliveries ≡ some row
    → is_in_flight row.status ≡ false
    → ((world (recover id d w)).deliveries ≡ w.deliveries)
      × ((world (recover id d w)).queue ≡ w.queue)
unfolding recover call
recover_settled id d row w found settled = (ground arith, ground arith)

abbrev recovered_row : Delivery → Delivery
recovered_row row = record row { status = retrying; last_error = some recovered_by_sweeper }

-- Without a failing call, a delivery that is IN_FLIGHT becomes RETRYING, and one message for the
-- attempt after the last one that was recorded goes to the delivery queue.
pub recover_stuck :
    (id : ℕ) (d row : Delivery) (w : World)
    → w.faults ≡ []
    → find_row id w.deliveries ≡ some row
    → is_in_flight row.status ≡ true
    → let r = recover id d w in
      (find_row id (world r).deliveries ≡ some (recovered_row row))
      × ((world r).queue ≡ w.queue ++ message id (suc d.attempt_count) delivery_queue none ∷ [])
unfolding recover call publish_delivery
recover_stuck id d row w nf found stuck =
    (ground (arith, find_row-modify id id recovered_row w.deliveries), ground arith)

-- No call fails right after one that failed.
abbrev pub is_sparse : List Bool → Bool
is_sparse [] = true
is_sparse (false ∷ fs) = is_sparse fs
is_sparse (true ∷ []) = true
is_sparse (true ∷ false ∷ fs) = is_sparse fs
is_sparse (true ∷ true ∷ fs) = false

-- If no two calls fail in a row, a sweep leaves a delivery that was carried carried: where the
-- publish fails the row is put back to IN_FLIGHT.
pub recover-IsCarried :
    (id : ℕ) (d : Delivery) (w : World)
    → is_sparse w.faults ≡ true
    → IsCarried id w
    → IsCarried id (world (recover id d w))
unfolding recover call publish_delivery has_message
recover-IsCarried id d w sparse h = ground (
  arith,
  find_row-modify id id recovered_row w.deliveries,
  find_row-modify id id (λ row. record row { status = in_flight })
      (modify id recovered_row w.deliveries),
  any-append (carries id) w.queue (message id (suc d.attempt_count) delivery_queue none ∷ []),
)

-- Whatever calls fail, the other deliveries keep what carries them.
pub recover-IsCarried_others :
    (id j : ℕ) (d : Delivery) (w : World)
    → (id == j) ≡ false
    → IsCarried j w
    → IsCarried j (world (recover id d w))
unfolding recover call publish_delivery has_message
recover-IsCarried_others id j d w other h = ground (
  arith,
  find_row-modify id j recovered_row w.deliveries,
  find_row-modify id j (λ row. record row { status = in_flight })
      (modify id recovered_row w.deliveries),
  any-append (carries j) w.queue (message id (suc d.attempt_count) delivery_queue none ∷ []),
)
