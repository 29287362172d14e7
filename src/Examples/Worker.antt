-- ===== src/Examples/Worker.antt =====
-- A worker's message at concrete states (backend/src/worker/handle-delivery.js).
use hook_tracker.Prelude.{◌≡◌, refl, some, [], ◌∷◌}
use hook_tracker.Status.{pending, in_flight, disabled, exhausted}
use hook_tracker.Store.{find_row}
use hook_tracker.World.{world}
use hook_tracker.Worker.{handle_delivery, finalise_failure}
use hook_tracker.Worker.AutoDisable.{alert_of, finalise_failure-disables}
use hook_tracker.Worker.Trail.{Extends}
use hook_tracker.Worker.Audit.{handle_delivery-Extends}
use hook_tracker.Worker.Settled.{Returns}
use hook_tracker.Worker.Completion.{Handled}
use hook_tracker.TokenBucket.{take}
use hook_tracker.Worker.Handled.{granted_by, handle_delivery-Settled}
use hook_tracker.Examples.Data.{env, world_in, delivery_in, event, endpoint, headers, answer}

handle_delivery-Extends_example :
    Extends 6 1 1 (world_in pending) (world (handle_delivery env 1 1 (world_in pending)))
handle_delivery-Extends_example = handle_delivery-Extends env 1 1 (world_in pending)

handle_delivery-Settled_example : Returns (handle_delivery env 1 1) (world_in pending) (
    Handled env event headers 1 1
      (delivery_in pending)
      endpoint
      (granted_by (take 9 endpoint.rate_limit_per_minute env.bucket_at (world_in pending)))
      (world_in pending))
unfolding find_row
handle_delivery-Settled_example =
    handle_delivery-Settled env 1 0 (delivery_in pending) event endpoint headers (world_in pending)
      refl refl refl refl refl refl

-- The twentieth failure in a row, at a threshold of twenty.
finalise_failure-disables_example :
    Returns
      (finalise_failure env 1 (delivery_in in_flight) event 6 answer exhausted)
      (world_in in_flight)
      (λ _ w'.
        (find_row 9 w'.endpoints
          ≡ some (record endpoint { consecutive_failures = 20; status = disabled }))
        × (w'.alerts ≡ alert_of event 9 endpoint ∷ []))
unfolding find_row
finalise_failure-disables_example =
    finalise_failure-disables env 1 5 (delivery_in in_flight) event endpoint answer exhausted
      (world_in in_flight) refl refl refl
