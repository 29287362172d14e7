-- ===== src/Examples/System.antt =====
-- A run: a call of the worker fails, and its message comes back and is handled (backend/src/worker/worker.js).
use hook_tracker.Prelude.{◌≡◌, refl, [], ◌∷◌, none, true, false}
use hook_tracker.Status.{pending}
use hook_tracker.Store.{find_row, modify}
use hook_tracker.World.{World, call, write, emit, Message, delivery_queue}
use hook_tracker.Carried.{IsCarried, has_message}
use hook_tracker.Retry.{classify_failure}
use hook_tracker.Publisher.{publish_retry}
use hook_tracker.Exchange.{is_success, retry_after_ms}
use hook_tracker.Worker.{
  handle_delivery, load, on_loaded, on_allowed, on_target, on_result, conclude, next_retry_level,
  finalise_retry,
}
use hook_tracker.TokenBucket.{take}
use hook_tracker.Worker.Settled.{message}
use hook_tracker.Consumer.{consume, settle}
use hook_tracker.System.{consuming, breaking, Steps, here, next, with_queue}
use hook_tracker.System.Reachable.{gave_up_on, Steps-IsCarried}
use hook_tracker.Examples.Data.{world_in, env}

abbrev first_message : Message
first_message = message 1 1 delivery_queue none

abbrev start : World
start = record (world_in pending) { queue = first_message ∷ [] }

abbrev broken : World
broken = record start { faults = false ∷ false ∷ true ∷ [] }

abbrev back : Message
back = record first_message { redelivered = true }

-- The third call of the first worker fails; the second worker handles the message to the end.
abbrev again : World
again = consume env first_message (with_queue [] broken)

again_test : again.queue ≡ back ∷ []
unfolding consume settle handle_delivery load call find_row on_loaded take on_allowed write
again_test = refl

run : Steps start (consume env back (with_queue [] again))
run =
    next
      (next (next here (breaking (false ∷ false ∷ true ∷ []) start))
        (consuming env first_message [] [] broken refl refl))
      (consuming env back [] [] again again_test refl)

start-IsCarried : IsCarried 1 start
unfolding find_row has_message
start-IsCarried = refl

Steps-IsCarried_example : IsCarried 1 (consume env back (with_queue [] again))
unfolding gave_up_on run consume settle handle_delivery load call find_row modify on_loaded take
    on_allowed write on_target on_result is_success conclude next_retry_level classify_failure
    retry_after_ms finalise_retry publish_retry emit
Steps-IsCarried_example = Steps-IsCarried 1 run refl start-IsCarried
