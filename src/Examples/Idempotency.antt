-- ===== src/Examples/Idempotency.antt =====
-- Requests with one key at concrete times (backend/src/api/middleware/idempotency.js).
use hook_tracker.Prelude.{◌≡◌, ◌≢◌, refl, [], ◌∷◌, true, false}
use hook_tracker.Store.{find_row}
use hook_tracker.Idempotency.{Response, goes_on, delete_key, reserve, finish}
use hook_tracker.Idempotency.Once.{reserving, storing, finishing, expiring, run, reserve-once}

abbrev accepted : Response
accepted = record { status = 202; body = 7 }

freed_test : (reserve 1 (finish 1 false 503 (reserve 1 []).1)).0 ≡ goes_on
unfolding reserve finish delete_key find_row
freed_test = refl

reserve-once_example :
    (reserve 1 (
      run
        (reserving 1 ∷ storing 1 accepted ∷ finishing 1 true 202 ∷ expiring 2 ∷ [])
        (reserve 1 []).1)).0
    ≢ goes_on
reserve-once_example =
    reserve-once 1 [] (reserving 1 ∷ storing 1 accepted ∷ finishing 1 true 202 ∷ expiring 2 ∷ [])
      (refl, (refl, (refl, (refl, tt))))
