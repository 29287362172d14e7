-- ===== src/Worker/Settled.antt =====
-- Where one message leaves its delivery when no call fails
-- (backend/src/worker/handle-delivery.js).
use hook_tracker.Prelude.{
  ℕ, suc, ◌+◌, ◌≡◌, [], ◌∷◌, ◌++◌, Option, none, some, true, false, arith, find,
}
use hook_tracker.Retry.{Level}
use hook_tracker.Status.{succeeded, retrying, failed_permanently, skipped, FailureReason}
use hook_tracker.Store.{
  find_row, find_row-modify, Delivery, Event, SendResult, endpoint_is_disabled,
}
use hook_tracker.World.{
  Place, World, Reply, returned, thrown, M, Message, retry_queue, throttle_queue, dead_letter_queue,
  call, write, emit, has_endpoint,
}
use hook_tracker.Publisher.{level_eq, publish_retry, publish_dead_letter, apply_jitter}
use hook_tracker.Exchange.{
  Env, Outcome, attempt_row, describe, unknown_delivery, already_finalised, endpoint_disabled,
  throttled, handled_ok, retrying_on, ssrf_blocked, failed,
}
use hook_tracker.Worker.{finalise_success, finalise_retry, finalise_failure, should_disable}

abbrev pub Ended : {A : Type 0} → Reply A → (A → World → Type 0) → Type 0
Ended (returned a w) Q = Q a w
Ended (thrown e w) Q = ⊥

-- A call that returns, in a state of which `Q` holds.
pub record Returns {A : Type 0} (m : M A) (w : World) (Q : A → World → Type 0) : Type 0 where
  pub holds : Ended (m w) Q

abbrev pub message : ℕ → ℕ → Place → Option ℕ → Message
message id n place expiration = record {
  delivery_id = id;
  attempt = n;
  place = place;
  expiration = expiration;
  redelivered = false;
}

-- The row after an attempt that succeeded, one that is to be retried, and one that was the last.
abbrev pub succeeded_row : Env → ℕ → Delivery → Delivery
succeeded_row e n d = record d {
  status = succeeded;
  attempt_count = n;
  last_error = none;
  next_attempt_at = none;
  completed_at = some e.finished_at;
}

abbrev pub retrying_row : Env → ℕ → SendResult → ℕ → Delivery → Delivery
retrying_row e n r delay d = record d {
  status = retrying;
  attempt_count = n;
  last_error = some (describe r);
  next_attempt_at = some (e.finished_at + delay);
}

abbrev pub failed_row : Env → ℕ → SendResult → Delivery → Delivery
failed_row e n r d = record d {
  status = failed_permanently;
  attempt_count = n;
  last_error = some (describe r);
  next_attempt_at = none;
  completed_at = some e.finished_at;
}

-- One row for the attempt, and the message that carries the delivery on, if there is one.
abbrev pub Recorded : ℕ → ℕ → SendResult → World → World → Type 0
Recorded id n r w w' = w'.attempts ≡ w.attempts ++ attempt_row id n r ∷ []

abbrev pub IsFailed : Env → ℕ → ℕ → Delivery → SendResult → World → World → Type 0
IsFailed e id n d r w w' =
    (find_row id w'.deliveries ≡ some (failed_row e n r d))
    × Recorded id n r w w'
    × (w'.queue ≡ w.queue ++ message id n dead_letter_queue (some e.config.dead_letter_ttl_ms) ∷ [])

-- What an outcome leaves of the row `d`, where the attempt came to `r` and `next` is the level of
-- the next one.
abbrev pub Settled :
    Env → ℕ → ℕ → Delivery → SendResult → Option Level → World → Outcome → World → Type 0
Settled e id n d r next w unknown_delivery w' = ⊥
Settled e id n d r next w already_finalised w' = w' ≡ w
Settled e id n d r next w endpoint_disabled w' =
    (find_row id w'.deliveries
      ≡ some (record d {
        status = skipped;
        completed_at = some e.finished_at;
        last_error = some endpoint_is_disabled;
      }))
    × (w'.attempts ≡ w.attempts)
    × (w'.queue ≡ w.queue)
Settled e id n d r next w throttled w' =
    (find_row id w'.deliveries ≡ some d)
    × (w'.attempts ≡ w.attempts)
    × (w'.queue ≡ w.queue ++ message id n throttle_queue none ∷ [])
Settled e id n d r next w handled_ok w' =
    (find_row id w'.deliveries ≡ some (succeeded_row e n d))
    × Recorded id n r w w'
    × (w'.queue ≡ w.queue)
Settled e id n d r next w (retrying_on name) w' =
    (level : Level) × (next ≡ some level)
    × (level.level ≡ name)
    × (find_row id w'.deliveries ≡ some (retrying_row e n r level.delay_ms d))
    × Recorded id n r w w'
    × (w'.queue
        ≡ w.queue
          ++ message id (suc n) (retry_queue name) (some (apply_jitter level.delay_ms e.random))
            ∷ [])
Settled e id n d r next w ssrf_blocked w' = IsFailed e id n d r w w'
Settled e id n d r next w failed w' = IsFailed e id n d r w w'

module _ (e : Env) (id n : ℕ) (row d : Delivery) (ev : Event) (r : SendResult) (w : World)
    (nf : w.faults ≡ []) (found : find_row id w.deliveries ≡ some row)
    (owner : has_endpoint d.endpoint_id w ≡ true) where
  pub finalise_success-Returns : Returns (finalise_success e id d ev n r) w (λ _ w'.
      (find_row id w'.deliveries ≡ some (succeeded_row e n row))
      × Recorded id n r w w'
      × (w'.queue ≡ w.queue))
  unfolding finalise_success write call emit
  finalise_success-Returns = ground (arith, find_row-modify id id (succeeded_row e n) w.deliveries)

  pub finalise_retry-Returns :
      (level : Level)
      → find (λ entry. level_eq entry.level level.level) e.schedule ≡ some level
      → Returns (finalise_retry e id d ev n r level) w (λ _ w'.
        (find_row id w'.deliveries ≡ some (retrying_row e n r level.delay_ms row))
        × Recorded id n r w w'
        × (w'.queue
            ≡ w.queue
              ++ message id
                  (suc n)
                  (retry_queue level.level)
                  (some (apply_jitter level.delay_ms e.random))
                ∷ []))
  unfolding finalise_retry write call emit publish_retry
  finalise_retry-Returns level bound =
      ground (arith, find_row-modify id id (retrying_row e n r level.delay_ms) w.deliveries)

module _ (e : Env) (id m : ℕ) (row d : Delivery) (ev : Event) (r : SendResult) (w : World)
    (nf : w.faults ≡ []) (found : find_row id w.deliveries ≡ some row)
    (owner : has_endpoint d.endpoint_id w ≡ true) where
  pub finalise_failure-Returns :
      (reason : FailureReason)
      → Returns (finalise_failure e id d ev (suc m) r reason) w (λ _ w'.
        (find_row id w'.deliveries ≡ some (failed_row e (suc m) r row))
        × Recorded id (suc m) r w w'
        × (w'.queue
            ≡ w.queue
              ++ message id (suc m) dead_letter_queue (some e.config.dead_letter_ttl_ms) ∷ []))
  unfolding finalise_failure write call emit publish_dead_letter should_disable
  finalise_failure-Returns reason =
      ground (arith, find_row-modify id id (failed_row e (suc m) r) w.deliveries)
