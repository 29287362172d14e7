-- ===== src/Worker.antt =====
-- backend/src/worker/handle-delivery.js: what a worker does with one message.
pub mod Trail
pub mod Audit
pub mod Decision
pub mod Settled
pub mod Ends
pub mod Completion
pub mod Handled
pub mod AutoDisable
pub mod Carried
use hook_tracker.Prelude.{
  ℕ, suc, zero, ◌+◌, ◌-◌, ◌*◌, ◌/◌, String, Bool, true, false, ◌&&◌, List, [], ◌∷◌, Option, none,
  some, leb, ltb, if◌then◌else◌, or_else, is_some,
}
use hook_tracker.Retry.{
  Level, LevelName, Failure, retryable, permanent, classify_failure, should_retry,
  select_retry_level,
}
use hook_tracker.Status.{
  DeliveryStatus, in_flight, retrying, succeeded, failed_permanently, skipped, is_terminal,
  EndpointStatus, active, disabled, is_active, FailureReason, failure_reason,
}
use hook_tracker.Store.{
  find_row, Delivery, Endpoint, Event, LastError, coded, http, endpoint_is_disabled, HeaderValue,
  seconds, below_zero, date, unreadable, ResponseHeaders, SendResult, Attempt,
}
use hook_tracker.World.{
  World, M, Reply, returned, thrown, pure, throw, bad_secret, inconsistent, ◌>>=◌, ◌>>◌, call,
  query, write, emit, has_delivery, has_endpoint, with_delivery, with_endpoint, with_attempt, Alert,
  Realtime, delivery_succeeded, delivery_attempted, delivery_failed, endpoint_disabled_event,
}
use hook_tracker.TokenBucket.{take}
use hook_tracker.Publisher.{publish_retry, publish_throttle, publish_dead_letter}
use hook_tracker.Exchange.{
  dns_failure, Rejection, Resolved, pinned, rejected, Config, Headers, Env, Outcome,
  unknown_delivery, already_finalised, endpoint_disabled, throttled, handled_ok, retrying_on,
  ssrf_blocked, failed, retry_after_ms, is_success, attempt_row, describe, classify_rejection,
  rejection_result,
}

-- `findUnique` with the event and the endpoint. Foreign keys tie them to the delivery, and Prisma
-- throws if one of them is missing.
join :
    Delivery → Option Event → Option Endpoint → World → Reply (Option (Delivery × Event × Endpoint))
join d (some ev) (some ep) w = returned (some (d, ev, ep)) w
join d _ _ w = thrown inconsistent w

load_row : Option Delivery → World → Reply (Option (Delivery × Event × Endpoint))
unfolding join
load_row none w = returned none w
load_row (some d) w = join d (find_row d.event_id w.events) (find_row d.endpoint_id w.endpoints) w

unfoldable pub load : ℕ → M (Option (Delivery × Event × Endpoint))
unfolding load_row
load id = call >>= λ _ w. load_row (find_row id w.deliveries) w

module _ (e : Env) where
  unfoldable pub next_retry_level : Failure → ℕ → Option ℕ → Option Level
  unfolding should_retry select_retry_level
  next_retry_level classification attempt requested_ms =
      if should_retry classification attempt e.config.max_attempts
      then select_retry_level attempt e.config.max_attempts e.schedule requested_ms
      else none

  unfoldable pub finalise_success : ℕ → Delivery → Event → ℕ → SendResult → M (Unit {0})
  finalise_success id d ev attempt result = do
    write (λ w. has_delivery id w && has_endpoint d.endpoint_id w)
        (λ w.
          with_endpoint d.endpoint_id (λ ep. record ep { consecutive_failures = 0 })
            (with_delivery id
              (λ row. record row {
                status = succeeded;
                attempt_count = attempt;
                last_error = none;
                next_attempt_at = none;
                completed_at = some e.finished_at;
              })
              (with_attempt (attempt_row id attempt result) w)))
    emit ev.project_id (delivery_succeeded id attempt result e.finished_at)

  unfoldable pub finalise_retry : ℕ → Delivery → Event → ℕ → SendResult → Level → M (Unit {0})
  finalise_retry id d ev attempt result level = do
    write (has_delivery id) (λ w.
        with_delivery id
          (λ row. record row {
            status = retrying;
            attempt_count = attempt;
            last_error = some (describe result);
            next_attempt_at = some (e.finished_at + level.delay_ms);
          })
          (with_attempt (attempt_row id attempt result) w))
    publish_retry e.schedule e.random id (suc attempt) level.level
    emit ev.project_id (delivery_attempted id attempt result (e.finished_at + level.delay_ms))

  -- `consecutiveFailures` as the increment left it.
  failures_of : ℕ → World → ℕ
  failures_of endpoint_id w = elim (find_row endpoint_id w.endpoints) [
    | none ↦ 0
    | some ep ↦ ep.consecutive_failures
  ]

  -- The condition of `updateMany`, and the rows that it matches: one or none.
  unfoldable pub should_disable : Option Endpoint → Bool
  should_disable none = false
  should_disable (some ep) =
      is_active ep.status && leb e.config.auto_disable_threshold ep.consecutive_failures

  disable_endpoint : ℕ → M Bool
  unfolding should_disable
  disable_endpoint endpoint_id = call >>= λ _ w.
      let matched = should_disable (find_row endpoint_id w.endpoints) in
      returned matched
        (if matched then with_endpoint endpoint_id (λ ep. record ep { status = disabled }) w else w)

  -- backend/src/shared/alerts.js does not throw: the call is logged.
  notify : Alert → M (Unit {0})
  notify a w = returned tt (record w { alerts = a ∷ w.alerts })

  announce_disabled : Bool → ℕ → ℕ → ℕ → M (Unit {0})
  unfolding notify
  announce_disabled false project_id endpoint_id failures = pure tt
  announce_disabled true project_id endpoint_id failures = do
    emit project_id (endpoint_disabled_event endpoint_id failures e.finished_at)
    notify (record {
      project_id = project_id;
      endpoint_id = endpoint_id;
      consecutive_failures = failures;
    })

  unfoldable pub finalise_failure :
      ℕ → Delivery → Event → ℕ → SendResult → FailureReason → M (Unit {0})
  unfolding failures_of disable_endpoint announce_disabled
  finalise_failure id d ev attempt result reason = do
    write (λ w. has_delivery id w && has_endpoint d.endpoint_id w)
        (λ w.
          with_endpoint d.endpoint_id
            (λ ep. record ep { consecutive_failures = suc ep.consecutive_failures })
            (with_delivery id
              (λ row. record row {
                status = failed_permanently;
                attempt_count = attempt;
                last_error = some (describe result);
                next_attempt_at = none;
                completed_at = some e.finished_at;
              })
              (with_attempt (attempt_row id attempt result) w)))
    failures ← (λ w. returned (failures_of d.endpoint_id w) w)
    disable ← disable_endpoint d.endpoint_id
    publish_dead_letter e.config.dead_letter_ttl_ms id attempt
    emit ev.project_id (delivery_failed id attempt reason result e.finished_at)
    announce_disabled disable ev.project_id d.endpoint_id failures

  -- What follows a failed attempt: the next level of the ladder, or the end of the delivery.
  unfoldable pub conclude :
      ℕ → Delivery → Event → ℕ → SendResult → Failure → Outcome → Option Level → M Outcome
  conclude id d ev attempt result classification final (some level) =
      finalise_retry id d ev attempt result level >> pure (retrying_on level.level)
  conclude id d ev attempt result classification final none =
      finalise_failure id d ev attempt result (failure_reason classification) >> pure final

  rejection_outcome : Failure → Outcome
  rejection_outcome permanent = ssrf_blocked
  rejection_outcome retryable = failed

  -- The answer to an attempt that was sent.
  unfoldable pub on_result : ℕ → Delivery → Event → ℕ → SendResult → M Outcome
  on_result id d ev attempt result =
      if is_success result.response_status
      then (finalise_success id d ev attempt result >> pure handled_ok)
      else (let classification = classify_failure result.response_status in
          conclude id d ev attempt result classification failed (
            next_retry_level classification attempt
              (retry_after_ms e.answered_at result.response_headers)))

  send_signed : ℕ → Delivery → Event → ℕ → e.Target → Option Headers → M Outcome
  send_signed id d ev attempt target none = throw bad_secret
  send_signed id d ev attempt target (some headers) =
      on_result id d ev attempt (e.send target headers ev.payload)

  unfoldable pub on_target : ℕ → Delivery → Event → Endpoint → ℕ → Resolved e.Target → M Outcome
  unfolding rejection_outcome send_signed
  on_target id d ev ep attempt (rejected r) =
      let classification = classify_rejection r.reason in
      conclude id d ev attempt (rejection_result r) classification
        (rejection_outcome classification) (next_retry_level classification attempt none)
  on_target id d ev ep attempt (pinned target) =
      send_signed id d ev attempt target (e.build_headers id d ev ep attempt e.started_at)

  -- From the token on.
  unfoldable pub on_allowed : ℕ → Delivery → Event → Endpoint → ℕ → Bool → M Outcome
  on_allowed id d ev ep attempt false = publish_throttle id attempt >> pure throttled
  on_allowed id d ev ep attempt true = do
    write (has_delivery id) (with_delivery id (λ row. record row { status = in_flight }))
    on_target id d ev ep attempt (e.resolve_target ep.url)

  skip : ℕ → M Outcome
  skip id = do
    write (has_delivery id) (
        with_delivery id (λ row. record row {
          status = skipped;
          completed_at = some e.finished_at;
          last_error = some endpoint_is_disabled;
        }))
    pure endpoint_disabled

  unfoldable pub on_loaded : ℕ → ℕ → Option (Delivery × Event × Endpoint) → M Outcome
  unfolding skip
  on_loaded id attempt none = pure unknown_delivery
  on_loaded id attempt (some (d, ev, ep)) =
      if is_terminal d.status
      then pure already_finalised
      else if is_active ep.status
      then (take d.endpoint_id ep.rate_limit_per_minute e.bucket_at
          >>= on_allowed id d ev ep attempt)
      else skip id

  unfoldable pub handle_delivery : ℕ → ℕ → M Outcome
  handle_delivery id attempt = load id >>= on_loaded id attempt
