-- ===== src/Status.antt =====
-- backend/src/shared/delivery-status.js: the states of a delivery and of an endpoint.
use hook_tracker.Prelude.{Bool, true, false}
use hook_tracker.Retry.{Failure, retryable, permanent}

pub data DeliveryStatus : Type 0 where
  pending in_flight retrying succeeded failed_permanently skipped : DeliveryStatus

-- TERMINAL_STATUSES.has(status)
abbrev pub is_terminal : DeliveryStatus → Bool
is_terminal succeeded = true
is_terminal failed_permanently = true
is_terminal skipped = true
is_terminal _ = false

-- REPLAYABLE_STATUSES.has(status)
abbrev pub is_replayable : DeliveryStatus → Bool
is_replayable succeeded = true
is_replayable failed_permanently = true
is_replayable skipped = true
is_replayable retrying = true
is_replayable _ = false

abbrev pub is_in_flight : DeliveryStatus → Bool
is_in_flight in_flight = true
is_in_flight _ = false

abbrev pub is_retrying : DeliveryStatus → Bool
is_retrying retrying = true
is_retrying _ = false

abbrev pub is_pending : DeliveryStatus → Bool
is_pending pending = true
is_pending _ = false

pub data EndpointStatus : Type 0 where
  active disabled : EndpointStatus

abbrev pub is_active : EndpointStatus → Bool
is_active active = true
is_active disabled = false

-- The classifier's own vocabulary and `exhausted`.
pub data FailureReason : Type 0 where
  classified : Failure → FailureReason
  exhausted : FailureReason

-- `failureReason` of backend/src/worker/handle-delivery.js.
abbrev pub failure_reason : Failure → FailureReason
failure_reason permanent = classified permanent
failure_reason retryable = exhausted
