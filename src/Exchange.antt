-- ===== src/Exchange.antt =====
-- The two ends of an attempt in backend/src/worker/handle-delivery.js: the collaborators that
-- `createDeliveryHandler` is given, and the reading of what the receiver answered. The times are
-- those that `now()` gives at the places where the handler asks for it.
use hook_tracker.Prelude.{
  ℕ, ◌+◌, ◌-◌, ◌*◌, ◌/◌, String, Bool, false, ◌&&◌, List, Option, none, some, leb, ltb, or_else,
}
use hook_tracker.Retry.{Level, LevelName, Failure, retryable, permanent}
use hook_tracker.Store.{
  Delivery, Endpoint, Event, LastError, coded, http, HeaderValue, seconds, below_zero, date,
  unreadable, ResponseHeaders, SendResult, Attempt,
}

-- Why ssrf.js refuses a target.
pub data TargetReason : Type 0 where
  invalid_url unsupported_scheme blocked_port dns_failure private_address : TargetReason

-- What `resolveTarget` throws; an error that is no SsrfBlockedError has no reason.
pub record Rejection : Type 0 where
  pub code : Option String
  pub reason : Option TargetReason
  pub message : String

pub data Resolved (Target : Type 0) : Type 0 where
  pinned : Target → Resolved Target
  rejected : Rejection → Resolved Target

pub record Config : Type 0 where
  pub max_attempts : ℕ
  pub auto_disable_threshold : ℕ
  pub dead_letter_ttl_ms : ℕ

abbrev pub Headers : Type 0
Headers = List (String × String)

pub record Env : Type 1 where
  pub config : Config
  pub schedule : List Level
  pub Target : Type 0
  pub resolve_target : String → Resolved Target
  -- `none` where a secret does not decrypt and `buildHeaders` throws.
  pub build_headers : ℕ → Delivery → Event → Endpoint → ℕ → ℕ → Option Headers
  pub send : Target → Headers → String → SendResult
  pub random : ℕ
  pub bucket_at : ℕ
  pub started_at : ℕ
  pub answered_at : ℕ
  pub finished_at : ℕ

pub data Outcome : Type 0 where
  unknown_delivery already_finalised endpoint_disabled throttled handled_ok : Outcome
  retrying_on : LevelName → Outcome
  ssrf_blocked failed : Outcome

-- `retryAfterSeconds` times 1000, the form in which `selectRetryLevel` uses it. A date is rounded
-- to whole seconds, and one that has passed gives 0. A number below 0 is never more than a
-- delay, so it counts as 0.
header_ms : ℕ → HeaderValue → Option ℕ
header_ms now (seconds thousandths) = some thousandths
header_ms now below_zero = some 0
header_ms now (date parsed) = some ((parsed - now + 500) / 1000 * 1000)
header_ms now unreadable = none

header_field_ms : ℕ → Option HeaderValue → Option ℕ
unfolding header_ms
header_field_ms now none = none
header_field_ms now (some value) = header_ms now value

unfoldable pub retry_after_ms : ℕ → Option ResponseHeaders → Option ℕ
unfolding header_field_ms
retry_after_ms now none = none
retry_after_ms now (some headers) = header_field_ms now headers.retry_after

unfoldable pub is_success : Option ℕ → Bool
is_success none = false
is_success (some status) = leb 200 status && ltb status 300

abbrev pub attempt_row : ℕ → ℕ → SendResult → Attempt
attempt_row delivery_id attempt result = record {
  delivery_id = delivery_id;
  attempt_number = attempt;
  result = result;
}

describe_code : SendResult → Option String → LastError
describe_code result none = http result.response_status
describe_code result (some code) = coded code (or_else result.error_message "undefined")

unfoldable pub describe : SendResult → LastError
unfolding describe_code
describe result = describe_code result result.error_code

-- A name that does not resolve walks the ladder; every other rejection is permanent.
unfoldable pub classify_rejection : Option TargetReason → Failure
classify_rejection (some dns_failure) = retryable
classify_rejection _ = permanent

unfoldable pub rejection_result : Rejection → SendResult
rejection_result r = record {
  response_status = none;
  response_headers = none;
  response_body_snippet = none;
  duration_ms = some 0;
  error_code = some (or_else r.code "SSRF_BLOCKED");
  error_message = some r.message;
}
