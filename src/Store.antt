-- ===== src/Store.antt =====
-- The tables of backend/prisma/schema.prisma that the delivery pipeline reads and writes, as
-- lists of rows under their ids. An id is a number: the code only compares ids.
pub mod Rows
use hook_tracker.Prelude.{ℕ, String, List, Option, Bool}
use hook_tracker.Status.{DeliveryStatus, EndpointStatus}
unfoldable pub use Rows.*

-- The texts that the code writes into `lastError`.
pub data LastError : Type 0 where
  coded : String → String → LastError
  http : Option ℕ → LastError
  endpoint_is_disabled : LastError
  recovered_by_sweeper : LastError

pub record Delivery : Type 0 where
  pub event_id : ℕ
  pub endpoint_id : ℕ
  pub status : DeliveryStatus
  pub attempt_count : ℕ
  pub next_attempt_at : Option ℕ
  pub last_error : Option LastError
  pub completed_at : Option ℕ
  pub replayed_from_id : Option ℕ
  pub created_at : ℕ

pub record Endpoint : Type 0 where
  pub project_id : ℕ
  pub url : String
  pub status : EndpointStatus
  pub secret : String
  pub previous_secret : Option String
  pub secret_rotated_at : Option ℕ
  pub event_types : List String
  pub rate_limit_per_minute : ℕ
  pub consecutive_failures : ℕ
  pub created_at : ℕ

pub record Event : Type 0 where
  pub project_id : ℕ
  pub event_type : String
  pub payload : String  -- the JSON text
  pub idempotency_key : String
  pub received_at : ℕ

-- The header `Retry-After`, as `Number` and then `Date.parse` read it: a finite number of
-- seconds, given in thousandths; a finite number below 0; a date in milliseconds; neither.
pub data HeaderValue : Type 0 where
  seconds : ℕ → HeaderValue
  below_zero : HeaderValue
  date : ℕ → HeaderValue
  unreadable : HeaderValue

pub record ResponseHeaders : Type 0 where
  pub retry_after : Option HeaderValue
  pub others : List (String × String)

-- What backend/src/shared/http-client.js returns for an attempt.
pub record SendResult : Type 0 where
  pub response_status : Option ℕ
  pub response_headers : Option ResponseHeaders
  pub response_body_snippet : Option String
  pub duration_ms : Option ℕ
  pub error_code : Option String
  pub error_message : Option String

pub record Attempt : Type 0 where
  pub delivery_id : ℕ
  pub attempt_number : ℕ
  pub result : SendResult
