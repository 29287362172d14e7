-- ===== src/Examples/Data.antt =====
-- One project with one endpoint, one event and one delivery, and a worker that gets `HTTP 503`.
use hook_tracker.Prelude.{[], ◌∷◌, some, none, String}
use hook_tracker.Retry.{retry_schedule}
use hook_tracker.Status.{DeliveryStatus, active}
use hook_tracker.Store.{Delivery, Endpoint, Event, SendResult}
use hook_tracker.World.{World}
use hook_tracker.Exchange.{Env, pinned, Headers}

abbrev pub delivery_in : DeliveryStatus → Delivery
delivery_in status = record {
  event_id = 5;
  endpoint_id = 9;
  status = status;
  attempt_count = 0;
  next_attempt_at = none;
  last_error = none;
  completed_at = none;
  replayed_from_id = none;
  created_at = 100;
}

abbrev pub endpoint : Endpoint
endpoint = record {
  project_id = 3;
  url = "https://partner.example/hook";
  status = active;
  secret = "s";
  previous_secret = none;
  secret_rotated_at = none;
  event_types = [];
  rate_limit_per_minute = 600;
  consecutive_failures = 19;
  created_at = 1;
}

abbrev pub event : Event
event = record {
  project_id = 3;
  event_type = "order.created";
  payload = "{}";
  idempotency_key = "k";
  received_at = 100;
}

abbrev pub world_in : DeliveryStatus → World
world_in status = record {
  deliveries = (1, delivery_in status) ∷ [];
  endpoints = (9, endpoint) ∷ [];
  events = (5, event) ∷ [];
  attempts = [];
  queue = [];
  emitted = [];
  alerts = [];
  buckets = [];
  faults = [];
}

abbrev pub answer : SendResult
answer = record {
  response_status = some 503;
  response_headers = none;
  response_body_snippet = none;
  duration_ms = some 12;
  error_code = none;
  error_message = none;
}

abbrev pub headers : Headers
headers = ("x-webhook-id", "dlv_1") ∷ []

abbrev pub env : Env
env = record {
  config = record {
    max_attempts = 6;
    auto_disable_threshold = 20;
    dead_letter_ttl_ms = 86_400_000;
  };
  schedule = retry_schedule;
  Target = String;
  resolve_target = λ url. pinned url;
  build_headers = λ id d ev ep n at_ms. some headers;
  send = λ target hs body. answer;
  random = 0;
  bucket_at = 1_000;
  started_at = 1_000;
  answered_at = 1_012;
  finished_at = 1_013;
}
