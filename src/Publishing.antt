-- ===== src/Publishing.antt =====
-- backend/src/api/services/publish-service.js: an event and its fan-out to the endpoints of the
-- project. The ids that `newId` makes are arguments, the i-th delivery's is `delivery_ids i`.
pub mod Fanout
pub mod Behaviour
pub mod Losses
use hook_tracker.Prelude.{
  ℕ, suc, zero, ◌+◌, String, Bool, true, false, not, ◌&&◌, List, [], ◌∷◌, ◌++◌, Option, none, some,
  map, keep, any, length, ◌==◌, if◌then◌else◌, codes,
}
use hook_tracker.Status.{
  DeliveryStatus, pending, skipped, is_active, is_pending, EndpointStatus, active, disabled,
}
use hook_tracker.Store.{Delivery, Endpoint, Event}
use hook_tracker.World.{
  World, M, returned, thrown, pure, throw, unprocessable, ◌>>=◌, ◌>>◌, call, query, write,
}
use hook_tracker.Publisher.{publish_delivery}
use hook_tracker.EventTypes.{subscription_matches}

pub record Request : Type 0 where
  pub project_id : ℕ
  pub event_type : String
  pub payload : String
  pub endpoint_ids : List ℕ
  pub idempotency_key : String

abbrev pub contains : ℕ → List ℕ → Bool
contains id ids = any (λ j. j == id) ids

-- `[...new Set(ids)]`
unfoldable pub unique : List ℕ → List ℕ
unique [] = []
unique (id ∷ ids) = id ∷ keep (λ j. not (j == id)) (unique ids)

abbrev pub Rows : Type 0
Rows = List (ℕ × Endpoint)

checked : List ℕ → Rows → M Rows
checked ids rows = if length rows == length ids then pure rows else throw unprocessable

unfoldable pub explicit_endpoints : ℕ → List ℕ → M Rows
unfolding checked unique
explicit_endpoints project_id endpoint_ids =
    query (λ w.
      keep (λ r. r.1.project_id == project_id && contains r.0 (unique endpoint_ids)) w.endpoints)
    >>= checked (unique endpoint_ids)

unfoldable pub subscribed_endpoints : ℕ → String → M Rows
subscribed_endpoints project_id event_type =
    query (λ w. keep (λ r. r.1.project_id == project_id) w.endpoints) >>= λ rows.
    pure (keep (λ r. subscription_matches (map codes r.1.event_types) (codes event_type)) rows)

unfoldable pub chosen_endpoints : Request → List ℕ → M Rows
chosen_endpoints r [] = subscribed_endpoints r.project_id r.event_type
chosen_endpoints r (id ∷ ids) = explicit_endpoints r.project_id (id ∷ ids)

-- A disabled endpoint still gets a row.
abbrev pub first_status : EndpointStatus → DeliveryStatus
first_status active = pending
first_status disabled = skipped

abbrev pub new_delivery : ℕ → ℕ → ℕ × Endpoint → Delivery
new_delivery event_id now (endpoint_id, ep) = record {
  event_id = event_id;
  endpoint_id = endpoint_id;
  status = first_status ep.status;
  attempt_count = 0;
  next_attempt_at = none;
  last_error = none;
  completed_at = none;
  replayed_from_id = none;
  created_at = now;
}

unfoldable pub new_deliveries : (ℕ → ℕ) → ℕ → ℕ → ℕ → Rows → List (ℕ × Delivery)
new_deliveries delivery_ids i event_id now [] = []
new_deliveries delivery_ids i event_id now (r ∷ rows) =
    (delivery_ids i, new_delivery event_id now r)
    ∷ new_deliveries delivery_ids (suc i) event_id now rows

-- The loop over `queued`.
unfoldable pub publish_all : List (ℕ × Delivery) → M (Unit {0})
publish_all [] = pure tt
publish_all ((id, d) ∷ rows) = publish_delivery id 1 >> publish_all rows

abbrev pub queued : List (ℕ × Delivery) → List (ℕ × Delivery)
queued rows = keep (λ r. is_pending r.1.status) rows

abbrev pub new_event : Request → ℕ → Event
new_event r now = record {
  project_id = r.project_id;
  event_type = r.event_type;
  payload = r.payload;
  idempotency_key = r.idempotency_key;
  received_at = now;
}

unfoldable pub save_event : Request → ℕ → ℕ → List (ℕ × Delivery) → M (Unit {0})
save_event r event_id now deliveries =
    write (λ w. true)
      (λ w. record w {
        events = w.events ++ (event_id, new_event r now) ∷ [];
        deliveries = w.deliveries ++ deliveries;
      })

unfoldable pub fan_out : Request → ℕ → (ℕ → ℕ) → ℕ → Rows → M (List (ℕ × Delivery))
fan_out r event_id delivery_ids now [] = throw unprocessable
fan_out r event_id delivery_ids now (ep ∷ eps) = do
  let deliveries = new_deliveries delivery_ids 0 event_id now (ep ∷ eps)
  save_event r event_id now deliveries
  publish_all (queued deliveries)
  pure deliveries

unfoldable pub publish_event : Request → ℕ → (ℕ → ℕ) → ℕ → M (List (ℕ × Delivery))
publish_event r event_id delivery_ids now =
    chosen_endpoints r r.endpoint_ids >>= fan_out r event_id delivery_ids now
