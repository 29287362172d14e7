-- ===== src/World.antt =====
-- The state that the processes of the backend share, and the calls that they make to it: the
-- Postgres tables, the messages of the broker, the token buckets in Redis, and the log of what
-- was published to the realtime channel and handed to the alert dispatcher.
-- A call to Postgres, Redis or the broker may fail. `faults` decides: each call takes the first
-- entry, and fails if it is `true`; a call that fails changes nothing, and once the list is used
-- up every call succeeds. What runs to the end under some list of faults is cut off at any
-- call by another.
pub mod Runs
pub mod Posts
use hook_tracker.Prelude.{
  ℕ, String, List, [], ◌∷◌, ◌++◌, Option, none, some, Bool, true, false, is_some, ◌&&◌,
  if◌then◌else◌,
}
use hook_tracker.Retry.{LevelName}
use hook_tracker.Status.{FailureReason}
use hook_tracker.Store.{Table, find_row, modify, Delivery, Endpoint, Event, Attempt, SendResult}

-- Where a message waits: backend/src/shared/queue/topology.js.
pub data Place : Type 0 where
  delivery_queue : Place
  retry_queue : LevelName → Place
  throttle_queue : Place
  dead_letter_queue : Place

pub record Message : Type 0 where
  pub delivery_id : ℕ
  pub attempt : ℕ
  pub place : Place
  pub expiration : Option ℕ  -- milliseconds
  pub redelivered : Bool

pub data Realtime : Type 0 where
  delivery_succeeded : ℕ → ℕ → SendResult → ℕ → Realtime
  delivery_attempted : ℕ → ℕ → SendResult → ℕ → Realtime
  delivery_failed : ℕ → ℕ → FailureReason → SendResult → ℕ → Realtime
  endpoint_disabled_event : ℕ → ℕ → ℕ → Realtime

pub record Bucket : Type 0 where
  pub tokens : ℕ
  pub updated_at : ℕ
  pub expires_at : ℕ

-- `alerts.notify` for a disabled endpoint.
pub record Alert : Type 0 where
  pub project_id : ℕ
  pub endpoint_id : ℕ
  pub consecutive_failures : ℕ

pub record World : Type 0 where
  pub deliveries : Table Delivery
  pub endpoints : Table Endpoint
  pub events : Table Event
  pub attempts : List Attempt
  pub queue : List Message
  pub emitted : List (ℕ × Realtime)  -- under the project
  pub alerts : List Alert
  pub buckets : Table Bucket
  pub faults : List Bool

pub data Error : Type 0 where
  unavailable : Error
  record_not_found : Error
  bad_message : Error
  unknown_level : Error
  bad_secret : Error
  inconsistent : Error
  unprocessable : Error
  conflict : Error
  no_such_project : Error
  no_such_delivery : Error
  no_such_endpoint : Error
  no_such_member : Error
  no_such_api_key : Error
  forbidden : Error
  unauthorized : Error

-- The end of an asynchronous function: it returns, or it throws.
pub data Reply {ℓ} (A : Type ℓ) : Type ℓ where
  returned : A → World → Reply A
  thrown : Error → World → Reply A

abbrev pub world {ℓ} : {A : Type ℓ} → Reply A → World
world (returned a w) = w
world (thrown e w) = w

abbrev pub is_thrown : {A : Type 0} → Reply A → Bool
is_thrown (returned a w) = false
is_thrown (thrown e w) = true

abbrev pub M : Type 0 → Type 0
M A = World → Reply A

abbrev pub pure : {A : Type 0} → A → M A
pure a w = returned a w

abbrev pub throw : {A : Type 0} → Error → M A
throw e w = thrown e w

infixl 5 ◌>>=◌ ◌>>◌
abbrev pub ◌>>=◌ : {A B : Type 0} → M A → (A → M B) → M B
◌>>=◌ m f w = elim (m w) [ returned a w' ↦ f a w' | thrown e w' ↦ thrown e w' ]

abbrev pub ◌>>◌ : {B : Type 0} → M (Unit {0}) → M B → M B
m >> k = m >>= λ _. k

call_on : List Bool → M (Unit {0})
call_on [] w = returned tt w
call_on (false ∷ rest) w = returned tt (record w { faults = rest })
call_on (true ∷ rest) w = thrown unavailable (record w { faults = rest })

-- One call that may fail.
unfoldable pub call : M (Unit {0})
unfolding call_on
call w = call_on w.faults w

-- A query, and a statement that needs the rows it names.
unfoldable pub query : {A : Type 0} → (World → A) → M A
query f = call >>= λ _ w. returned (f w) w

unfoldable pub write : (World → Bool) → (World → World) → M (Unit {0})
write needs f = call >>= λ _ w. if needs w then returned tt (f w) else thrown record_not_found w

abbrev pub has_delivery : ℕ → World → Bool
has_delivery id w = is_some (find_row id w.deliveries)

abbrev pub has_endpoint : ℕ → World → Bool
has_endpoint id w = is_some (find_row id w.endpoints)

abbrev pub with_delivery : ℕ → (Delivery → Delivery) → World → World
with_delivery id f w = record w { deliveries = modify id f w.deliveries }

abbrev pub with_endpoint : ℕ → (Endpoint → Endpoint) → World → World
with_endpoint id f w = record w { endpoints = modify id f w.endpoints }

abbrev pub with_attempt : Attempt → World → World
with_attempt a w = record w { attempts = w.attempts ++ a ∷ [] }

abbrev pub with_message : Message → World → World
with_message m w = record w { queue = w.queue ++ m ∷ [] }

-- backend/src/shared/realtime.js: a failed publish is logged and swallowed.
unfoldable pub emit : ℕ → Realtime → M (Unit {0})
emit project_id event w = elim (call w) [
  | returned _ w' ↦ returned tt (record w' { emitted = w'.emitted ++ (project_id, event) ∷ [] })
  | thrown _ w' ↦ returned tt w'
]
