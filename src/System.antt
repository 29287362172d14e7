-- ===== src/System.antt =====
-- The processes of the backend over the state that they share: what the workers
-- (backend/src/worker/worker.js), the broker (backend/src/shared/queue/topology.js), the sweeper
-- (backend/src/jobs/stuck-sweeper.js) and the API (backend/src/api/services/publish-service.js,
-- backend/src/api/services/delivery-service.js) may do next, one at a time and in any order.
pub mod Reachable
pub mod Following
pub mod Progress
use hook_tracker.Prelude.{ℕ, ◌≡◌, List, [], ◌∷◌, ◌++◌, Bool, true, false, Option, none, some}
use hook_tracker.Store.{find_row, Delivery, Event}
use hook_tracker.World.{
  World, world, Message, Place, delivery_queue, retry_queue, throttle_queue, dead_letter_queue,
}
use hook_tracker.Exchange.{Env}
use hook_tracker.Consumer.{consume}
use hook_tracker.Sweeper.{recover}
use hook_tracker.Sweeper.Recovery.{is_sparse}
use hook_tracker.Publishing.{Request, publish_event}
use hook_tracker.Authorization.{Membership}
use hook_tracker.Replay.{replay}

abbrev pub with_queue : List Message → World → World
with_queue q w = record w { queue = q }

-- The arguments of `assertQueue`: where the messages of a queue go when their time is up. A dead
-- letter goes nowhere.
abbrev pub dead_letters_to : Place → Option Place
dead_letters_to delivery_queue = none
dead_letters_to (retry_queue level) = some delivery_queue
dead_letters_to throttle_queue = some delivery_queue
dead_letters_to dead_letter_queue = none

-- `consuming`: a worker takes a message, delivered for the first time or again, at any times and
-- whatever the receiver answers. `expiring` and `dropping`: the time of a message is up.
-- `sweeping`: a sweep recovers a row that it read at some time, and no two calls of it fail in a
-- row. `publishing` and `replaying`: a request to the API with no failing call; the row to replay
-- has its event. `breaking`: which
-- of the calls to come fail.
pub data Step : World → World → Type 1 where
  consuming :
      (e : Env) (m : Message) (before after : List Message) (w : World)
      → w.queue ≡ before ++ m ∷ after
      → m.place ≡ delivery_queue
      → Step w (consume e m (with_queue (before ++ after) w))
  expiring :
      (m : Message) (to : Place) (before after : List Message) (w : World)
      → w.queue ≡ before ++ m ∷ after
      → dead_letters_to m.place ≡ some to
      → Step w (with_queue ((before ++ after) ++ record m { place = to } ∷ []) w)
  dropping :
      (m : Message) (before after : List Message) (w : World)
      → w.queue ≡ before ++ m ∷ after
      → m.place ≡ dead_letter_queue
      → Step w (with_queue (before ++ after) w)
  sweeping :
      (id : ℕ) (d : Delivery) (w : World)
      → is_sparse w.faults ≡ true
      → Step w (world (recover id d w))
  publishing :
      (r : Request) (event_id : ℕ) (ids : ℕ → ℕ) (now : ℕ) (w : World)
      → w.faults ≡ []
      → Step w (world (publish_event r event_id ids now w))
  replaying :
      (auth : List Membership) (id new_id now : ℕ) (w : World)
      → w.faults ≡ []
      → ((d : Delivery)
          → find_row id w.deliveries ≡ some d
          → (ev : Event) × (find_row d.event_id w.events ≡ some ev))
      → Step w (world (replay auth id new_id now w))
  breaking : (faults : List Bool) (w : World) → Step w (record w { faults = faults })

pub data Steps (start : World) : World → Type 1 where
  here : Steps start start
  next : {v w : World} → Steps start v → Step v w → Steps start w
