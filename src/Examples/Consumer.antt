-- ===== src/Examples/Consumer.antt =====
-- Messages at the consumer (backend/src/worker/worker.js).
use hook_tracker.Prelude.{refl, [], ◌∷◌, true, false, none}
use hook_tracker.Status.{pending}
use hook_tracker.Store.{find_row}
use hook_tracker.World.{World, Message, delivery_queue}
use hook_tracker.Carried.{IsCarried, has_message}
use hook_tracker.Consumer.{consume}
use hook_tracker.Consumer.Losses.{consume_loses}
use hook_tracker.Examples.Data.{env, world_in, delivery_in}

abbrev first : Message
first = record {
  delivery_id = 1;
  attempt = 1;
  place = delivery_queue;
  expiration = none;
  redelivered = false;
}

abbrev second : Message
second = record first { redelivered = true }

-- The broker fails in the middle of the handling.
abbrev cut : World
cut = record (world_in pending) { faults = false ∷ false ∷ false ∷ false ∷ true ∷ [] }

abbrev down : World
down = record (world_in pending) { faults = true ∷ [] }

consume_loses_example : ¬ IsCarried 1 (consume env second down)
unfolding has_message find_row
consume_loses_example =
    (consume_loses env second (delivery_in pending) down [] refl refl refl refl refl refl).2
