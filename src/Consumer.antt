-- ===== src/Consumer.antt =====
-- backend/src/worker/worker.js: the consumer of the delivery queue. The message has been taken
-- from the queue and is not acknowledged yet.
pub mod Losses
use hook_tracker.Prelude.{Bool, true, false, if◌then◌else◌}
use hook_tracker.World.{World, Reply, returned, thrown, Message, delivery_queue, with_message}
use hook_tracker.Exchange.{Env, Outcome}
use hook_tracker.Worker.{handle_delivery}

-- Returned: `ack`. Thrown: one requeue, which the broker marks as redelivered; the second time
-- the message is acknowledged all the same.
unfoldable pub settle : Message → Reply Outcome → World
settle m (returned outcome w) = w
settle m (thrown error w) =
    if m.redelivered
    then w
    else with_message (record m { place = delivery_queue; redelivered = true }) w

unfoldable pub consume : Env → Message → World → World
unfolding settle
consume e m w = settle m (handle_delivery e m.delivery_id m.attempt w)
