-- ===== src/Examples/Broker.antt =====
-- The broker's queues, and a delivery that fails at every attempt
-- (backend/src/shared/queue/topology.js, backend/src/worker/handle-delivery.js).
use hook_tracker.Prelude.{keep, none, map, ◌≡◌, refl, ◌∷◌, [], codes, text_eq, List, arith}
use hook_tracker.Retry.{retry_schedule, m5}
use hook_tracker.Status.{pending}
use hook_tracker.Store.{find_row}
use hook_tracker.World.{World, retry_queue, delivery_queue}
use hook_tracker.Consumer.{settle}
use hook_tracker.Carried.{carries}
use hook_tracker.Worker.Settled.{message}
use hook_tracker.Topology.{posted_to, Name, create_topology, assert_topology, all_queue_names}
use hook_tracker.Topology.Names.{routes, expires_to}
use hook_tracker.Topology.Expiry.{assert_topology-Implements, next_stop}
use hook_tracker.System.Following.{follow, IsAlone}
use hook_tracker.System.Progress.{follow-IsDone, IsDone, IsJoined, IsSound}
use hook_tracker.Exchange.{Env, is_success, retry_after_ms}
use hook_tracker.Worker.{
  handle_delivery, load, on_loaded, on_allowed, on_target, on_result, conclude, finalise_retry,
  finalise_failure, next_retry_level, should_disable,
}
use hook_tracker.TokenBucket.{take, take_token}
use hook_tracker.Publisher.{publish_retry, publish_dead_letter}
use hook_tracker.World.{call, write, emit}
use hook_tracker.Store.{modify}
use hook_tracker.Retry.{select_retry_level, classify_failure}
use hook_tracker.Examples.Data.{env, world_in, delivery_in, headers}

abbrev webhook : Name
webhook = codes "webhook"

names_test :
    all_queue_names (create_topology webhook (retry_schedule) 10_000)
    ≡ map codes (
        "webhook.delivery" ∷ "webhook.retry.1m" ∷ "webhook.retry.5m" ∷ "webhook.retry.30m"
        ∷ "webhook.retry.2h" ∷ "webhook.retry.6h" ∷ "webhook.throttle.10s" ∷ "webhook.dlq" ∷ [])
unfolding all_queue_names create_topology
names_test = refl

assert_topology-Implements_example :
    ((q : Name)
      → routes
          (assert_topology (create_topology webhook retry_schedule 10_000))
          (codes "webhook.retry", codes "retry.5m")
          q
        ≡ text_eq (codes "webhook.retry.5m") q)
    × (expires_to
          (assert_topology (create_topology webhook retry_schedule 10_000))
          (codes "webhook.retry.5m")
        ≡ next_stop (create_topology webhook retry_schedule 10_000) (retry_queue m5))
unfolding create_topology posted_to
assert_topology-Implements_example =
    assert_topology-Implements webhook retry_schedule 10_000 (retry_queue m5)
      (codes "webhook.retry", codes "retry.5m") refl

sound : IsSound 6 env
sound = record {
  default_schedule = refl;
  limit = refl;
  signs = λ id d ev ep n at_ms. (headers, refl);
}

abbrev published : World
published = record (world_in pending) { queue = message 1 1 delivery_queue none ∷ [] }

joined : IsJoined 1 published
unfolding find_row
joined = record {
  row = delivery_in pending;
  row_found = refl;
  event_exists = refl;
  endpoint_exists = refl;
}

alone : IsAlone 1 1 published
alone = record { message = message 1 1 delivery_queue none; only = refl; numbered = refl }

abbrev six : List Env
six = env ∷ env ∷ env ∷ env ∷ env ∷ env ∷ []

never_parked : (follow 1 six published).0 ≡ 0
unfolding follow settle handle_delivery load on_loaded on_allowed on_target on_result conclude
    finalise_retry finalise_failure next_retry_level should_disable take take_token publish_retry
    publish_dead_letter call write emit find_row modify select_retry_level is_success
    classify_failure retry_after_ms
never_parked = refl

follow-IsDone_example :
    IsDone 1 (follow 1 six published).1 × (keep (carries 1) (follow 1 six published).1.queue ≡ [])
follow-IsDone_example =
    follow-IsDone 6 1 0 six published (sound, (sound, (sound, (sound, (sound, (sound, tt))))))
      (omega arith) joined alone (omega (arith, never_parked))
