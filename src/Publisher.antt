-- ===== src/Publisher.antt =====
-- backend/src/shared/queue/publisher.js and the topology that it publishes to. A message goes to
-- the queue that its exchange and routing key are bound to.
pub mod Runs
pub mod Posts
use hook_tracker.Prelude.{
  ℕ, suc, zero, ◌+◌, ◌*◌, ◌-◌, ◌/◌, ◌^◌, Bool, true, false, List, [], ◌∷◌, Option, none, some, leb,
  if◌then◌else◌, find, map,
}
use hook_tracker.Retry.{Level, LevelName, m1, m5, m30, h2, h6, s10}
use hook_tracker.World.{
  World, M, Place, delivery_queue, retry_queue, throttle_queue, dead_letter_queue, Message, pure,
  throw, bad_message, unknown_level, returned, with_message, call, ◌>>=◌, ◌>>◌,
}

-- `applyJitter` of backend/src/shared/retry.js: `Math.round(delayMs * (1 - 0.1 * random()))`, with
-- `random()` the fraction `random / 2 ^ 53`, and exact arithmetic for that of floats.
unfoldable pub apply_jitter : ℕ → ℕ → ℕ
apply_jitter delay_ms random =
    (2 * (delay_ms * (10 * 2 ^ 53 - random)) + 10 * 2 ^ 53) / (2 * (10 * 2 ^ 53))

abbrev pub level_eq : LevelName → LevelName → Bool
level_eq m1 m1 = true
level_eq m5 m5 = true
level_eq m30 m30 = true
level_eq h2 h2 = true
level_eq h6 h6 = true
level_eq s10 s10 = true
level_eq _ _ = false

-- `messageFor`: a delivery id is always one that `newId` made, so only the attempt is refused.
message_for : ℕ → ℕ → Place → Option ℕ → M Message
message_for delivery_id zero place expiration = throw bad_message
message_for delivery_id (suc n) place expiration = pure (record {
  delivery_id = delivery_id;
  attempt = suc n;
  place = place;
  expiration = expiration;
  redelivered = false;
})

-- `publish`: rejected, the message is in no queue.
publish : Message → M (Unit {0})
publish m = call >>= λ _ w. returned tt (with_message m w)

unfoldable pub publish_delivery : ℕ → ℕ → M (Unit {0})
unfolding message_for publish
publish_delivery delivery_id attempt =
    message_for delivery_id attempt delivery_queue none >>= publish

-- `delayLevel`, then the message under the exchange `retry`.
publish_to_level : ℕ → ℕ → ℕ → Option Level → M (Unit {0})
unfolding message_for publish
publish_to_level random delivery_id attempt none = throw unknown_level
publish_to_level random delivery_id attempt (some target) =
    message_for delivery_id attempt (retry_queue target.level)
      (some (apply_jitter target.delay_ms random))
    >>= publish

unfoldable pub publish_retry : List Level → ℕ → ℕ → ℕ → LevelName → M (Unit {0})
unfolding publish_to_level
publish_retry retry_queues random delivery_id attempt level =
    publish_to_level random delivery_id attempt
      (find (λ entry. level_eq entry.level level) retry_queues)

unfoldable pub publish_throttle : ℕ → ℕ → M (Unit {0})
unfolding message_for publish
publish_throttle delivery_id attempt =
    message_for delivery_id attempt throttle_queue none >>= publish

unfoldable pub publish_dead_letter : ℕ → ℕ → ℕ → M (Unit {0})
unfolding message_for publish
publish_dead_letter dead_letter_ttl_ms delivery_id attempt =
    message_for delivery_id attempt dead_letter_queue (some dead_letter_ttl_ms) >>= publish
