-- ===== src/Publisher/Runs.antt =====
-- The publisher's calls (backend/src/shared/queue/publisher.js) under every list of faults: a
-- relation that holds whenever such a message is added holds of the call.
use hook_tracker.Prelude.{ℕ, zero, suc, ◌≡◌, refl, Option, none, some, List, find}
use hook_tracker.Retry.{Level, LevelName}
use hook_tracker.World.{
  World, Message, Place, delivery_queue, retry_queue, throttle_queue, dead_letter_queue,
  bad_message, unknown_level, with_message, ◌>>=◌, call,
}
use hook_tracker.World.Runs.{Runs, IsQuiet, Runs->>=, Runs-throw, Runs-call}
use hook_tracker.Publisher.{
  message_for, publish, publish_delivery, publish_to_level, publish_retry, publish_throttle,
  publish_dead_letter, level_eq,
}

module _ {R : World → World → Type 0} (q : IsQuiet R) (id n : ℕ) where
  -- Adding a message of this delivery and attempt is a step of the relation.
  abbrev pub Accepts : Type 0
  Accepts =
      (m : Message) → m.delivery_id ≡ id → m.attempt ≡ n → (w : World) → R w (with_message m w)

  Runs-publish : (m : Message) → ((w : World) → R w (with_message m w)) → Runs R (publish m)
  unfolding publish
  Runs-publish m h = Runs->>= q.preorder call _ (Runs-call q) (λ _. record { run = h })

module _ {R : World → World → Type 0} (q : IsQuiet R) where
  Runs-send :
      (id n : ℕ) (place : Place) (expiration : Option ℕ)
      → Accepts q id n
      → Runs R (message_for id n place expiration >>= publish)
  unfolding message_for
  Runs-send id zero place expiration h = Runs-throw q.preorder (Unit {0}) bad_message
  Runs-send id (suc n) place expiration h = Runs-publish q id (suc n) _ (h _ refl refl)

  pub Runs-publish_delivery : (id n : ℕ) → Accepts q id n → Runs R (publish_delivery id n)
  unfolding publish_delivery
  Runs-publish_delivery id n h = Runs-send id n delivery_queue none h

  pub Runs-publish_throttle : (id n : ℕ) → Accepts q id n → Runs R (publish_throttle id n)
  unfolding publish_throttle
  Runs-publish_throttle id n h = Runs-send id n throttle_queue none h

  pub Runs-publish_dead_letter :
      (ttl id n : ℕ) → Accepts q id n → Runs R (publish_dead_letter ttl id n)
  unfolding publish_dead_letter
  Runs-publish_dead_letter ttl id n h = Runs-send id n dead_letter_queue (some ttl) h

  Runs-publish_to_level :
      (random id n : ℕ) (target : Option Level)
      → Accepts q id n
      → Runs R (publish_to_level random id n target)
  unfolding publish_to_level
  Runs-publish_to_level random id n none h = Runs-throw q.preorder (Unit {0}) unknown_level
  Runs-publish_to_level random id n (some target) h = Runs-send id n (retry_queue target.level) _ h

  pub Runs-publish_retry :
      (levels : List Level) (random id n : ℕ) (level : LevelName)
      → Accepts q id n
      → Runs R (publish_retry levels random id n level)
  unfolding publish_retry
  Runs-publish_retry levels random id n level h =
      Runs-publish_to_level random id n (find (λ entry. level_eq entry.level level) levels) h
