-- ===== src/Publisher/Posts.antt =====
-- What the publisher's calls leave behind when they return
-- (backend/src/shared/queue/publisher.js).
use hook_tracker.Prelude.{ℕ, zero, suc, ◌≡◌, refl, Option, none, some, List, find}
use hook_tracker.Retry.{Level, LevelName}
use hook_tracker.World.{
  World, Message, Place, delivery_queue, retry_queue, throttle_queue, dead_letter_queue,
  with_message, ◌>>=◌,
}
use hook_tracker.World.Posts.{Posts, Posts->>=, Posts-call, IsStable}
use hook_tracker.Publisher.{
  message_for, publish, publish_delivery, publish_to_level, publish_retry, publish_throttle,
  publish_dead_letter, level_eq,
}

-- From `P`, a message of this delivery in this place leads to `Q`.
abbrev pub Sends : (World → Type 0) → (World → Type 0) → ℕ → Place → Type 0
Sends P Q id place =
    (m : Message) → m.delivery_id ≡ id → m.place ≡ place → (w : World) → P w → Q (with_message m w)

module _ {P Q : World → Type 0} (s : IsStable P) (id : ℕ) where
  Posts-publish :
      (m : Message) → ((w : World) → P w → Q (with_message m w)) → Posts P (publish m) (λ _. Q)
  unfolding publish
  Posts-publish m h = Posts->>= (Posts-call s) (λ _. record { post = h })

  Posts-send :
      (n : ℕ) (place : Place) (expiration : Option ℕ)
      → Sends P Q id place
      → Posts P (message_for id n place expiration >>= publish) (λ _. Q)
  unfolding message_for
  Posts-send zero place expiration h = record { post = λ w p. tt }
  Posts-send (suc n) place expiration h = Posts-publish _ (h _ refl refl)

  pub Posts-publish_delivery :
      (n : ℕ) → Sends P Q id delivery_queue → Posts P (publish_delivery id n) (λ _. Q)
  unfolding publish_delivery
  Posts-publish_delivery n h = Posts-send n delivery_queue none h

  pub Posts-publish_throttle :
      (n : ℕ) → Sends P Q id throttle_queue → Posts P (publish_throttle id n) (λ _. Q)
  unfolding publish_throttle
  Posts-publish_throttle n h = Posts-send n throttle_queue none h

  pub Posts-publish_dead_letter :
      (ttl n : ℕ) → Sends P Q id dead_letter_queue → Posts P (publish_dead_letter ttl id n) (λ _. Q)
  unfolding publish_dead_letter
  Posts-publish_dead_letter ttl n h = Posts-send n dead_letter_queue (some ttl) h

  Posts-publish_to_level :
      (random n : ℕ) (target : Option Level)
      → ((level : LevelName) → Sends P Q id (retry_queue level))
      → Posts P (publish_to_level random id n target) (λ _. Q)
  unfolding publish_to_level
  Posts-publish_to_level random n none h = record { post = λ w p. tt }
  Posts-publish_to_level random n (some target) h =
      Posts-send n (retry_queue target.level) _ (h target.level)

  pub Posts-publish_retry :
      (levels : List Level) (random n : ℕ) (level : LevelName)
      → ((level : LevelName) → Sends P Q id (retry_queue level))
      → Posts P (publish_retry levels random id n level) (λ _. Q)
  unfolding publish_retry
  Posts-publish_retry levels random n level h =
      Posts-publish_to_level random n (find (λ entry. level_eq entry.level level) levels) h
