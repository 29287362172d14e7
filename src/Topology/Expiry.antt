-- ===== src/Topology/Expiry.antt =====
-- The places of the model are the queues of the broker: backend/src/shared/queue/topology.js.
use hook_tracker.Prelude.{
  ℕ, ◌≡◌, refl, Bool, true, false, ◌||◌, List, [], ◌∷◌, ◌++◌, Option, none, some, map, codes, find,
  any, any-append, text_eq, Option-cases, Bool-cases, inl, inr, arith, if◌then◌else◌,
}
use hook_tracker.Retry.{Level, LevelName}
use hook_tracker.World.{Place, delivery_queue, retry_queue, throttle_queue, dead_letter_queue}
use hook_tracker.Publisher.{level_eq}
use hook_tracker.System.{dead_letters_to}
use hook_tracker.Topology.{
  Name, level_text, DelayQueue, Topology, retry_queue_of, create_topology, Declaration,
  delay_declarations, assert_topology, posted_to, delay_queue_arguments,
}
use hook_tracker.Topology.Routes.{topology, assert_topology-routes}
use hook_tracker.Topology.Names.{
  routes, expires_to, queue_at, text_eq-append, text_eq_refl, text_eq-level_text,
}

-- Where the model has an expired message of a place go.
abbrev pub next_stop : Topology → Place → Option (Name × Name)
next_stop t p = elim (dead_letters_to p) [ none ↦ none | some to ↦ posted_to t to ]

expires_to-delays :
    (t : Topology) (q : Name) (ls : List DelayQueue) (rest : List Declaration)
    → expires_to (delay_declarations t ls ++ rest) q ≡ (
        if any (λ l. text_eq l.queue q) ls
        then some (t.exchanges.main, t.delivery_routing_key)
        else expires_to rest q)
unfolding delay_declarations delay_queue_arguments
expires_to-delays t q [] rest = refl
expires_to-delays t q (l ∷ ls) rest = ground (arith, expires_to-delays t q ls rest)

abbrev has_queue : Name → DelayQueue → Bool
has_queue q l = text_eq l.queue q

module _ (namespace : Name) where
  any-other :
      (suffix : Name) (s : List Level)
      → ((l : LevelName) → text_eq (codes ".retry." ++ level_text l) suffix ≡ false)
      → any (has_queue (namespace ++ suffix)) (map (retry_queue_of namespace) s) ≡ false
  any-other suffix [] h = refl
  any-other suffix (l ∷ s) h =
      rw (text_eq-append namespace (codes ".retry." ++ level_text l.level) suffix, h l.level)
        (any-other suffix s h)

  any-level :
      (level : LevelName) (s : List Level) (target : DelayQueue)
      → find (λ entry. level_eq entry.level level) (map (retry_queue_of namespace) s) ≡ some target
      → any (has_queue (queue_at namespace (retry_queue level))) (map (retry_queue_of namespace) s)
        ≡ true
  any-level level [] target h = cc
  any-level level (l ∷ s) target h = elim (Bool-cases (level_eq l.level level)) [
    | inl e ↦
        rw
          (
            text_eq-append namespace (codes ".retry." ++ level_text l.level)
                (codes ".retry." ++ level_text level),
            text_eq-level_text l.level level,
            e,
          )
          refl
    | inr e ↦ ground (arith, any-level level s target)
  ]

  module _ (s : List Level) (ttl : ℕ) where
    expires_to-any :
        (q : Name)
        → expires_to (assert_topology (topology namespace s ttl)) q ≡ (
            if any (has_queue q) (map (retry_queue_of namespace) s)
              || (text_eq (queue_at namespace throttle_queue) q || false)
            then some (namespace ++ codes ".exchange", codes "delivery")
            else none)
    unfolding assert_topology create_topology
    expires_to-any q =
        rw
          (
            expires_to-delays (topology namespace s ttl) q (
                (topology namespace s ttl).retry_queues
                ++ (topology namespace s ttl).throttle_queue_entry ∷ []),
            any-append (has_queue q) (map (retry_queue_of namespace) s),
          )
          refl

    assert_topology-expires :
        (p : Place) (x : Name × Name)
        → posted_to (topology namespace s ttl) p ≡ some x
        → expires_to (assert_topology (topology namespace s ttl)) (queue_at namespace p)
          ≡ next_stop (topology namespace s ttl) p
    unfolding posted_to create_topology
    assert_topology-expires delivery_queue x h =
        rw
          (
            expires_to-any (queue_at namespace delivery_queue),
            any-other (codes ".delivery") s (λ l. refl),
            text_eq-append namespace (codes ".throttle.10s") (codes ".delivery"),
          )
          refl
    assert_topology-expires (retry_queue level) x h =
        elim (Option-cases
          (find (λ entry. level_eq entry.level level) (map (retry_queue_of namespace) s))) [
            | inl e ↦ ground arith
            | inr (target, e) ↦
                rw
                  (
                    expires_to-any (queue_at namespace (retry_queue level)),
                    any-level level s target e,
                  )
                  refl
          ]
    assert_topology-expires throttle_queue x h =
        rw
          (
            expires_to-any (queue_at namespace throttle_queue),
            any-other (codes ".throttle.10s") s (λ l. refl),
            text_eq_refl (queue_at namespace throttle_queue),
          )
          refl
    assert_topology-expires dead_letter_queue x h =
        rw
          (
            expires_to-any (queue_at namespace dead_letter_queue),
            any-other (codes ".dlq") s (λ l. refl),
            text_eq-append namespace (codes ".throttle.10s") (codes ".dlq"),
          )
          refl

    -- Whatever the namespace and the schedule: what the publisher posts for a place of the model
    -- reaches the queue of that place and no other queue, and what expires there is published
    -- again as the model has it: from a retry queue or the throttle queue with the exchange and
    -- key of a new delivery, and from the other two not at all.
    pub assert_topology-Implements :
        (p : Place) (x : Name × Name)
        → posted_to (topology namespace s ttl) p ≡ some x
        → ((q : Name)
            → routes (assert_topology (topology namespace s ttl)) x q
              ≡ text_eq (queue_at namespace p) q)
          × (expires_to (assert_topology (topology namespace s ttl)) (queue_at namespace p)
              ≡ next_stop (topology namespace s ttl) p)
    assert_topology-Implements p x h =
        (λ q. assert_topology-routes namespace s ttl p x q h, assert_topology-expires p x h)
