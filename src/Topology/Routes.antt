-- ===== src/Topology/Routes.antt =====
-- Which queue gets what backend/src/shared/queue/publisher.js posts, with the topology of
-- backend/src/shared/queue/topology.js.
use hook_tracker.Prelude.{
  ℕ, ◌≡◌, refl, ◌∙◌, ap, false, ◌&&◌, ◌||◌, List, [], ◌∷◌, ◌++◌, some, map, codes, find, any,
  any-append, text_eq, subst, Option-cases, inl, inr, arith,
}
use mathlib.Core.Option.{some-injective}
use hook_tracker.Retry.{Level, LevelName}
use hook_tracker.World.{Place, delivery_queue, retry_queue, throttle_queue, dead_letter_queue}
use hook_tracker.Publisher.{level_eq}
use hook_tracker.Topology.{
  Name, DelayQueue, Topology, retry_queue_of, create_topology, binding, delay_declarations,
  assert_topology, posted_to,
}
use hook_tracker.Topology.Names.{
  binds, routes, queue_at, text_eq-append, is_bound, any-delays, text_eq_refl, or_false,
  or_false_or, other_exchange, throttle_key, level_any, find-key,
}

module _ (namespace : Name) (s : List Level) (ttl : ℕ) where
  abbrev pub topology : Topology
  topology = create_topology namespace s ttl

  routes-bindings :
      (x : Name × Name) (q : Name)
      → routes (assert_topology topology) x q ≡ (
          binds x q (
            binding
              (queue_at namespace delivery_queue)
              (namespace ++ codes ".exchange")
              (codes "delivery"))
          || ((any (is_bound (namespace ++ codes ".retry") x q) (map (retry_queue_of namespace) s)
                || (is_bound (namespace ++ codes ".retry") x q topology.throttle_queue_entry
                    || false))
              || (binds x q (
                    binding
                      (queue_at namespace dead_letter_queue)
                      (namespace ++ codes ".dlx")
                      (codes "dlq"))
                  || false)))
  unfolding assert_topology create_topology
  routes-bindings x q =
      rw
        (
          any-append (binds x q) (
              delay_declarations topology
                (topology.retry_queues ++ topology.throttle_queue_entry ∷ [])),
          any-delays topology x q (topology.retry_queues ++ topology.throttle_queue_entry ∷ []),
          any-append (is_bound topology.exchanges.retry x q) topology.retry_queues,
        )
        refl

  routes_retry :
      (level : LevelName) (target : DelayQueue) (q : Name)
      → find (λ entry. level_eq entry.level level) (map (retry_queue_of namespace) s) ≡ some target
      → any
          (is_bound
            (namespace ++ codes ".retry")
            (namespace ++ codes ".retry", target.routing_key)
            q)
          (map (retry_queue_of namespace) s)
        ≡ text_eq (queue_at namespace (retry_queue level)) q
  routes_retry level target q h =
      rw
        (
          find-key namespace q level s target h,
          level_any namespace q (namespace ++ codes ".retry") level s,
          h,
        )
        refl

  routes_delivery :
      (q : Name)
      → routes (assert_topology topology) (namespace ++ codes ".exchange", codes "delivery") q
        ≡ text_eq (queue_at namespace delivery_queue) q
  routes_delivery q =
      rw
        (
          routes-bindings (namespace ++ codes ".exchange", codes "delivery") q,
          other_exchange namespace q (namespace ++ codes ".retry") (namespace ++ codes ".exchange")
              (codes "delivery") (map (retry_queue_of namespace) s)
              (text_eq-append namespace (codes ".retry") (codes ".exchange")),
          text_eq_refl (namespace ++ codes ".exchange"),
          text_eq-append namespace (codes ".retry") (codes ".exchange"),
          text_eq-append namespace (codes ".dlx") (codes ".exchange"),
        )
        (or_false (text_eq (queue_at namespace delivery_queue) q))

  routes_delayed :
      (key q : Name)
      → routes (assert_topology topology) (namespace ++ codes ".retry", key) q ≡ (
          any
            (is_bound (namespace ++ codes ".retry") (namespace ++ codes ".retry", key) q)
            (map (retry_queue_of namespace) s)
          || (text_eq (codes "throttle.10s") key && text_eq (queue_at namespace throttle_queue) q))
  unfolding create_topology
  routes_delayed key q =
      rw
        (
          routes-bindings (namespace ++ codes ".retry", key) q,
          text_eq_refl (namespace ++ codes ".retry"),
          text_eq-append namespace (codes ".exchange") (codes ".retry"),
          text_eq-append namespace (codes ".dlx") (codes ".retry"),
        )
        (or_false_or _ _)

  routes_dead :
      (q : Name)
      → routes (assert_topology topology) (namespace ++ codes ".dlx", codes "dlq") q
        ≡ text_eq (queue_at namespace dead_letter_queue) q
  routes_dead q =
      rw
        (
          routes-bindings (namespace ++ codes ".dlx", codes "dlq") q,
          other_exchange namespace q (namespace ++ codes ".retry") (namespace ++ codes ".dlx")
              (codes "dlq") (map (retry_queue_of namespace) s)
              (text_eq-append namespace (codes ".retry") (codes ".dlx")),
          text_eq_refl (namespace ++ codes ".dlx"),
          text_eq-append namespace (codes ".retry") (codes ".dlx"),
          text_eq-append namespace (codes ".exchange") (codes ".dlx"),
        )
        (or_false (text_eq (queue_at namespace dead_letter_queue) q))

  routes_posted :
      (level : LevelName) (target : DelayQueue) (q : Name)
      → find (λ entry. level_eq entry.level level) (map (retry_queue_of namespace) s) ≡ some target
      → routes (assert_topology topology) (namespace ++ codes ".retry", target.routing_key) q
        ≡ text_eq (queue_at namespace (retry_queue level)) q
  routes_posted level target q h =
      rw
        (
          routes_delayed target.routing_key q,
          routes_retry level target q h,
          find-key namespace q level s target h,
        )
        (or_false (text_eq (queue_at namespace (retry_queue level)) q))

  pub assert_topology-routes :
      (p : Place) (x : Name × Name) (q : Name)
      → posted_to topology p ≡ some x
      → routes (assert_topology topology) x q ≡ text_eq (queue_at namespace p) q
  unfolding posted_to create_topology
  assert_topology-routes delivery_queue x q h =
      subst
        (λ y. routes (assert_topology topology) y q ≡ text_eq (queue_at namespace delivery_queue) q)
        (some-injective _ _ h) (routes_delivery q)
  assert_topology-routes (retry_queue level) x q h =
      elim (Option-cases (find (λ entry. level_eq entry.level level) topology.retry_queues)) [
        | inl e ↦ ground arith
        | inr (target, e) ↦
            subst
              (λ y.
                routes (assert_topology topology) y q
                ≡ text_eq (queue_at namespace (retry_queue level)) q)
              (some-injective _ _ (ground arith)) (routes_posted level target q e)
      ]
  assert_topology-routes throttle_queue x q h =
      subst
        (λ y. routes (assert_topology topology) y q ≡ text_eq (queue_at namespace throttle_queue) q)
        (some-injective _ _ h)
        (routes_delayed _ q
          ∙ ap (λ b. b || text_eq (queue_at namespace throttle_queue) q)
              (throttle_key namespace q (namespace ++ codes ".retry") s))
  assert_topology-routes dead_letter_queue x q h =
      subst
        (λ y.
          routes (assert_topology topology) y q ≡ text_eq (queue_at namespace dead_letter_queue) q)
        (some-injective _ _ h) (routes_dead q)
