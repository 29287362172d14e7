-- ===== src/Worker/Audit.antt =====
-- `handleDelivery` leaves a trail and nothing else, whichever of its calls fail
-- (backend/src/worker/handle-delivery.js).
use hook_tracker.Prelude.{
  ℕ, suc, ◌<◌, ◌≡◌, refl, inl, inr, Option, none, some, Bool, true, false, if◌then◌else◌, arith,
  Bool-cases,
}
use hook_tracker.Retry.{Level, Failure, should_retry}
use hook_tracker.Status.{FailureReason, failure_reason, is_terminal, is_active}
use hook_tracker.Store.{find_row, Delivery, Endpoint, Event, SendResult}
use hook_tracker.World.{
  World, world, M, returned, ◌>>◌, with_endpoint, with_attempt, call, bad_secret, delivery_failed,
}
use hook_tracker.World.Runs.{
  Runs, IsQuiet, Runs->>=, Runs-pure, Runs-throw, Runs-call, Runs-write, Runs-emit,
}
use hook_tracker.Publisher.Runs.{
  Runs-publish_retry, Runs-publish_throttle, Runs-publish_dead_letter,
}
use hook_tracker.TokenBucket.{take}
use hook_tracker.Exchange.{
  Env, Resolved, pinned, rejected, Headers, Outcome, attempt_row, handled_ok, failed, throttled,
  endpoint_disabled, unknown_delivery, already_finalised, is_success, rejection_result,
}
use hook_tracker.Worker.{
  load, load_row, join, next_retry_level, finalise_success, finalise_retry, finalise_failure,
  disable_endpoint, announce_disabled, failures_of, conclude, on_result, send_signed, on_target,
  on_allowed, skip, on_loaded, handle_delivery,
}
use hook_tracker.Worker.Trail.{
  Extends, Trail, Trail-IsQuiet, Extends-attempt, Extends-message, Extends-delivery,
  Extends-endpoint, Extends-same,
}

module _ (e : Env) (id n : ℕ) where
  abbrev T : World → World → Type 0
  T = Trail e.config.max_attempts id n

  q : IsQuiet T
  q = Trail-IsQuiet e.config.max_attempts id n

  trail_step : {u v w : World} → T u v → T v w → T u w
  trail_step = q.preorder.after

  Runs-then : {B : Type 0} (m : M (Unit {0})) (k : M B) → Runs T m → Runs T k → Runs T (m >> k)
  Runs-then m k h g = Runs->>= q.preorder m (λ _. k) h (λ _. g)

  row_step : (w : World) (r : SendResult) → T w (with_attempt (attempt_row id n r) w)
  row_step w r = Extends-attempt _ id n w (attempt_row id n r) (refl, refl)

  finalise_success-Runs :
      (d : Delivery) (ev : Event) (r : SendResult) → Runs T (finalise_success e id d ev n r)
  unfolding finalise_success
  finalise_success-Runs d ev r =
      Runs-then _ _
        (Runs-write q _ _ λ w.
          trail_step (row_step w r)
            (trail_step (Extends-delivery _ id n _ _) (Extends-endpoint _ id n _ _ _)))
        (Runs-emit q _ _)

  finalise_retry-Runs :
      (d : Delivery) (ev : Event) (r : SendResult) (level : Level)
      → n < e.config.max_attempts
      → Runs T (finalise_retry e id d ev n r level)
  unfolding finalise_retry
  finalise_retry-Runs d ev r level below =
      Runs-then _ _ (Runs-write q _ _ λ w. trail_step (row_step w r) (Extends-delivery _ id n _ _))
        (Runs-then _ _
          (Runs-publish_retry q e.schedule e.random id (suc n) level.level
            λ m own next w. Extends-message _ id n w m (own, inr (next, below)))
          (Runs-emit q _ _))

  announce_disabled-Runs :
      (b : Bool) (project_id k failures : ℕ) → Runs T (announce_disabled e b project_id k failures)
  unfolding announce_disabled
  announce_disabled-Runs false project_id k failures = Runs-pure q.preorder tt
  announce_disabled-Runs true project_id k failures =
      Runs-then _ _ (Runs-emit q _ _)
        (record { run = λ w. Extends-same _ id n w _ refl refl refl refl (λ k. refl) })

  disabled_step :
      (b : Bool) (k : ℕ) (f : Endpoint → Endpoint) (w : World)
      → T w (if b then with_endpoint k f w else w)
  disabled_step true k f w = Extends-endpoint _ id n w k f
  disabled_step false k f w = q.preorder.same w

  disable_endpoint-Runs : (k : ℕ) → Runs T (disable_endpoint e k)
  unfolding disable_endpoint
  disable_endpoint-Runs k =
      Runs->>= q.preorder call _ (Runs-call q) λ _. record { run = λ w. disabled_step _ k _ w }

  finalise_failure-Runs :
      (d : Delivery) (ev : Event) (r : SendResult) (reason : FailureReason)
      → Runs T (finalise_failure e id d ev n r reason)
  unfolding finalise_failure
  finalise_failure-Runs d ev r reason =
      Runs-then _ _
        (Runs-write q _ _ λ w.
          trail_step (row_step w r)
            (trail_step (Extends-delivery _ id n _ _) (Extends-endpoint _ id n _ _ _)))
        (Runs->>= q.preorder (λ w. returned (failures_of e d.endpoint_id w) w) _
          (record { run = λ w. q.preorder.same w })
          λ failures. Runs->>= q.preorder _ _ (disable_endpoint-Runs d.endpoint_id) λ b.
            Runs-then _ _
              (Runs-publish_dead_letter q e.config.dead_letter_ttl_ms id n
                λ m own same w. Extends-message _ id n w m (own, inl same))
              (Runs-then _ _
                (Runs-emit q ev.project_id (delivery_failed id n reason r e.finished_at))
                (announce_disabled-Runs b ev.project_id d.endpoint_id failures)))

  next_retry_level-lt :
      (c : Failure) (requested : Option ℕ) (level : Level)
      → next_retry_level e c n requested ≡ some level
      → n < e.config.max_attempts
  unfolding next_retry_level should_retry
  next_retry_level-lt c requested level h = ground arith

  conclude-Runs :
      (d : Delivery) (ev : Event) (r : SendResult) (c : Failure) (final : Outcome)
      (requested : Option ℕ) (level : Option Level)
      → next_retry_level e c n requested ≡ level
      → Runs T (conclude e id d ev n r c final level)
  unfolding conclude
  conclude-Runs d ev r c final requested none h =
      Runs-then _ _ (finalise_failure-Runs d ev r (failure_reason c)) (Runs-pure q.preorder final)
  conclude-Runs d ev r c final requested (some level) h =
      Runs-then _ _ (finalise_retry-Runs d ev r level (next_retry_level-lt c requested level h))
        (Runs-pure q.preorder _)

  on_result-Runs : (d : Delivery) (ev : Event) (r : SendResult) → Runs T (on_result e id d ev n r)
  unfolding on_result
  on_result-Runs d ev r = elim (Bool-cases (is_success r.response_status)) [
    | inl ok ↦
        rw ok (Runs-then _ _ (finalise_success-Runs d ev r) (Runs-pure q.preorder handled_ok))
    | inr bad ↦ rw bad (conclude-Runs d ev r _ failed _ _ refl)
  ]

  send_signed-Runs :
      (d : Delivery) (ev : Event) (target : e.Target) (h : Option Headers)
      → Runs T (send_signed e id d ev n target h)
  unfolding send_signed
  send_signed-Runs d ev target none = Runs-throw q.preorder Outcome bad_secret
  send_signed-Runs d ev target (some h) = on_result-Runs d ev (e.send target h ev.payload)

  on_target-Runs :
      (d : Delivery) (ev : Event) (ep : Endpoint) (t : Resolved e.Target)
      → Runs T (on_target e id d ev ep n t)
  unfolding on_target
  on_target-Runs d ev ep (rejected r) = conclude-Runs d ev (rejection_result r) _ _ none _ refl
  on_target-Runs d ev ep (pinned target) = send_signed-Runs d ev target _

  on_allowed-Runs :
      (d : Delivery) (ev : Event) (ep : Endpoint) (allowed : Bool)
      → Runs T (on_allowed e id d ev ep n allowed)
  unfolding on_allowed
  on_allowed-Runs d ev ep false =
      Runs-then _ _
        (Runs-publish_throttle q id n λ m own same w. Extends-message _ id n w m (own, inl same))
        (Runs-pure q.preorder throttled)
  on_allowed-Runs d ev ep true =
      Runs-then _ _ (Runs-write q _ _ λ w. Extends-delivery _ id n w _)
        (on_target-Runs d ev ep (e.resolve_target ep.url))

  take-Runs : (k rate now : ℕ) → Runs T (take k rate now)
  unfolding take
  take-Runs k rate now =
      Runs->>= q.preorder call _ (Runs-call q)
        λ _. record { run = λ w. Extends-same _ id n w _ refl refl refl refl (λ k. refl) }

  skip-Runs : Runs T (skip e id)
  unfolding skip
  skip-Runs =
      Runs-then _ _ (Runs-write q _ _ λ w. Extends-delivery _ id n w _)
        (Runs-pure q.preorder endpoint_disabled)

  on_loaded-Runs :
      (loaded : Option (Delivery × Event × Endpoint)) → Runs T (on_loaded e id n loaded)
  unfolding on_loaded
  on_loaded-Runs none = Runs-pure q.preorder unknown_delivery
  on_loaded-Runs (some (d, ev, ep)) = elim (Bool-cases (is_terminal d.status)) [
    | inl done ↦ rw done (Runs-pure q.preorder already_finalised)
    | inr open_row ↦ rw open_row (elim (Bool-cases (is_active ep.status)) [
      | inl up ↦ rw up (Runs->>= q.preorder _ _ (take-Runs _ _ _) (on_allowed-Runs d ev ep))
      | inr down ↦ rw down skip-Runs
    ])
  ]

  join-Runs :
      (d : Delivery) (ev : Option Event) (ep : Option Endpoint) (w : World)
      → T w (world (join d ev ep w))
  unfolding join
  join-Runs d (some ev) (some ep) w = q.preorder.same w
  join-Runs d (some ev) none w = q.preorder.same w
  join-Runs d none ep w = q.preorder.same w

  load_row-Runs : (row : Option Delivery) (w : World) → T w (world (load_row row w))
  unfolding load_row
  load_row-Runs none w = q.preorder.same w
  load_row-Runs (some d) w = join-Runs d _ _ w

  load-Runs : Runs T (load id)
  unfolding load
  load-Runs =
      Runs->>= q.preorder call _ (Runs-call q)
        λ _. record { run = λ w. load_row-Runs (find_row id w.deliveries) w }

  handle_delivery-Runs : Runs T (handle_delivery e id n)
  unfolding handle_delivery
  handle_delivery-Runs = Runs->>= q.preorder _ _ load-Runs on_loaded-Runs

-- Whichever calls fail and however the handling ends, the attempt rows and the messages that
-- were there stay; what is added belongs to this delivery and carries this attempt's number, or
-- in a message the next number where that is at most MAX_ATTEMPTS; no other delivery and no
-- event changes, and no endpoint appears or goes.
pub handle_delivery-Extends :
    (e : Env) (id attempt : ℕ) (w : World)
    → Extends e.config.max_attempts id attempt w (world (handle_delivery e id attempt w))
handle_delivery-Extends e id attempt w = (handle_delivery-Runs e id attempt).run w
