-- ===== src/Worker/Carried.antt =====
-- A message that a worker handles without an exception leaves its delivery carried
-- (backend/src/worker/handle-delivery.js).
use hook_tracker.Prelude.{
  ℕ, suc, ◌≡◌, refl, Option, none, some, Bool, true, false, if◌then◌else◌, arith, Bool-cases,
  Option-cases, inl, inr, ==_refl,
}
use hook_tracker.Retry.{Level, Failure}
use hook_tracker.Status.{FailureReason, is_terminal, is_active}
use hook_tracker.Store.{find_row, modify, find_row-modify, Delivery, Endpoint, Event, SendResult}
use hook_tracker.World.{
  delivery_failed, World, M, returned, ◌>>◌, pure, with_endpoint, with_attempt,
}
use hook_tracker.World.Posts.{
  Posts, Posts->>=, Posts-pure, Posts-call, Posts-emit, Posts-write, IsStable, Anywhere, IfReturned,
}
use hook_tracker.Publisher.Posts.{
  Posts-publish_retry, Posts-publish_throttle, Posts-publish_dead_letter,
}
use hook_tracker.TokenBucket.{take}
use hook_tracker.Exchange.{
  Env, Resolved, pinned, rejected, Headers, Outcome, endpoint_disabled, is_success,
  rejection_result, attempt_row,
}
use hook_tracker.Worker.{
  load, load_row, join, finalise_success, finalise_retry, finalise_failure, disable_endpoint,
  announce_disabled, failures_of, conclude, on_result, send_signed, on_target, on_allowed, skip,
  on_loaded, handle_delivery,
}
use hook_tracker.Carried.{
  IsCarried, IsFinished, HasMessage, IsFinished-IsCarried, HasMessage-IsCarried,
  HasMessage-with_message, Anywhere-IsStable, IsFinished-IsStable, HasMessage-IsStable, is_finished,
}

-- The write that ends a delivery leaves its row finished.
ends :
    (id : ℕ) (f : Delivery → Delivery) (w : World)
    → ((d : Delivery) → is_terminal (f d).status ≡ true)
    → is_finished (find_row id (modify id f w.deliveries)) ≡ true
ends id f w h = elim (Option-cases (find_row id w.deliveries)) [
  | inl nothing ↦ ground (arith, find_row-modify id id f w.deliveries)
  | inr (d, found) ↦ ground (arith, find_row-modify id id f w.deliveries, h d)
]

module _ (e : Env) (id n : ℕ) where
  finished : IsStable (IsFinished id)
  finished = IsFinished-IsStable id

  finalise_success-Posts :
      (d : Delivery) (ev : Event) (r : SendResult)
      → Posts Anywhere (finalise_success e id d ev n r) (λ _. IsFinished id)
  unfolding finalise_success
  finalise_success-Posts d ev r =
      Posts->>=
        (Posts-write _ _ (IsFinished id)
          λ w ok. ends id _ (with_attempt (attempt_row id n r) w) (λ d. refl))
        (λ _. Posts-emit finished _ _)

  finalise_retry-Posts :
      (d : Delivery) (ev : Event) (r : SendResult) (level : Level)
      → Posts Anywhere (finalise_retry e id d ev n r level) (λ _. HasMessage id)
  unfolding finalise_retry
  finalise_retry-Posts d ev r level = Posts->>= (Posts-write _ _ Anywhere λ w ok. tt) λ _.
      Posts->>=
        (Posts-publish_retry Anywhere-IsStable id e.schedule e.random (suc n) level.level
          λ name m own place w p.
            HasMessage-with_message id m w (rw (own, place) (ground (arith, ==_refl id))))
        (λ _. Posts-emit (HasMessage-IsStable id) _ _)

  announce_disabled-Posts :
      (b : Bool) (project_id k failures : ℕ)
      → Posts (IsFinished id) (announce_disabled e b project_id k failures) (λ _. IsFinished id)
  unfolding announce_disabled
  announce_disabled-Posts false project_id k failures = Posts-pure (λ w p. p)
  announce_disabled-Posts true project_id k failures =
      Posts->>= (Posts-emit finished _ _) (λ _. record { post = λ w p. p })

  kept :
      (b : Bool) (k : ℕ) (f : Endpoint → Endpoint) (w : World)
      → IsFinished id w
      → IsFinished id (if b then with_endpoint k f w else w)
  kept true k f w p = p
  kept false k f w p = p

  disable_endpoint-Posts :
      (k : ℕ) → Posts (IsFinished id) (disable_endpoint e k) (λ _. IsFinished id)
  unfolding disable_endpoint
  disable_endpoint-Posts k =
      Posts->>= (Posts-call finished) (λ _. record { post = λ w p. kept _ k _ w p })

  finalise_failure-Posts :
      (d : Delivery) (ev : Event) (r : SendResult) (reason : FailureReason)
      → Posts Anywhere (finalise_failure e id d ev n r reason) (λ _. IsFinished id)
  unfolding finalise_failure
  finalise_failure-Posts d ev r reason =
      Posts->>=
        (Posts-write _ _ (IsFinished id)
          λ w ok. ends id _ (with_attempt (attempt_row id n r) w) (λ d. refl))
        λ _.
          Posts->>= {R = λ _. IsFinished id} {m = λ w. returned (failures_of e d.endpoint_id w) w}
            (record { post = λ w p. p })
            λ failures. Posts->>= (disable_endpoint-Posts d.endpoint_id) λ b.
              Posts->>=
                (Posts-publish_dead_letter finished id e.config.dead_letter_ttl_ms n
                  (λ m own place w p. p))
                λ _.
                  Posts->>=
                    (Posts-emit finished ev.project_id
                      (delivery_failed id n reason r e.finished_at))
                    (λ _. announce_disabled-Posts b ev.project_id d.endpoint_id failures)

  IsCarried-by_row :
      {A : Type 0} {P : World → Type 0} {m : M (Unit {0})} (a : A)
      → Posts P m (λ _. IsFinished id)
      → Posts P (m >> pure a) (λ _. IsCarried id)
  IsCarried-by_row a h = Posts->>= h (λ _. Posts-pure (λ w p. IsFinished-IsCarried id w p))

  IsCarried-by_message :
      {A : Type 0} {P : World → Type 0} {m : M (Unit {0})} (a : A)
      → Posts P m (λ _. HasMessage id)
      → Posts P (m >> pure a) (λ _. IsCarried id)
  IsCarried-by_message a h = Posts->>= h (λ _. Posts-pure (λ w p. HasMessage-IsCarried id w p))

  conclude-Posts :
      (d : Delivery) (ev : Event) (r : SendResult) (c : Failure) (final : Outcome)
      (level : Option Level)
      → Posts Anywhere (conclude e id d ev n r c final level) (λ _. IsCarried id)
  unfolding conclude
  conclude-Posts d ev r c final none = IsCarried-by_row final (finalise_failure-Posts d ev r _)
  conclude-Posts d ev r c final (some level) =
      IsCarried-by_message _ (finalise_retry-Posts d ev r level)

  on_result-Posts :
      (d : Delivery) (ev : Event) (r : SendResult)
      → Posts Anywhere (on_result e id d ev n r) (λ _. IsCarried id)
  unfolding on_result
  on_result-Posts d ev r = elim (Bool-cases (is_success r.response_status)) [
    | inl ok ↦ rw ok (IsCarried-by_row _ (finalise_success-Posts d ev r))
    | inr bad ↦ rw bad (conclude-Posts d ev r _ _ _)
  ]

  on_target-Posts :
      (d : Delivery) (ev : Event) (ep : Endpoint) (t : Resolved e.Target)
      → Posts Anywhere (on_target e id d ev ep n t) (λ _. IsCarried id)
  unfolding on_target
  on_target-Posts d ev ep (rejected r) = conclude-Posts d ev (rejection_result r) _ _ _
  on_target-Posts d ev ep (pinned target) = signed (e.build_headers id d ev ep n e.started_at)
    where
      signed :
          (h : Option Headers)
          → Posts Anywhere (send_signed e id d ev n target h) (λ _. IsCarried id)
      signed none = record { post = λ w p. tt }
      signed (some h) = on_result-Posts d ev (e.send target h ev.payload)

  on_allowed-Posts :
      (d : Delivery) (ev : Event) (ep : Endpoint) (allowed : Bool)
      → Posts Anywhere (on_allowed e id d ev ep n allowed) (λ _. IsCarried id)
  unfolding on_allowed
  on_allowed-Posts d ev ep false = IsCarried-by_message _ (
      Posts-publish_throttle Anywhere-IsStable id n λ m own place w p.
        HasMessage-with_message id m w (rw (own, place) (ground (arith, ==_refl id))))
  on_allowed-Posts d ev ep true =
      Posts->>= (Posts-write _ _ Anywhere λ w ok. tt) (λ _. on_target-Posts d ev ep _)

  taken : (k rate now : ℕ) → Posts Anywhere (take k rate now) (λ _. Anywhere)
  unfolding take
  taken k rate now = Posts->>= (Posts-call Anywhere-IsStable) (λ _. record { post = λ w p. tt })

  skip-Posts : Posts Anywhere (skip e id) (λ _. IsCarried id)
  unfolding skip
  skip-Posts =
      IsCarried-by_row endpoint_disabled
        (Posts-write _ _ (IsFinished id) λ w ok. ends id _ w (λ d. refl))

  -- What `load` says of the row.
  abbrev Loaded : Option (Delivery × Event × Endpoint) → World → Type 0
  Loaded none w = find_row id w.deliveries ≡ none
  Loaded (some (d, ev, ep)) w = find_row id w.deliveries ≡ some d

  join-Loaded :
      (d : Delivery) (ev : Option Event) (ep : Option Endpoint) (w : World)
      → find_row id w.deliveries ≡ some d
      → IfReturned (join d ev ep w) Loaded
  unfolding join
  join-Loaded d (some ev) (some ep) w h = h
  join-Loaded d (some ev) none w h = tt
  join-Loaded d none ep w h = tt

  load_row-Loaded :
      (row : Option Delivery) (w : World)
      → find_row id w.deliveries ≡ row
      → IfReturned (load_row row w) Loaded
  unfolding load_row
  load_row-Loaded none w h = h
  load_row-Loaded (some d) w h = join-Loaded d _ _ w h

  load-Posts : Posts Anywhere (load id) Loaded
  unfolding load
  load-Posts =
      Posts->>= (Posts-call Anywhere-IsStable)
        (λ _. record { post = λ w p. load_row-Loaded _ w refl })

  on_loaded-Posts :
      (l : Option (Delivery × Event × Endpoint))
      → Posts (Loaded l) (on_loaded e id n l) (λ _. IsCarried id)
  unfolding on_loaded
  on_loaded-Posts none = Posts-pure (λ w h. IsFinished-IsCarried id w (ground arith))
  on_loaded-Posts (some (d, ev, ep)) = elim (Bool-cases (is_terminal d.status)) [
    | inl done ↦ rw done (Posts-pure (λ w h. IsFinished-IsCarried id w (ground arith)))
    | inr open_row ↦ rw open_row (
        forget (elim (Bool-cases (is_active ep.status)) [
          | inl up ↦ rw up (Posts->>= (taken _ _ _) (on_allowed-Posts d ev ep))
          | inr down ↦ rw down skip-Posts
        ]))
  ]
    where
      forget :
          {m : M Outcome}
          → Posts Anywhere m (λ _. IsCarried id)
          → Posts (Loaded (some (d, ev, ep))) m (λ _. IsCarried id)
      forget h = record { post = λ w p. h.post w tt }

-- Whichever calls fail: if `handleDelivery` returns, its delivery has finished, is IN_FLIGHT, or
-- has a message that is on its way to a worker.
pub handle_delivery-Posts :
    (e : Env) (id n : ℕ) → Posts Anywhere (handle_delivery e id n) (λ _. IsCarried id)
unfolding handle_delivery
handle_delivery-Posts e id n = Posts->>= (load-Posts e id n) (on_loaded-Posts e id n)
