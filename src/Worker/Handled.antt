-- ===== src/Worker/Handled.antt =====
-- The whole of `handleDelivery`, when no call fails (backend/src/worker/handle-delivery.js).
use hook_tracker.Prelude.{
  ℕ, suc, sym, subst, Option, ◌≡◌, refl, [], some, Bool, true, false, arith, Bool-cases, inl, inr,
}
use hook_tracker.Retry.{Level, retry_schedule}
use hook_tracker.Status.{
  in_flight, is_terminal, is_active, EndpointStatus, active, disabled, skipped,
}
use hook_tracker.Store.{
  find_row, find_row-modify, Delivery, Endpoint, Event, SendResult, endpoint_is_disabled,
}
use hook_tracker.World.{World, Reply, returned, thrown, M, ◌>>◌, pure, call, write, has_delivery}
use hook_tracker.Publisher.{publish_throttle}
use hook_tracker.TokenBucket.{take}
use hook_tracker.Exchange.{Env, Headers, throttled, endpoint_disabled}
use hook_tracker.Worker.{load, on_allowed, skip, on_loaded, handle_delivery}
use hook_tracker.Worker.Decision.{result_of, next_level}
use hook_tracker.Worker.Settled.{Ended, Returns, Settled}
use hook_tracker.Worker.Ends.{Returns-then}
use hook_tracker.Worker.Completion.{Handled, Attempted-Handled, on_target-Attempted}

-- What a state shares with an earlier one, apart from its token buckets.
record Alike (w v : World) : Type 0 where
  deliveries_same : v.deliveries ≡ w.deliveries
  endpoints_same : v.endpoints ≡ w.endpoints
  attempts_same : v.attempts ≡ w.attempts
  queue_same : v.queue ≡ w.queue
  no_faults : v.faults ≡ []

take-Alike :
    (k rate now : ℕ) (w : World) → w.faults ≡ [] → Returns (take k rate now) w (λ _ v. Alike w v)
unfolding take call
take-Alike k rate now w nf = ground arith

write-Returns :
    (needs : World → Bool) (f : World → World) (w : World)
    → w.faults ≡ []
    → needs w ≡ true
    → Returns (write needs f) w (λ _ v. v ≡ f w)
unfolding write call
write-Returns needs f w nf ok = ground arith

Ended-weaken :
    {A : Type 0} (r : Reply A) (P Q : A → World → Type 0)
    → Ended r P
    → ((a : A) (v : World) → P a v → Q a v)
    → Ended r Q
Ended-weaken (returned a v) P Q h k = k a v h
Ended-weaken (thrown e v) P Q h k = h

Returns-weaken :
    {A : Type 0} (m : M A) (w : World) (P Q : A → World → Type 0)
    → Returns m w P
    → ((a : A) (v : World) → P a v → Q a v)
    → Returns m w Q
Returns-weaken m w P Q h k = record { holds = Ended-weaken (m w) P Q h.holds k }

publish_throttle-Settled :
    (e : Env) (id m : ℕ) (d : Delivery) (r : SendResult) (next : Option Level) (w v : World)
    → find_row id w.deliveries ≡ some d
    → Alike w v
    → Returns
        (publish_throttle id (suc m) >> pure throttled)
        v
        (λ o w'. (o ≡ throttled) × Settled e id (suc m) d r next w throttled w')
unfolding publish_throttle call
publish_throttle-Settled e id m d r next w v found s = ground arith

skip-Settled :
    (e : Env) (id n : ℕ) (d : Delivery) (r : SendResult) (next : Option Level) (w : World)
    → w.faults ≡ []
    → find_row id w.deliveries ≡ some d
    → Returns
        (skip e id)
        w
        (λ o w'. (o ≡ endpoint_disabled) × Settled e id n d r next w endpoint_disabled w')
unfolding skip write call
skip-Settled e id n d r next w nf found = ground (
  arith,
  find_row-modify id id
      (λ row. record row {
        status = skipped;
        completed_at = some e.finished_at;
        last_error = some endpoint_is_disabled;
      })
      w.deliveries,
)

is_active-active : (s : EndpointStatus) → is_active s ≡ true → s ≡ active
is_active-active active h = refl
is_active-active disabled h = cc

is_active-disabled : (s : EndpointStatus) → is_active s ≡ false → s ≡ disabled
is_active-disabled active h = cc
is_active-disabled disabled h = refl

-- What the token bucket answers.
abbrev pub granted_by : Reply Bool → Bool
granted_by (returned b w) = b
granted_by (thrown e w) = false

take-granted :
    (k rate now : ℕ) (w : World)
    → w.faults ≡ []
    → Returns (take k rate now) w (λ b v. (b ≡ granted_by (take k rate now w)) × Alike w v)
take-granted k rate now w nf = record {
  holds = both (take k rate now w) ((take-Alike k rate now w nf).holds);
}
  where
    both :
        (r : Reply Bool)
        → Ended r (λ _ v. Alike w v)
        → Ended r (λ b v. (b ≡ granted_by r) × Alike w v)
    both (returned b v) h = (refl, h)
    both (thrown x v) h = h

module _ (e : Env) (id m : ℕ) (d : Delivery) (ev : Event) (ep : Endpoint) (w : World)
    (default_schedule : e.schedule ≡ retry_schedule) (found : find_row id w.deliveries ≡ some d)
    (owner : find_row d.endpoint_id w.endpoints ≡ some ep) (h : Headers)
    (signed : e.build_headers id d ev ep (suc m) e.started_at ≡ some h) where
  on_allowed-Handled :
      (v : World) (allowed : Bool)
      → is_terminal d.status ≡ false
      → ep.status ≡ active
      → Alike w v
      → Returns
          (on_allowed e id d ev ep (suc m) allowed)
          v
          (Handled e ev h id (suc m) d ep allowed w)
  unfolding on_allowed
  on_allowed-Handled v false open_row up s =
      Returns-weaken _ v _ _
        (publish_throttle-Settled e id m d (result_of e ev h (e.resolve_target ep.url))
          (next_level e ev h (suc m) (e.resolve_target ep.url)) w v found s)
        (λ o w' p.
          subst (λ o. Handled e ev h id (suc m) d ep false w o w') (sym p.0)
            ((open_row, up, refl), p.1))
  on_allowed-Handled v true open_row up s =
      Returns-then (write-Returns (has_delivery id) _ v s.no_faults (ground arith)) (λ _ u eq.
        Returns-weaken _ u _ _
          (on_target-Attempted e id m (record d { status = in_flight }) d ev h u (ground arith)
            (ground (
              arith,
              find_row-modify id id (λ row. record row { status = in_flight }) v.deliveries,
            ))
            (ground arith) default_schedule ep (e.resolve_target ep.url) signed)
          (λ o w' at.
            Attempted-Handled e ev h id (suc m) d ep true o w u w' (ground arith) (ground arith)
              (open_row, up, refl) at))

  -- The answer of the endpoint's bucket.
  abbrev granted : Bool
  granted = granted_by (take d.endpoint_id ep.rate_limit_per_minute e.bucket_at w)

  on_loaded-Handled :
      w.faults ≡ []
      → Returns
          (on_loaded e id (suc m) (some (d, ev, ep)))
          w
          (Handled e ev h id (suc m) d ep granted w)
  unfolding on_loaded
  on_loaded-Handled nf = elim (Bool-cases (is_terminal d.status)) [
    | inl done ↦ rw done (record { holds = (done, refl) })
    | inr open_row ↦ rw open_row (elim (Bool-cases (is_active ep.status)) [
      | inl up ↦ rw up (
          Returns-then (take-granted d.endpoint_id ep.rate_limit_per_minute e.bucket_at w nf)
            (λ allowed v p.
              subst
                (λ b.
                  Returns (on_allowed e id d ev ep (suc m) allowed) v
                    (Handled e ev h id (suc m) d ep b w))
                p.0 (on_allowed-Handled v allowed open_row (is_active-active ep.status up) p.1)))
      | inr down ↦ rw down (
          Returns-weaken _ w _ _
            (skip-Settled e id (suc m) d (result_of e ev h (e.resolve_target ep.url))
              (next_level e ev h (suc m) (e.resolve_target ep.url)) w nf found)
            (λ o w' p.
              subst (λ o. Handled e ev h id (suc m) d ep granted w o w') (sym p.0)
                ((open_row, is_active-disabled ep.status down), p.1)))
    ])
  ]

load-Returns :
    (id : ℕ) (w : World) (d : Delivery) (ev : Event) (ep : Endpoint)
    → w.faults ≡ []
    → find_row id w.deliveries ≡ some d
    → find_row d.event_id w.events ≡ some ev
    → find_row d.endpoint_id w.endpoints ≡ some ep
    → Returns (load id) w (λ l v. (l ≡ some (d, ev, ep)) × (v ≡ w))
unfolding load call
load-Returns id w d ev ep nf a b c = ground arith

-- When no call fails, the schedule is the default one and the secrets decrypt, a message for a
-- delivery that exists, with its event and its endpoint, is handled without an exception, and its
-- outcome is the one that the row, the endpoint, the bucket and the receiver call for. Terminal:
-- nothing changes. Open, endpoint disabled: the row is SKIPPED. Open, active, no token: the row
-- stays as it was and the same attempt is parked on the throttle queue. Otherwise exactly one
-- attempt row is added, with what the receiver answered or why its target was refused. A status
-- from 200 to 299: the row is SUCCEEDED, with no message. No answer, 408, 425, 429, a 5xx or a name
-- that does not resolve, below MAX_ATTEMPTS and in the ladder: the row is RETRYING, with the next
-- attempt on the retry queue of the level that `selectRetryLevel` names. Else the row is
-- FAILED_PERMANENTLY with one message on the dead-letter queue, and the outcome is `ssrf_blocked`
-- exactly if the target was refused for another reason than its name.
pub handle_delivery-Settled :
    (e : Env) (id m : ℕ) (d : Delivery) (ev : Event) (ep : Endpoint) (h : Headers) (w : World)
    → e.schedule ≡ retry_schedule
    → w.faults ≡ []
    → find_row id w.deliveries ≡ some d
    → find_row d.event_id w.events ≡ some ev
    → find_row d.endpoint_id w.endpoints ≡ some ep
    → e.build_headers id d ev ep (suc m) e.started_at ≡ some h
    → Returns (handle_delivery e id (suc m)) w (
        Handled e ev h id
          (suc m)
          d
          ep
          (granted_by (take d.endpoint_id ep.rate_limit_per_minute e.bucket_at w))
          w)
unfolding handle_delivery
handle_delivery-Settled e id m d ev ep h w sched nf found event owner signed =
    Returns-then (load-Returns id w d ev ep nf found event owner) (λ loaded v p.
      rw (p.0, p.1) (on_loaded-Handled e id m d ev ep w sched found owner h signed nf))
