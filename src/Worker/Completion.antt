-- ===== src/Worker/Completion.antt =====
-- `handleDelivery` from the message to the settled row, when no call fails
-- (backend/src/worker/handle-delivery.js).
use hook_tracker.Prelude.{
  ℕ, suc, ◌≡◌, refl, ◌∙◌, [], Option, none, some, Bool, true, false, Bool-cases, inl, inr, ◌⊎◌,
}
use hook_tracker.Retry.{Level, Failure, retry_schedule, classify_failure, retryable, permanent}
use hook_tracker.Status.{in_flight, failure_reason}
use hook_tracker.Store.{find_row, Delivery, Endpoint, Event, SendResult}
use hook_tracker.World.{World, ◌>>◌, pure, has_endpoint}
use hook_tracker.Exchange.{
  Env, Headers, retry_after_ms, classify_rejection, Rejection, Resolved, pinned, rejected, Outcome,
  unknown_delivery, already_finalised, endpoint_disabled, throttled, handled_ok, retrying_on,
  ssrf_blocked, failed, is_success, rejection_result,
}
use hook_tracker.Worker.Decision.{
  Decided, IsSent, IsTransient, result_of, requested_of, next_level, IsLast, next_retry_level-some,
  next_retry_level-none, is_success-IsSuccessful, is_success-not_IsSuccessful,
  classify_failure-IsTransient, classify_failure-not_IsTransient, classify_rejection-dns,
  classify_rejection-other,
}
use hook_tracker.Worker.{
  finalise_failure, next_retry_level, conclude, rejection_outcome, on_result, on_target,
}
use hook_tracker.Worker.Settled.{Returns, Settled, finalise_success-Returns}
use hook_tracker.Worker.Ends.{Returns-then, Attempted, retrying-Attempted, failing-Attempted}

module _ (e : Env) (id m : ℕ) (row d : Delivery) (ev : Event) (h : Headers) (w : World)
    (nf : w.faults ≡ []) (found : find_row id w.deliveries ≡ some row)
    (owner : has_endpoint d.endpoint_id w ≡ true)
    (default_schedule : e.schedule ≡ retry_schedule) where
  rejected_ends :
      (r : Rejection) (c : Failure)
      → classify_rejection r.reason ≡ c
      → (c ≡ permanent) ⊎ IsLast e.config.max_attempts (suc m)
      → Returns
          (finalise_failure e id d ev (suc m) (rejection_result r) (failure_reason c)
            >> pure (rejection_outcome e c))
          w
          (Attempted e ev h id (suc m) row (rejected r) w)
  unfolding rejection_outcome
  rejected_ends r permanent class end =
      failing-Attempted e id m row d ev h w nf found owner default_schedule (rejected r)
        (failure_reason permanent) ssrf_blocked (classify_rejection-other r.reason class)
        (λ w' p. p)
  rejected_ends r retryable class (inl never) = cc
  rejected_ends r retryable class (inr last) =
      failing-Attempted e id m row d ev h w nf found owner default_schedule (rejected r)
        (failure_reason retryable) failed
        ((λ never. never), (classify_rejection-dns r.reason class, last)) (λ w' p. p)

  rejected-Attempted :
      (r : Rejection) (level : Option Level)
      → next_retry_level e (classify_rejection r.reason) (suc m) none ≡ level
      → Returns
          (conclude e id d ev
            (suc m)
            (rejection_result r)
            (classify_rejection r.reason)
            (rejection_outcome e (classify_rejection r.reason))
            level)
          w
          (Attempted e ev h id (suc m) row (rejected r) w)
  unfolding conclude
  rejected-Attempted r none next =
      rejected_ends r (classify_rejection r.reason) refl
        (next_retry_level-none e (classify_rejection r.reason) m none default_schedule next)
  rejected-Attempted r (some level) next =
      let (again, below, within, chosen) =
        next_retry_level-some e (classify_rejection r.reason) m none level default_schedule next in
      retrying-Attempted e id m row d ev h w nf found owner default_schedule (rejected r) level
        chosen ((λ never. never), classify_rejection-dns r.reason again, below, within)

  spent :
      (status : Option ℕ)
      → (classify_failure status ≡ permanent) ⊎ IsLast e.config.max_attempts (suc m)
      → (¬ IsTransient status) ⊎ IsLast e.config.max_attempts (suc m)
  spent status (inl class) = inl (classify_failure-not_IsTransient status class)
  spent status (inr last) = inr last

  module _ (target : e.Target) where
    abbrev answer : SendResult
    answer = e.send target h ev.payload

    answered-Attempted :
        (level : Option Level)
        → is_success answer.response_status ≡ false
        → next_retry_level e
            (classify_failure answer.response_status)
            (suc m)
            (retry_after_ms e.answered_at answer.response_headers)
          ≡ level
        → Returns
            (conclude e id d ev
              (suc m)
              answer
              (classify_failure answer.response_status)
              failed
              level)
            w
            (Attempted e ev h id (suc m) row (pinned target) w)
    unfolding conclude
    answered-Attempted none bad next =
        failing-Attempted e id m row d ev h w nf found owner default_schedule (pinned target) _
          failed
          (
            is_success-not_IsSuccessful answer.response_status bad,
            spent answer.response_status (
                next_retry_level-none e _ m (requested_of e ev h (pinned target)) default_schedule
                  next),
          )
          (λ w' p. p)
    answered-Attempted (some level) bad next =
        let (again, below, within, chosen) =
          next_retry_level-some e _ m (requested_of e ev h (pinned target)) level default_schedule
            next in
        retrying-Attempted e id m row d ev h w nf found owner default_schedule (pinned target) level
          chosen
          (
            is_success-not_IsSuccessful answer.response_status bad,
            classify_failure-IsTransient answer.response_status again,
            below,
            within,
          )

    on_result-Attempted :
        Returns
          (on_result e id d ev (suc m) answer)
          w
          (Attempted e ev h id (suc m) row (pinned target) w)
    unfolding on_result
    on_result-Attempted = elim (Bool-cases (is_success answer.response_status)) [
      | inl ok ↦ rw ok (
          Returns-then (finalise_success-Returns e id (suc m) row d ev answer w nf found owner)
            (λ _ w' p. record {
              holds = (is_success-IsSuccessful answer.response_status ok, (p.0, p.1, p.2));
            }))
      | inr bad ↦ rw bad (answered-Attempted _ bad refl)
    ]

  pub on_target-Attempted :
      (ep : Endpoint) (t : Resolved e.Target)
      → e.build_headers id d ev ep (suc m) e.started_at ≡ some h
      → Returns (on_target e id d ev ep (suc m) t) w (Attempted e ev h id (suc m) row t w)
  unfolding on_target
  on_target-Attempted ep (rejected r) signed = rejected-Attempted r _ refl
  on_target-Attempted ep (pinned target) signed = rw signed (on_result-Attempted target)

-- The outcome of a message, for the reasons and with the effects that it says: `granted` is the
-- answer of the token bucket.
abbrev pub Handled :
    Env → Event → Headers → ℕ → ℕ → Delivery → Endpoint → Bool → World → Outcome → World → Type 0
Handled e ev h id n d ep granted w o w' =
    Decided e ev h n d ep granted o
    × Settled e id n d (result_of e ev h (e.resolve_target ep.url))
        (next_level e ev h n (e.resolve_target ep.url)) w o w'

-- Marking the row as in flight is not part of what the attempt leaves.
pub Attempted-Handled :
    (e : Env) (ev : Event) (h : Headers) (id n : ℕ) (d : Delivery) (ep : Endpoint) (granted : Bool)
    (o : Outcome) (w v w' : World)
    → v.attempts ≡ w.attempts
    → v.queue ≡ w.queue
    → IsSent d ep granted
    → Attempted e ev h id n (record d { status = in_flight }) (e.resolve_target ep.url) v o w'
    → Handled e ev h id n d ep granted w o w'
Attempted-Handled e ev h id n d ep granted unknown_delivery w v w' a q sent (why, s) = elim why [ ]
Attempted-Handled e ev h id n d ep granted already_finalised w v w' a q sent (why, s) = elim why [ ]
Attempted-Handled e ev h id n d ep granted endpoint_disabled w v w' a q sent (why, s) = elim why [ ]
Attempted-Handled e ev h id n d ep granted throttled w v w' a q sent (why, s) = elim why [ ]
Attempted-Handled e ev h id n d ep granted handled_ok w v w' a q sent (why, (row, one, same)) =
    ((sent, why), (row, rw (← a) one, same ∙ q))
Attempted-Handled e ev h id n d ep granted (retrying_on name) w v w' a q sent
      (why, (level, next, named, row, one, more)) =
    ((sent, why), (level, next, named, row, rw (← a) one, rw (← q) more))
Attempted-Handled e ev h id n d ep granted ssrf_blocked w v w' a q sent (why, (row, one, more)) =
    ((sent, why), (row, rw (← a) one, rw (← q) more))
Attempted-Handled e ev h id n d ep granted failed w v w' a q sent (why, (row, one, more)) =
    ((sent, why), (row, rw (← a) one, rw (← q) more))
