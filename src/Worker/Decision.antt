-- ===== src/Worker/Decision.antt =====
-- Which outcome a message has, told without the tests of the code
-- (backend/src/worker/handle-delivery.js, backend/src/shared/retry.js).
use hook_tracker.Prelude.{
  ℕ, suc, zero, List, [], ◌∷◌, length, get_elem?, ltb, leb, ◌<◌, ◌≤◌, ◌≡◌, refl, ◌⊎◌, inl, inr,
  Option, none, some, Bool, true, false, arith, Bool-cases,
}
use hook_tracker.Retry.{
  Level, Failure, retryable, permanent, retry_schedule, classify_failure, should_retry,
  select_retry_level,
}
use hook_tracker.Retry.Ladder.{select_retry_level-Honours}
use hook_tracker.Status.{is_terminal, active, disabled}
use hook_tracker.Store.{Delivery, Endpoint, Event, SendResult}
use hook_tracker.Exchange.{
  Env, Headers, Resolved, pinned, rejected, TargetReason, invalid_url, unsupported_scheme,
  blocked_port, private_address, dns_failure, Outcome, unknown_delivery, already_finalised,
  endpoint_disabled, throttled, handled_ok, retrying_on, ssrf_blocked, failed, retry_after_ms,
  is_success, classify_rejection, rejection_result,
}
use hook_tracker.Worker.{next_retry_level}

-- A 2xx status, and what is worth another attempt: no answer, a 5xx, 408, 425 or 429.
abbrev pub IsSuccessful : Option ℕ → Type 0
IsSuccessful none = ⊥
IsSuccessful (some status) = (200 ≤ status) × (status < 300)

abbrev pub IsTransient : Option ℕ → Type 0
IsTransient none = Unit {0}
IsTransient (some status) = (500 ≤ status) ⊎ ((status ≡ 408) ⊎ ((status ≡ 425) ⊎ (status ≡ 429)))

-- No attempt comes after this one: MAX_ATTEMPTS is reached, or the ladder of five levels is used up.
abbrev pub IsLast : ℕ → ℕ → Type 0
IsLast most n = (most ≤ n) ⊎ (5 < n)

-- An attempt at a resolved target, with the headers and the event.
module _ (e : Env) (ev : Event) (h : Headers) where
  abbrev pub result_of : Resolved e.Target → SendResult
  result_of (rejected r) = rejection_result r
  result_of (pinned target) = e.send target h ev.payload

  abbrev pub HasSucceeded : Resolved e.Target → Type 0
  HasSucceeded (rejected r) = ⊥
  HasSucceeded (pinned target) = IsSuccessful (e.send target h ev.payload).response_status

  abbrev pub MayRetry : Resolved e.Target → Type 0
  MayRetry (rejected r) = r.reason ≡ some dns_failure
  MayRetry (pinned target) = IsTransient (e.send target h ev.payload).response_status

  -- The delay that the receiver asks for, and the level of the ladder that `retry.js` selects.
  abbrev pub requested_of : Resolved e.Target → Option ℕ
  requested_of (rejected r) = none
  requested_of (pinned target) =
      retry_after_ms e.answered_at (e.send target h ev.payload).response_headers

  abbrev pub next_level : ℕ → Resolved e.Target → Option Level
  next_level n t = select_retry_level n e.config.max_attempts e.schedule (requested_of t)

  -- The end of a failed delivery: a target that is refused for what it is, and the other ends.
  abbrev IsRefused : Resolved e.Target → Type 0
  IsRefused (rejected r) = ¬ (r.reason ≡ some dns_failure)
  IsRefused (pinned target) = ⊥

  abbrev IsSpent : ℕ → Resolved e.Target → Type 0
  IsSpent n (rejected r) = (r.reason ≡ some dns_failure) × IsLast e.config.max_attempts n
  IsSpent n (pinned target) =
      (¬ IsTransient (e.send target h ev.payload).response_status) ⊎ IsLast e.config.max_attempts n

  -- The outcomes of an attempt.
  abbrev pub Concludes : ℕ → Resolved e.Target → Outcome → Type 0
  Concludes n t unknown_delivery = ⊥
  Concludes n t already_finalised = ⊥
  Concludes n t endpoint_disabled = ⊥
  Concludes n t throttled = ⊥
  Concludes n t handled_ok = HasSucceeded t
  Concludes n t (retrying_on name) =
      (¬ HasSucceeded t) × MayRetry t × (n < e.config.max_attempts) × (n ≤ 5)
  Concludes n t ssrf_blocked = IsRefused t
  Concludes n t failed = (¬ HasSucceeded t) × IsSpent n t

-- The delivery is open, its endpoint is active, and the bucket grants a token.
abbrev pub IsSent : Delivery → Endpoint → Bool → Type 0
IsSent d ep granted = (is_terminal d.status ≡ false) × (ep.status ≡ active) × (granted ≡ true)

abbrev pub Decided : (e : Env) → Event → Headers → ℕ → Delivery → Endpoint → Bool → Outcome → Type 0
Decided e ev h n d ep granted unknown_delivery = ⊥
Decided e ev h n d ep granted already_finalised = is_terminal d.status ≡ true
Decided e ev h n d ep granted endpoint_disabled =
    (is_terminal d.status ≡ false) × (ep.status ≡ disabled)
Decided e ev h n d ep granted throttled =
    (is_terminal d.status ≡ false) × (ep.status ≡ active) × (granted ≡ false)
Decided e ev h n d ep granted handled_ok =
    IsSent d ep granted × Concludes e ev h n (e.resolve_target ep.url) handled_ok
Decided e ev h n d ep granted (retrying_on name) =
    IsSent d ep granted × Concludes e ev h n (e.resolve_target ep.url) (retrying_on name)
Decided e ev h n d ep granted ssrf_blocked =
    IsSent d ep granted × Concludes e ev h n (e.resolve_target ep.url) ssrf_blocked
Decided e ev h n d ep granted failed =
    IsSent d ep granted × Concludes e ev h n (e.resolve_target ep.url) failed

pub is_success-IsSuccessful : (status : Option ℕ) → is_success status ≡ true → IsSuccessful status
unfolding is_success
is_success-IsSuccessful none h = cc
is_success-IsSuccessful (some status) h = (ground arith, ground arith)

pub is_success-not_IsSuccessful :
    (status : Option ℕ) → is_success status ≡ false → ¬ IsSuccessful status
unfolding is_success
is_success-not_IsSuccessful none h s = s
is_success-not_IsSuccessful (some status) h (low, high) = ground arith

pub classify_failure-IsTransient :
    (status : Option ℕ) → classify_failure status ≡ retryable → IsTransient status
unfolding classify_failure
classify_failure-IsTransient none h = tt
classify_failure-IsTransient (some status) h = ground arith

pub classify_failure-not_IsTransient :
    (status : Option ℕ) → classify_failure status ≡ permanent → ¬ IsTransient status
unfolding classify_failure
classify_failure-not_IsTransient none h s = cc
classify_failure-not_IsTransient (some status) h s = ground arith

pub classify_rejection-dns :
    (reason : Option TargetReason)
    → classify_rejection reason ≡ retryable
    → reason ≡ some dns_failure
unfolding classify_rejection
classify_rejection-dns none h = cc
classify_rejection-dns (some dns_failure) h = refl
classify_rejection-dns (some invalid_url) h = cc
classify_rejection-dns (some unsupported_scheme) h = cc
classify_rejection-dns (some blocked_port) h = cc
classify_rejection-dns (some private_address) h = cc

pub classify_rejection-other :
    (reason : Option TargetReason)
    → classify_rejection reason ≡ permanent
    → ¬ (reason ≡ some dns_failure)
unfolding classify_rejection
classify_rejection-other reason h e = cc (rw e at h)

get_elem?-none : {A : Type 0} (xs : List A) (i : ℕ) → length xs ≤ i → get_elem? xs i ≡ none
get_elem?-none [] i h = refl
get_elem?-none (x ∷ xs) zero h = absurd (omega arith)
get_elem?-none (x ∷ xs) (suc i) h = get_elem?-none xs i (omega arith)

-- A level is chosen only at an attempt of the ladder, and at every one below MAX_ATTEMPTS.
select_retry_level-some :
    (m most : ℕ) (requested : Option ℕ) (level : Level)
    → select_retry_level (suc m) most retry_schedule requested ≡ some level
    → suc m ≤ 5
unfolding select_retry_level
select_retry_level-some m most requested level h = elim (Bool-cases (leb 5 m)) [
  | inl beyond ↦ ground (arith, get_elem?-none retry_schedule m (ground arith))
  | inr within ↦ ground arith
]

select_retry_level-total :
    (m most : ℕ) (requested : Option ℕ)
    → suc m < most
    → suc m ≤ 5
    → (level : Level) × (select_retry_level (suc m) most retry_schedule requested ≡ some level)
select_retry_level-total m most none below within =
    let (base, chosen, found, other, rest) =
      select_retry_level-Honours (suc m) most 0 retry_schedule (omega arith) below (omega arith)
        within in
    (base, found)
select_retry_level-total m most (some requested) below within =
    let (base, chosen, found, other, rest) =
      select_retry_level-Honours (suc m) most requested retry_schedule (omega arith) below
        (omega arith) within in
    (chosen, other)

-- What a chosen level says, and what its absence says.
pub next_retry_level-some :
    (e : Env) (c : Failure) (m : ℕ) (requested : Option ℕ) (level : Level)
    → e.schedule ≡ retry_schedule
    → next_retry_level e c (suc m) requested ≡ some level
    → (c ≡ retryable)
      × (suc m < e.config.max_attempts)
      × (suc m ≤ 5)
      × (select_retry_level (suc m) e.config.max_attempts e.schedule requested ≡ some level)
unfolding next_retry_level should_retry
next_retry_level-some e permanent m requested level s h = cc
next_retry_level-some e retryable m requested level s h =
    elim (Bool-cases (ltb (suc m) e.config.max_attempts)) [
      | inl below ↦
          let found : select_retry_level (suc m) e.config.max_attempts e.schedule requested
              ≡ some level =
            rw below at h in
          (
            refl,
            ground arith,
            select_retry_level-some m e.config.max_attempts requested level (rw s at found),
            found,
          )
      | inr over ↦ cc (rw over at h)
    ]

pub next_retry_level-none :
    (e : Env) (c : Failure) (m : ℕ) (requested : Option ℕ)
    → e.schedule ≡ retry_schedule
    → next_retry_level e c (suc m) requested ≡ none
    → (c ≡ permanent) ⊎ IsLast e.config.max_attempts (suc m)
unfolding next_retry_level should_retry
next_retry_level-none e permanent m requested s h = inl refl
next_retry_level-none e retryable m requested s h =
    elim (Bool-cases (ltb (suc m) e.config.max_attempts)) [
      | inr over ↦ inr (inl (ground arith))
      | inl below ↦ elim (Bool-cases (ltb 5 (suc m))) [
        | inl beyond ↦ inr (inr (ground arith))
        | inr within ↦
            let (level, found) =
              select_retry_level-total m e.config.max_attempts requested (ground arith)
                (ground arith) in
            let nothing : select_retry_level (suc m) e.config.max_attempts retry_schedule requested
                ≡ none =
              rw (below, s) at h in
            cc
      ]
    ]
