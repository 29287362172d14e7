-- ===== src/Worker/Ends.antt =====
-- The two ways in which an attempt goes on or ends, when no call fails
-- (backend/src/worker/handle-delivery.js).
use hook_tracker.Prelude.{ℕ, suc, ◌≡◌, refl, [], Option, some, true, find}
use hook_tracker.Retry.{Level, retry_schedule, select_retry_level}
use hook_tracker.Retry.Ladder.{select_retry_level-All}
use hook_tracker.Status.{FailureReason}
use hook_tracker.Store.{find_row, Delivery, Event}
use hook_tracker.World.{World, Reply, returned, thrown, M, ◌>>=◌, ◌>>◌, pure, has_endpoint}
use hook_tracker.Publisher.{level_eq}
use hook_tracker.Exchange.{Env, Headers, Resolved, Outcome, retrying_on}
use hook_tracker.Worker.Decision.{Concludes, result_of, requested_of, next_level}
use hook_tracker.Worker.{finalise_retry, finalise_failure}
use hook_tracker.Worker.Settled.{
  Ended, Returns, Settled, IsFailed, finalise_retry-Returns, finalise_failure-Returns,
}

Ended-then :
    {A B : Type 0} (r : Reply A) (f : A → M B) (P : A → World → Type 0) (Q : B → World → Type 0)
    → Ended r P
    → ((a : A) (w : World) → P a w → Returns (f a) w Q)
    → Ended (elim r [ returned a w ↦ f a w | thrown e w ↦ thrown e w ]) Q
Ended-then (returned a w) f P Q h k = (k a w h).holds
Ended-then (thrown e w) f P Q h k = elim h [ ]

pub Returns-then :
    {A B : Type 0} {m : M A} {f : A → M B} {w : World} {P : A → World → Type 0}
    {Q : B → World → Type 0}
    → Returns m w P
    → ((a : A) (w' : World) → P a w' → Returns (f a) w' Q)
    → Returns (m >>= f) w Q
Returns-then {m} {f} {w} {P} {Q} h k = record { holds = Ended-then (m w) f P Q h.holds k }

abbrev IsListed : Level → Type 0
IsListed level = find (λ entry. level_eq entry.level level.level) retry_schedule ≡ some level

select_retry_level-IsListed :
    (e : Env) (n : ℕ) (requested : Option ℕ) (level : Level)
    → e.schedule ≡ retry_schedule
    → select_retry_level n e.config.max_attempts e.schedule requested ≡ some level
    → IsListed level
select_retry_level-IsListed e n requested level s h =
    select_retry_level-All IsListed n e.config.max_attempts e.schedule requested level
      (rw s (refl, (refl, (refl, (refl, (refl, tt)))))) h

-- An attempt came to this outcome, for the reasons and with the effects that it says.
abbrev pub Attempted :
    (e : Env)
    → Event
    → Headers
    → ℕ
    → ℕ
    → Delivery
    → Resolved e.Target
    → World
    → Outcome
    → World
    → Type 0
Attempted e ev h id n d t w o w' =
    Concludes e ev h n t o × Settled e id n d (result_of e ev h t) (next_level e ev h n t) w o w'

module _ (e : Env) (id m : ℕ) (row d : Delivery) (ev : Event) (h : Headers) (w : World)
    (nf : w.faults ≡ []) (found : find_row id w.deliveries ≡ some row)
    (owner : has_endpoint d.endpoint_id w ≡ true) (default_schedule : e.schedule ≡ retry_schedule)
    (t : Resolved e.Target) where
  pub retrying-Attempted :
      (level : Level)
      → next_level e ev h (suc m) t ≡ some level
      → Concludes e ev h (suc m) t (retrying_on level.level)
      → Returns
          (finalise_retry e id d ev (suc m) (result_of e ev h t) level
            >> pure (retrying_on level.level))
          w
          (Attempted e ev h id (suc m) row t w)
  retrying-Attempted level next why =
      Returns-then
        (finalise_retry-Returns e id (suc m) row d ev (result_of e ev h t) w nf found owner level (
          rw default_schedule (
            select_retry_level-IsListed e (suc m) (requested_of e ev h t) level default_schedule
              next)))
        (λ _ w' p. record { holds = (why, (level, next, refl, p.0, p.1, p.2)) })

  pub failing-Attempted :
      (reason : FailureReason) (final : Outcome)
      → Concludes e ev h (suc m) t final
      → ((w' : World)
          → IsFailed e id (suc m) row (result_of e ev h t) w w'
          → Settled e id (suc m) row (result_of e ev h t) (next_level e ev h (suc m) t) w final w')
      → Returns
          (finalise_failure e id d ev (suc m) (result_of e ev h t) reason >> pure final)
          w
          (Attempted e ev h id (suc m) row t w)
  failing-Attempted reason final why ends =
      Returns-then
        (finalise_failure-Returns e id m row d ev (result_of e ev h t) w nf found owner reason)
        (λ _ w' p. record { holds = (why, ends w' (p.0, p.1, p.2)) })
