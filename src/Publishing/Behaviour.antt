-- ===== src/Publishing/Behaviour.antt =====
-- The whole of `publishEvent`, and what its messages carry
-- (backend/src/api/services/publish-service.js).
use hook_tracker.Prelude.{
  ℕ, ◌≡◌, refl, Bool, true, ◌&&◌, List, [], ◌∷◌, Option, none, some, map, keep, any, any-append,
  length, ◌==◌, if◌then◌else◌, codes, arith,
}
use hook_tracker.Status.{is_active, pending, skipped}
use hook_tracker.Store.{find_row, find_row-append, Delivery, Endpoint}
use hook_tracker.World.{World, world, Reply, returned, thrown, unprocessable, call, query, call}
use hook_tracker.EventTypes.{subscription_matches}
use hook_tracker.Worker.Settled.{Ended}
use hook_tracker.Carried.{IsCarried, has_message, carries, is_carried}
use hook_tracker.Publishing.{
  Request, Rows, queued, fan_out, publish_event, chosen_endpoints, explicit_endpoints,
  subscribed_endpoints, unique, contains,
}
use hook_tracker.Publishing.Fanout.{Accepted, fan_out-Accepted, first_message, target, expected}

abbrev is_subscriber : Request → ℕ × Endpoint → Bool
is_subscriber r row =
    row.1.project_id == r.project_id
    && subscription_matches (map codes row.1.event_types) (codes r.event_type)

abbrev is_named : Request → List ℕ → ℕ × Endpoint → Bool
is_named r ids row = row.1.project_id == r.project_id && contains row.0 ids

-- The endpoints that a publish is for: the project's subscribers, or the project's endpoints
-- that are named, if all that are named are the project's.
unfoldable pub targets_of : Request → List ℕ → World → Option Rows
targets_of r [] w = some (keep (is_subscriber r) w.endpoints)
targets_of r (id ∷ ids) w =
    let named = keep (is_named r (unique (id ∷ ids))) w.endpoints in
    if length named == length (unique (id ∷ ids)) then some named else none

keep-keep :
    {A : Type 0} (p q : A → Bool) (xs : List A) → keep q (keep p xs) ≡ keep (λ x. p x && q x) xs
keep-keep p q [] = refl
keep-keep p q (x ∷ xs) = ground (arith, keep-keep p q xs)

called : (w : World) → w.faults ≡ [] → call w ≡ returned tt w
unfolding call
called w nf = ground arith

abbrev pub reply_of : World → Option Rows → Reply Rows
reply_of w none = thrown unprocessable w
reply_of w (some rows) = returned rows w

pub chosen_endpoints-reply_of :
    (r : Request) (ids : List ℕ) (w v : World)
    → call w ≡ returned tt v
    → v.endpoints ≡ w.endpoints
    → chosen_endpoints r ids w ≡ reply_of v (targets_of r ids w)
unfolding chosen_endpoints targets_of subscribed_endpoints explicit_endpoints query
chosen_endpoints-reply_of r [] w v c same = ground (
  arith,
  keep-keep (λ row. row.1.project_id == r.project_id)
      (λ row. subscription_matches (map codes row.1.event_types) (codes r.event_type)) w.endpoints,
)
chosen_endpoints-reply_of r (id ∷ ids) w v c same = ground arith

abbrev pub Published :
    Request → ℕ → (ℕ → ℕ) → ℕ → World → Option Rows → Reply (List (ℕ × Delivery)) → Type 0
Published r event_id ids now w none reply = reply ≡ thrown unprocessable w
Published r event_id ids now w (some []) reply = reply ≡ thrown unprocessable w
Published r event_id ids now w (some (ep ∷ eps)) reply =
    Ended reply (Accepted r (ep ∷ eps) event_id ids now w)

published :
    (r : Request) (event_id : ℕ) (ids : ℕ → ℕ) (now : ℕ) (w : World) (o : Option Rows)
    (reply : Reply Rows)
    → w.faults ≡ []
    → reply ≡ reply_of w o
    → Published r event_id ids now w o (elim reply [
      | returned rows v ↦ fan_out r event_id ids now rows v
      | thrown e v ↦ thrown e v
    ])
unfolding fan_out
published r event_id ids now w none reply nf e = rw e
published r event_id ids now w (some []) reply nf e = rw e
published r event_id ids now w (some (ep ∷ eps)) reply nf e =
    rw e (fan_out-Accepted r event_id ids now ep eps w nf).holds

-- When no call fails, a publish that names an endpoint which is not one of the project's, or that
-- has no endpoint to go to, throws and changes nothing. Any other is accepted: the event is saved
-- with one delivery of it for each endpoint, in order, under the ids that were drawn one after
-- another, PENDING for an active endpoint and SKIPPED for a
-- disabled one, and one message for the first attempt is sent for each delivery that is PENDING.
pub publish_event-Published :
    (r : Request) (event_id : ℕ) (ids : ℕ → ℕ) (now : ℕ) (w : World)
    → w.faults ≡ []
    → Published r event_id ids now w
        (targets_of r r.endpoint_ids w)
        (publish_event r event_id ids now w)
unfolding publish_event
publish_event-Published r event_id ids now w nf =
    published r event_id ids now w (targets_of r r.endpoint_ids w) _ nf
      (chosen_endpoints-reply_of r r.endpoint_ids w w (called w nf) refl)

-- Every new row is carried by its message, or was SKIPPED.
targets-carried :
    (id : ℕ) (ds : List (ℕ × Delivery)) (rows : Rows)
    → map target ds ≡ map expected rows
    → is_carried (find_row id ds) (any (carries id) (map first_message (queued ds))) ≡ true
unfolding find_row
targets-carried id [] rows h = refl
targets-carried id ((k, d) ∷ ds) [] h = cc
targets-carried id ((k, d) ∷ ds) ((j, ep) ∷ rows) h =
    let status : d.status ≡ (if is_active ep.status then pending else skipped) = ground arith in
    let rest : map target ds ≡ map expected rows = ground arith in
    ground (arith, targets-carried id ds rows rest)

Accepted-IsCarried :
    (id : ℕ) (r : Request) (rows : Rows) (event_id : ℕ) (ids : ℕ → ℕ) (now : ℕ) (w w' : World)
    (ds : List (ℕ × Delivery))
    → Accepted r rows event_id ids now w ds w'
    → IsCarried id w
    → IsCarried id w'
unfolding has_message
Accepted-IsCarried id r rows event_id ids now w w' ds a h =
    rw
      (
        a.deliveries_saved,
        a.messages_sent,
        find_row-append id w.deliveries ds,
        any-append (carries id) w.queue (map first_message (queued ds)),
      )
      (ground (arith, targets-carried id ds rows a.targets))

Published-IsCarried :
    (id : ℕ) (r : Request) (event_id : ℕ) (ids : ℕ → ℕ) (now : ℕ) (w : World) (o : Option Rows)
    (reply : Reply (List (ℕ × Delivery)))
    → Published r event_id ids now w o reply
    → IsCarried id w
    → IsCarried id (world reply)
Published-IsCarried id r event_id ids now w none reply p h = rw p h
Published-IsCarried id r event_id ids now w (some []) reply p h = rw p h
Published-IsCarried id r event_id ids now w (some (ep ∷ eps)) (returned ds w') p h =
    Accepted-IsCarried id r (ep ∷ eps) event_id ids now w w' ds p h
Published-IsCarried id r event_id ids now w (some (ep ∷ eps)) (thrown e w') p h = elim p [ ]

-- When no call fails, a publish leaves every delivery carried, the new ones included.
pub publish_event-IsCarried :
    (id : ℕ) (r : Request) (event_id : ℕ) (ids : ℕ → ℕ) (now : ℕ) (w : World)
    → w.faults ≡ []
    → IsCarried id w
    → IsCarried id (world (publish_event r event_id ids now w))
publish_event-IsCarried id r event_id ids now w nf h =
    Published-IsCarried id r event_id ids now w (targets_of r r.endpoint_ids w) _
      (publish_event-Published r event_id ids now w nf) h
