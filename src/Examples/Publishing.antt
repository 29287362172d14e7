-- ===== src/Examples/Publishing.antt =====
-- Publishing, subscriptions and membership at concrete inputs
-- (backend/src/api/services/publish-service.js, backend/src/shared/event-types.js,
-- backend/src/api/authorization.js).
use hook_tracker.Prelude.{
  ℕ, ◌+◌, ◌≡◌, ◌≢◌, ◌↔◌, refl, List, [], ◌∷◌, ◌++◌, true, false, some, codes,
}
use hook_tracker.Status.{pending}
use hook_tracker.World.{World, no_such_project, forbidden}
use hook_tracker.EventTypes.{dot, star, ends_with_wildcard, pattern_matches, subscription_matches}
use hook_tracker.EventTypes.Patterns.{IsSegment, pattern_matches_iff}
use hook_tracker.Publishing.{Request, publish_event}
use hook_tracker.Publishing.Behaviour.{Published, targets_of, publish_event-Published}
use hook_tracker.Authorization.{Membership, owner, member, assert_membership}
use hook_tracker.Examples.Data.{world_in}

abbrev request : Request
request = record {
  project_id = 3;
  event_type = "order.created";
  payload = "{}";
  endpoint_ids = [];
  idempotency_key = "k2";
}

abbrev ids : ℕ → ℕ
ids i = 20 + i

wildcard_test : subscription_matches (codes "order.*" ∷ []) (codes "order.created") ≡ true
unfolding subscription_matches
wildcard_test = refl

deeper_test : subscription_matches (codes "order.*" ∷ []) (codes "order.line.added") ≡ false
unfolding subscription_matches
deeper_test = refl

pattern_matches_iff_example :
    ((pattern_matches (codes "order" ++ dot ∷ star ∷ []) (codes "order.paid") ≡ true)
      ↔ ((seg : List ℕ) × (codes "order.paid" ≡ codes "order" ++ dot ∷ seg) × IsSegment seg))
    × (ends_with_wildcard (codes "order") ≡ false
        → (pattern_matches (codes "order") (codes "order.paid") ≡ true)
          ↔ ((codes "order" ≢ star ∷ []) × (codes "order" ≡ codes "order.paid")))
pattern_matches_iff_example = pattern_matches_iff (codes "order") (codes "order.paid")

publish_event-Published_example :
    Published request 6 ids 200
      (world_in pending)
      (targets_of request [] (world_in pending))
      (publish_event request 6 ids 200 (world_in pending))
publish_event-Published_example = publish_event-Published request 6 ids 200 (world_in pending) refl

abbrev broker_down : World
broker_down = record (world_in pending) { faults = false ∷ false ∷ true ∷ [] }

abbrev memberships : List Membership
memberships = record { project_id = 3; role = member } ∷ []

stranger_test : assert_membership memberships 4 owner ≡ some no_such_project
unfolding assert_membership
stranger_test = refl

member_test : assert_membership memberships 3 owner ≡ some forbidden
unfolding assert_membership
member_test = refl
