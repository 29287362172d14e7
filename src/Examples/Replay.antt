-- ===== src/Examples/Replay.antt =====
-- Replays at concrete states (backend/src/api/services/delivery-service.js).
use hook_tracker.Prelude.{true, false, ◌+◌, ◌≡◌, refl, List, [], ◌∷◌, some, arith}
use hook_tracker.Status.{failed_permanently}
use hook_tracker.Store.{find_row, Delivery, Event}
use hook_tracker.World.{World, world, thrown, no_such_delivery, no_such_project}
use hook_tracker.Authorization.{Membership, member, membership_for}
use hook_tracker.Replay.{replay, bulk_replay}
use hook_tracker.Replay.Originals.{Keeps, bulk_replay-Keeps}
use hook_tracker.Replay.Answers.{replay_tells_apart}
use hook_tracker.Examples.Data.{world_in, event, delivery_in}

abbrev caller : List Membership
caller = record { project_id = 3; role = member } ∷ []

abbrev cut : World
cut = record (world_in failed_permanently) { faults = false ∷ false ∷ true ∷ [] }

bulk_replay-Keeps_example :
    Keeps cut (world (bulk_replay (λ w. w.deliveries) (some 10) 500 (λ i. 30 + i) 500 cut))
bulk_replay-Keeps_example =
    bulk_replay-Keeps (λ w. w.deliveries) (some 10) 500 (λ i. 30 + i) 500 cut

the_event :
    (d : Delivery)
    → find_row 1 (world_in failed_permanently).deliveries ≡ some d
    → (ev : Event) × (find_row d.event_id (world_in failed_permanently).events ≡ some ev)
unfolding find_row
the_event d e = (event, ground arith)

replay_tells_apart_example :
    (replay [] 2 30 500 (world_in failed_permanently)
      ≡ thrown no_such_delivery (world_in failed_permanently))
    × (replay [] 1 30 500 (world_in failed_permanently)
        ≡ thrown no_such_project (world_in failed_permanently))
unfolding find_row membership_for
replay_tells_apart_example =
    replay_tells_apart [] 2 1 30 500 (world_in failed_permanently) (delivery_in failed_permanently)
      event refl refl refl refl refl
