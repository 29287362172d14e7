-- ===== src/Examples/Retention.antt =====
-- Retention passes at concrete states (backend/src/jobs/retention.js).
use hook_tracker.Prelude.{◌≡◌, refl, [], ◌∷◌}
use hook_tracker.Status.{pending}
use hook_tracker.World.{World, world, call}
use hook_tracker.Retention.{
  retention_cutoff, run_retention, run_batches, delete_batch, stale_batch, delete_selected,
  delete_events,
}
use hook_tracker.Retention.Fresh.{IsSpared, run_retention-IsSpared}
use hook_tracker.Examples.Data.{world_in, event}

-- The event of day 0, and one of day 40.
abbrev two_events : World
two_events = record (world_in pending) {
  events = (5, event) ∷ (6, record event { received_at = 3_456_000_000 }) ∷ [];
}

-- On day 41, with 30 days to keep.
cascade_test : (world (run_retention 3_542_400_000 30 500 20 two_events)).deliveries ≡ []
unfolding run_retention run_batches delete_batch call delete_selected stale_batch retention_cutoff
    delete_events
cascade_test = refl

run_retention-IsSpared_example :
    IsSpared 6
      (retention_cutoff 3_542_400_000 30)
      two_events
      (world (run_retention 3_542_400_000 30 500 20 two_events))
unfolding retention_cutoff
run_retention-IsSpared_example = run_retention-IsSpared 6 3_542_400_000 30 500 20 two_events refl
