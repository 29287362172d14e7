-- ===== src/Examples/Sweeper.antt =====
-- Sweeps at concrete states (backend/src/jobs/stuck-sweeper.js).
use hook_tracker.Prelude.{◌≡◌, refl, [], ◌∷◌, true, false}
use hook_tracker.Status.{in_flight}
use hook_tracker.World.{World}
use hook_tracker.Sweeper.{sweep_interval_ms}
use hook_tracker.Examples.Data.{world_in}

sweep_interval_test : sweep_interval_ms 15 ≡ 300_000
unfolding sweep_interval_ms
sweep_interval_test = refl

-- The publish fails, and the row goes back.
abbrev broker_down : World
broker_down = record (world_in in_flight) { faults = false ∷ true ∷ [] }
