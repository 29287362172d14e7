-- ===== src/Examples/Realtime.antt =====
-- Messages of two projects at a budget of one in a second (backend/src/api/realtime/socket.js).
use hook_tracker.Prelude.{◌≡◌, ◌≤◌, refl, none, ◌∷◌, [], List, ℕ, arith, keep}
use hook_tracker.Realtime.{BridgeMessage, forwarded}
use hook_tracker.Realtime.Throttle.{is_for, alone, number, forwarded-Bounded}

abbrev message : ℕ → ℕ → BridgeMessage
message project_id arrived_at = record { project_id = project_id; arrived_at = arrived_at }

abbrev burst : List BridgeMessage
burst = message 1 5_100 ∷ message 1 5_200 ∷ message 2 5_300 ∷ message 1 6_100 ∷ []

burst_test : forwarded 1 burst [] ≡ message 1 5_100 ∷ message 2 5_300 ∷ message 1 6_100 ∷ []
unfolding forwarded
burst_test = refl

forwarded-Bounded_example :
    (keep (is_for 1) (forwarded 1 burst []) ≡ alone 1 (keep (is_for 1) burst) none)
    × (number 5 (keep (is_for 1) (forwarded 1 burst [])) ≤ 1)
forwarded-Bounded_example = forwarded-Bounded 1 1 5 0 burst (omega arith) refl
