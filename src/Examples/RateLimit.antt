-- ===== src/Examples/RateLimit.antt =====
-- Two requests of one API key at a limit of one (backend/src/api/middleware/rate-limit.js).
use hook_tracker.Prelude.{◌≡◌, ◌≤◌, refl, some, ◌∷◌, [], arith, false}
use hook_tracker.RateLimit.{Identity, Hit, transact, admits, rate_limit, roll_back}
use hook_tracker.RateLimit.Window.{count}
use hook_tracker.RateLimit.Bound.{Gate, entered, Reached, opened, entering, leaving, Reached-limit}

abbrev identity : Identity
identity = record { value = 4; limit = 1; subject = "this API key" }

abbrev first_hit : Hit
first_hit = record { key = 4; score = 1_000; member = 11 }

refused_test :
    rate_limit 60_000 31_000 12 (identity ∷ []) (first_hit ∷ [])
    ≡ some (record { accepted = false; limit = 1; remaining = 0; reset = 30 }, first_hit ∷ [])
unfolding rate_limit
refused_test = refl

abbrev empty_gate : Gate
empty_gate = record { hits = []; let_through = []; clock = 0 }

abbrev first_gate : Gate
first_gate = entered 60_000 1_000 11 (identity ∷ []) empty_gate

abbrev second_gate : Gate
second_gate = entered 60_000 31_000 12 (identity ∷ []) first_gate

reached :
    Reached 60_000
      (λ key. 1)
      (record second_gate { hits = roll_back 12 (identity ∷ []) second_gate.hits })
unfolding transact admits
reached =
    leaving second_gate 12 (identity ∷ [])
      (entering first_gate 31_000 12 (identity ∷ [])
        (entering empty_gate 1_000 11 (identity ∷ []) opened (omega arith) (refl, tt) refl refl)
        (omega arith) (refl, tt) refl refl)
      refl

Reached-limit_example : count 60_000 4 40_000 second_gate.let_through ≤ 1
Reached-limit_example = Reached-limit 60_000 (λ key. 1) 4 40_000 reached (omega arith)
