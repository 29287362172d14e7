-- ===== src/Examples/TokenBucket.antt =====
-- The token bucket at concrete times (backend/src/shared/token-bucket.js).
use hook_tracker.Prelude.{◌+◌, ◌-◌, ◌*◌, ◌≤◌, ◌≡◌, refl, [], ◌∷◌, some, none, arith}
use hook_tracker.World.{Bucket}
use hook_tracker.TokenBucket.{token, ttl_ms, take_token}
use hook_tracker.TokenBucket.Bounds.{granted, granted-Bounded, take_token-rewinds}

-- Two tokens a minute: two at once, none, and one more half a minute later.
granted_test : granted 2 (0 ∷ 1 ∷ 2 ∷ 30_000 ∷ []) none ≡ 3
unfolding granted take_token
granted_test = refl

granted-Bounded_example :
    token * granted 2 (0 ∷ 1 ∷ 2 ∷ 30_000 ∷ []) none ≤ 2 * token + (30_000 - 0) * 2
granted-Bounded_example =
    granted-Bounded 2 0 (1 ∷ 2 ∷ 30_000 ∷ []) (omega arith, (omega arith, (omega arith, tt)))

abbrev empty : Bucket
empty = record { tokens = 0; updated_at = 6_000; expires_at = 306_000 }

take_token-rewinds_example :
    (take_token 2 (1_000 + 5_000) ttl_ms (some (take_token 2 1_000 ttl_ms (some empty)).0)).0.tokens
    ≡ 0 + 5_000 * 2
take_token-rewinds_example =
    take_token-rewinds 2 1_000 5_000 empty (refl, refl) (omega arith) (omega arith) (omega arith)
      (omega arith)
