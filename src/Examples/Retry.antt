-- ===== src/Examples/Retry.antt =====
-- The ladder at its own schedule (backend/src/shared/retry.js).
use hook_tracker.Prelude.{◌≡◌, refl, some, none, arith}
use hook_tracker.Retry.{
  Level, retry_schedule, m30, retryable, permanent, classify_failure, select_retry_level,
}
use hook_tracker.Retry.Ladder.{Honours, select_retry_level-Honours}

classify_tests :
    (classify_failure none ≡ retryable)
    × (classify_failure (some 503) ≡ retryable)
    × (classify_failure (some 429) ≡ retryable)
    × (classify_failure (some 404) ≡ permanent)
    × (classify_failure (some 302) ≡ permanent)
unfolding classify_failure
classify_tests = (refl, refl, refl, refl, refl)

-- A receiver that asks for ten minutes after its second attempt waits thirty.
stretch_test :
    select_retry_level 2 6 retry_schedule (some 600_000)
    ≡ some (record { level = m30; delay_ms = 1_800_000 })
unfolding select_retry_level
stretch_test = refl

select_retry_level-Honours_example :
    (base chosen : Level) × (select_retry_level 2 6 retry_schedule none ≡ some base)
    × (select_retry_level 2 6 retry_schedule (some 600_000) ≡ some chosen)
    × Honours retry_schedule base chosen 600_000
select_retry_level-Honours_example =
    select_retry_level-Honours 2 6 600_000 retry_schedule (omega arith) (omega arith) (omega arith)
      (omega arith)
