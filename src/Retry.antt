-- ===== src/Retry.antt =====
-- backend/src/shared/retry.js: the retry ladder. A delay is a number of milliseconds, a level is
-- named by a constructor for its string, `undefined` and `null` are `none`.
-- The header `Retry-After` has been read as a number; `requested_ms` is that number times 1000.
pub mod Ladder
use hook_tracker.Prelude.{
  ℕ, suc, zero, ◌-◌, ◌*◌, ◌/◌, ◌+◌, Bool, true, false, ◌&&◌, ◌||◌, List, [], ◌∷◌, Option, none,
  some, leb, ltb, ◌==◌, if◌then◌else◌, get_elem?, get_last?, find, any, or_else, length,
}

-- The strings '1m', '5m', '30m', '2h', '6h', and '10s' of the throttle queue.
pub data LevelName : Type 0 where
  m1 m5 m30 h2 h6 s10 : LevelName

pub record Level : Type 0 where
  pub level : LevelName
  pub delay_ms : ℕ

abbrev pub retry_schedule : List Level
retry_schedule =
    record { level = m1; delay_ms = 60_000 }
    ∷ record { level = m5; delay_ms = 300_000 }
    ∷ record { level = m30; delay_ms = 1_800_000 }
    ∷ record { level = h2; delay_ms = 7_200_000 }
    ∷ record { level = h6; delay_ms = 21_600_000 }
    ∷ []

abbrev pub max_supported_attempts : ℕ
max_supported_attempts = length retry_schedule + 1

abbrev pub throttle_delay_ms : ℕ
throttle_delay_ms = 10_000

pub data Failure : Type 0 where
  retryable permanent : Failure

abbrev pub is_retryable : Failure → Bool
is_retryable retryable = true
is_retryable permanent = false

abbrev retryable_statuses : List ℕ
retryable_statuses = 408 ∷ 425 ∷ 429 ∷ []

-- `none` is an attempt that got no response.
unfoldable pub classify_failure : Option ℕ → Failure
classify_failure none = retryable
classify_failure (some status) =
    if leb 500 status
    then retryable
    else if any (λ s. s == status) retryable_statuses
    then retryable
    else permanent

unfoldable pub should_retry : Failure → ℕ → ℕ → Bool
should_retry classification attempt max_attempts =
    is_retryable classification && ltb attempt max_attempts

-- `schedule[attempt - 1]`: the index -1 of attempt 0 holds nothing.
unfoldable pub scheduled_level : List Level → ℕ → Option Level
scheduled_level schedule zero = none
scheduled_level schedule (suc n) = get_elem? schedule n

-- A Retry-After that asks for more than the scheduled delay: the first level that covers it, or
-- else the last.
unfoldable pub stretch : List Level → Level → ℕ → Option Level
stretch schedule scheduled requested_ms =
    if leb requested_ms scheduled.delay_ms
    then some scheduled
    else elim (find (λ level. leb requested_ms level.delay_ms) schedule) [
      | some larger ↦ some larger
      | none ↦ get_last? schedule
    ]

unfoldable pub select_scheduled : List Level → Option ℕ → Option Level → Option Level
unfolding stretch
select_scheduled schedule requested none = none
select_scheduled schedule none (some scheduled) = some scheduled
select_scheduled schedule (some requested_ms) (some scheduled) =
    stretch schedule scheduled requested_ms

unfoldable pub select_retry_level : ℕ → ℕ → List Level → Option ℕ → Option Level
unfolding scheduled_level select_scheduled
select_retry_level attempt max_attempts schedule requested_ms =
    if leb max_attempts attempt
    then none
    else select_scheduled schedule requested_ms (scheduled_level schedule attempt)
