-- ===== src/Connection.antt =====
-- `connectWithRetry` of backend/src/shared/queue/connection.js. The broker is an argument: whether
-- the connection of an attempt is made. What the loop does is a trace of its waits.
pub mod Attempts
use hook_tracker.Prelude.{
  ℕ, zero, suc, ◌-◌, ◌*◌, ◌^◌, Bool, true, false, List, [], ◌∷◌, Option, none, some, leb,
  if◌then◌else◌,
}
use Prim.Native.Nat.{min}

-- The options.
pub record Backoff : Type 0 where
  pub attempts : ℕ
  pub base_delay_ms : ℕ
  pub max_delay_ms : ℕ

abbrev pub default_backoff : Backoff
default_backoff = record { attempts = 10; base_delay_ms = 500; max_delay_ms = 10_000 }

unfoldable pub delay_ms : Backoff → ℕ → ℕ
delay_ms b attempt = min (b.base_delay_ms * 2 ^ (attempt - 1)) b.max_delay_ms

-- The attempt that made a connection, or the error of the last one; and the waits before.
pub data Connected : Type 0 where
  connection_of : ℕ → Connected
  last_error : ℕ → Connected

abbrev pub waited : ℕ → Connected × List ℕ → Connected × List ℕ
waited ms r = (r.0, ms ∷ r.1)

-- The loop from `attempt` on; `left` attempts follow it. With no attempt left the loop breaks.
unfoldable pub connect_from : (ℕ → Bool) → Backoff → ℕ → ℕ → Connected × List ℕ
unfolding delay_ms
connect_from accepts b attempt zero =
    if accepts attempt then (connection_of attempt, []) else (last_error attempt, [])
connect_from accepts b attempt (suc left) =
    let rest = connect_from accepts b (suc attempt) left in
    if accepts attempt then (connection_of attempt, []) else waited (delay_ms b attempt) rest

-- The loop of `attempts` rounds. With none it throws `undefined`, the error of no attempt.
rounds : (ℕ → Bool) → Backoff → ℕ → Connected × List ℕ
unfolding connect_from
rounds accepts b zero = (last_error 0, [])
rounds accepts b (suc left) = connect_from accepts b 1 left

unfoldable pub connect_with_retry : (ℕ → Bool) → Backoff → Connected × List ℕ
unfolding rounds
connect_with_retry accepts b = rounds accepts b b.attempts
