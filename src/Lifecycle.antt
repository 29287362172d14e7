-- ===== src/Lifecycle.antt =====
-- backend/src/shared/lifecycle.js: how a process shuts down. What `close` does comes with its end;
-- the other code of the process is not part of the state.
pub mod Ending
use hook_tracker.Prelude.{ℕ, suc, ◌+◌, Bool, true, false, Option, none, some, leb, if◌then◌else◌}

-- `timer` is when the timer is due, `closes` the number of calls of `close`, and `exit_code` what
-- `process.exit` was called with.
pub record Shutdown : Type 0 where
  pub shutting_down : Bool
  pub timer : Option ℕ
  pub closes : ℕ
  pub exit_code : Option ℕ

abbrev pub on_start : Shutdown
on_start = record { shutting_down = false; timer = none; closes = 0; exit_code = none }

-- `run` up to the call of `close`.
unfoldable pub on_signal : ℕ → ℕ → Shutdown → Shutdown
on_signal grace_ms now s =
    if s.shutting_down
    then s
    else record s { shutting_down = true; timer = some (now + grace_ms); closes = suc s.closes }

-- The rest of `run`, after `close` has resolved or thrown.
unfoldable pub after_close : Bool → Shutdown → Shutdown
after_close throws s = record s { timer = none; exit_code = some (if throws then 1 else 0) }

abbrev pub timer_fires : ℕ → Option ℕ → Shutdown → Shutdown
timer_fires now none s = s
timer_fires now (some due) s =
    if leb due now then record s { timer = none; exit_code = some 1 } else s

-- What the event loop does with the timer at a time.
unfoldable pub on_timer : ℕ → Shutdown → Shutdown
on_timer now s = timer_fires now s.timer s
