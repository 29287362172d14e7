-- ===== src/Scheduler.antt =====
-- backend/src/jobs/schedule.js: the timers of the jobs. A job is a number. A run of a job takes a
-- while, so its beginning and its end are two steps; how it ends does not matter.
pub mod Runs
use hook_tracker.Prelude.{
  ℕ, Bool, true, false, not, List, [], ◌∷◌, ◌++◌, keep, any, ◌==◌, if◌then◌else◌,
}

-- `handles` and `active`. A job is in `active` exactly while its `inProgress` is not `null`.
pub record Runner : Type 0 where
  pub handles : List ℕ
  pub active : List ℕ

abbrev pub is_running : ℕ → Runner → Bool
is_running job r = any (λ j. j == job) r.active

-- `tick`: a job that is still in progress is skipped.
unfoldable pub tick : ℕ → Runner → Runner
tick job r = if is_running job r then r else record r { active = r.active ++ job ∷ [] }

-- The `finally` of a run.
unfoldable pub finish_job : ℕ → Runner → Runner
finish_job job r = record r { active = keep (λ j. not (j == job)) r.active }

unfoldable pub every : ℕ → Bool → Runner → Runner
unfolding tick
every job run_on_start r =
    let timed = record r { handles = r.handles ++ job ∷ [] } in
    if run_on_start then tick job timed else timed

-- `stop` up to its wait; it returns once the runs that were active then have ended.
unfoldable pub stop : Runner → Runner × List ℕ
stop r = (record r { handles = [] }, r.active)
