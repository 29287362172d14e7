-- ===== src/Scheduler/Runs.antt =====
-- Runs of jobs do not overlap, and a stop leaves none (backend/src/jobs/schedule.js).
use hook_tracker.Prelude.{
  ℕ, ◌≡◌, refl, List, [], ◌∷◌, ◌++◌, Bool, true, false, not, ◌&&◌, ◌==◌, keep, all, any, any-append,
  arith,
}
use hook_tracker.Scheduler.{Runner, tick, finish_job, every, stop}

abbrev pub has_job : ℕ → List ℕ → Bool
has_job job jobs = any (λ j. j == job) jobs

abbrev pub are_distinct : List ℕ → Bool
are_distinct [] = true
are_distinct (j ∷ jobs) = not (has_job j jobs) && are_distinct jobs

-- `registering`: a call of `every`, with a job of its own. `ticking`: a timer goes off that has not
-- been cleared. `ending`: a run ends. `stopping`: `stop` is called.
pub data Step : Runner → Runner → Type 0 where
  registering : (job : ℕ) (run_on_start : Bool) (r : Runner) → Step r (every job run_on_start r)
  ticking : (job : ℕ) (r : Runner) → has_job job r.handles ≡ true → Step r (tick job r)
  ending : (job : ℕ) (r : Runner) → Step r (finish_job job r)
  stopping : (r : Runner) → Step r (stop r).0

pub data Steps (start : Runner) : Runner → Type 0 where
  here : Steps start start
  next : {r s : Runner} → Steps start r → Step r s → Steps start s

abbrev pub RunsOnce : Runner → Type 0
RunsOnce r = are_distinct r.active ≡ true

has_job-keep :
    (job : ℕ) (p : ℕ → Bool) (jobs : List ℕ)
    → has_job job jobs ≡ false
    → has_job job (keep p jobs) ≡ false
has_job-keep job p [] h = refl
has_job-keep job p (j ∷ jobs) h = ground (arith, has_job-keep job p jobs)

distinct-keep :
    (p : ℕ → Bool) (jobs : List ℕ) → are_distinct jobs ≡ true → are_distinct (keep p jobs) ≡ true
distinct-keep p [] h = refl
distinct-keep p (j ∷ jobs) h = ground (arith, distinct-keep p jobs, has_job-keep j p jobs)

distinct-append :
    (job : ℕ) (jobs : List ℕ)
    → are_distinct jobs ≡ true
    → has_job job jobs ≡ false
    → are_distinct (jobs ++ job ∷ []) ≡ true
distinct-append job [] h new = refl
distinct-append job (j ∷ jobs) h new =
    ground (arith, distinct-append job jobs, any-append (λ k. k == j) jobs (job ∷ []))

tick-RunsOnce : (job : ℕ) (r : Runner) → RunsOnce r → RunsOnce (tick job r)
unfolding tick
tick-RunsOnce job r h = ground (arith, distinct-append job r.active h)

Step-RunsOnce : {r s : Runner} → Step r s → RunsOnce r → RunsOnce s
unfolding every finish_job stop
Step-RunsOnce (registering job true r) h =
    tick-RunsOnce job (record r { handles = r.handles ++ job ∷ [] }) h
Step-RunsOnce (registering job false r) h = h
Step-RunsOnce (ticking job r on) h = tick-RunsOnce job r h
Step-RunsOnce (ending job r) h = distinct-keep (λ j. not (j == job)) r.active h
Step-RunsOnce (stopping r) h = h

Steps-RunsOnce : {r s : Runner} → Steps r s → RunsOnce r → RunsOnce s
Steps-RunsOnce here h = h
Steps-RunsOnce (next steps step) h = Step-RunsOnce step (Steps-RunsOnce steps h)

-- The steps after a stop that registers nothing new, with the jobs whose runs have ended.
pub data Winding (r : Runner) : Runner → List ℕ → Type 0 where
  stopped : Winding r (stop r).0 []
  timer :
      {s : Runner} {ended : List ℕ} (job : ℕ)
      → Winding r s ended
      → has_job job s.handles ≡ true
      → Winding r (tick job s) ended
  ended_run :
      {s : Runner} {ended : List ℕ} (job : ℕ)
      → Winding r s ended
      → Winding r (finish_job job s) (job ∷ ended)

record Quiet (r s : Runner) (ended : List ℕ) : Type 0 where
  no_timer : s.handles ≡ []
  left : s.active ≡ keep (λ j. not (has_job j ended)) r.active

keep-keep :
    (job : ℕ) (ended jobs : List ℕ)
    → keep (λ j. not (j == job)) (keep (λ j. not (has_job j ended)) jobs)
      ≡ keep (λ j. not (has_job j (job ∷ ended))) jobs
keep-keep job ended [] = refl
keep-keep job ended (j ∷ jobs) = ground (arith, keep-keep job ended jobs)

keep-none : (jobs : List ℕ) → keep (λ j. not (has_job j [])) jobs ≡ jobs
keep-none [] = refl
keep-none (j ∷ jobs) = ground (arith, keep-none jobs)

Winding-Quiet : {r s : Runner} {ended : List ℕ} → Winding r s ended → Quiet r s ended
unfolding stop finish_job
Winding-Quiet {r} stopped = record { no_timer = refl; left = ground (arith, keep-none r.active) }
Winding-Quiet (timer {s} job w on) = let q = Winding-Quiet w in cc
Winding-Quiet {r} (ended_run {s} {ended} job w) =
    let q = Winding-Quiet w in
    record { no_timer = q.no_timer; left = rw (q.left) (keep-keep job ended r.active) }

all-ended :
    (ended jobs : List ℕ)
    → all (λ j. has_job j ended) jobs ≡ true
    → keep (λ j. not (has_job j ended)) jobs ≡ []
all-ended ended [] h = refl
all-ended ended (j ∷ jobs) h = ground (arith, all-ended ended jobs)

-- Runs of the same job never overlap, whatever timers go off, runs end and jobs are registered; and
-- when `stop` returns, since the runs that were active have ended, no run is active.
pub stop-idle :
    (start r s : Runner) (ended : List ℕ)
    → RunsOnce start
    → Steps start r
    → Winding r s ended
    → all (λ j. has_job j ended) (stop r).1 ≡ true
    → RunsOnce r × (s.active ≡ [])
unfolding stop
stop-idle start r s ended once steps w done =
    (Steps-RunsOnce steps once, rw ((Winding-Quiet w).left) (all-ended ended r.active done))
