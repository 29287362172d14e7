-- ===== src/Examples/Processes.antt =====
-- Alerts, jobs, connections and shutdowns at concrete inputs (backend/src/shared/alerts.js,
-- backend/src/jobs/schedule.js, backend/src/shared/queue/connection.js, backend/src/shared/lifecycle.js).
use hook_tracker.Prelude.{◌≡◌, refl, [], ◌∷◌, some, none, true, false, ℕ, leb, Bool}
use hook_tracker.Alerts.{
  AlertKey, Dispatcher, notify_alert, project_with, posted, suppressed, find_claim,
}
use hook_tracker.Alerts.Suppression.{IsSpaced, here, next, notifying, Steps-IsSpaced}
use hook_tracker.Scheduler.{Runner, every, tick, finish_job, stop}
use hook_tracker.Scheduler.Runs.{RunsOnce, Winding, stopped, ended_run, stop-idle, has_job}
use hook_tracker.Scheduler.Runs
use hook_tracker.Connection.{connection_of, connect_with_retry, default_backoff}
use hook_tracker.Prelude.{is_some}
use hook_tracker.Lifecycle.{Shutdown, on_start, on_signal, after_close, on_timer}
use hook_tracker.Lifecycle.Ending
use hook_tracker.Lifecycle.Ending.{shutdown_ends}

abbrev key : AlertKey
key = record { project_id = 3; reason = 1; scope = 9 }

abbrev quiet : Dispatcher
quiet = record { claims = []; posts = [] }

abbrev told : Dispatcher
told =
    (notify_alert 900_000 1_000 (project_with (some "https://ops.example")) false
      (posted (some 200) none) key quiet).1

suppressed_test :
    (notify_alert 900_000 60_000
      (project_with (some "https://ops.example"))
      false
      (posted (some 200) none)
      key
      told).0
    ≡ suppressed
unfolding notify_alert
suppressed_test = refl

quiet-IsSpaced : IsSpaced 900_000 quiet
unfolding find_claim
quiet-IsSpaced = record { spaced = refl; covered = λ k. refl }

Steps-IsSpaced_example : IsSpaced 900_000 told
Steps-IsSpaced_example =
    Steps-IsSpaced 900_000
      (next here (
        notifying 1_000 (project_with (some "https://ops.example")) false (posted (some 200) none)
          key quiet))
      quiet-IsSpaced

abbrev idle : Runner
idle = record { handles = []; active = [] }

abbrev busy : Runner
busy = tick 1 (every 1 true idle)

stop-idle_example : RunsOnce busy × ((finish_job 1 (stop busy).0).active ≡ [])
unfolding every stop
stop-idle_example =
    stop-idle idle busy (finish_job 1 (stop busy).0) (1 ∷ []) refl
      (Runs.next (Runs.next Runs.here (Runs.registering 1 true idle))
        (Runs.ticking 1 (every 1 true idle) refl))
      (ended_run 1 stopped) refl

abbrev third : ℕ → Bool
third n = leb 3 n

waits_test : connect_with_retry third default_backoff ≡ (connection_of 3, 500 ∷ 1_000 ∷ [])
unfolding connect_with_retry
waits_test = refl

abbrev stopping : Shutdown
stopping = on_signal 10_000 500 on_start

exits_test : (after_close true stopping).exit_code ≡ some 1
unfolding after_close
exits_test = refl

shutdown_ends_example :
    ((on_signal 10_000 800 stopping).closes ≡ 1)
    × (is_some ((on_timer 10_500 (on_signal 10_000 800 stopping)).exit_code) ≡ true)
unfolding on_signal
shutdown_ends_example =
    shutdown_ends 10_000 500 10_500 (Ending.next Ending.here (Ending.signalled 800 stopping refl))
      refl
