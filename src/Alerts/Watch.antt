-- ===== src/Alerts/Watch.antt =====
-- backend/src/jobs/alert-watch.js: the job that tells every project of a problem of the instance.
use hook_tracker.Prelude.{ℕ, Bool, true, false, List, [], Option, none, some, ltb, if◌then◌else◌}
use hook_tracker.Alerts.{Dispatcher, Told, notify_configured_projects}

-- The numbers of the reasons and of the scopes: a scope is the name of a dependency, or the reason.
abbrev pub dead_letter_backlog : ℕ
dead_letter_backlog = 2

abbrev pub dependency_unreachable : ℕ
dependency_unreachable = 3

-- A probe: its name, whether it throws, and whether that is told.
pub record Probe : Type 0 where
  pub name : ℕ
  pub throws : Bool
  pub alertable : Bool

-- What a pass meets: the probes of Redis, RabbitMQ and Postgres, the depth of the dead-letter queue, or
-- none where `checkQueue` throws, and the projects that are told at each of the three places.
pub record WatchPass : Type 0 where
  pub redis_throws : Bool
  pub rabbitmq_throws : Bool
  pub postgres_throws : Bool
  pub depth : Option ℕ
  pub told_of_redis : List Told
  pub told_of_rabbitmq : List Told
  pub told_of_backlog : List Told

unfoldable pub run_probe : ℕ → ℕ → Probe → List Told → Dispatcher → Dispatcher
run_probe window_ms now p told s =
    if p.throws
    then (if p.alertable
        then (notify_configured_projects window_ms now dependency_unreachable p.name told s).1
        else s)
    else s

unfoldable pub watch_dependencies : ℕ → ℕ → WatchPass → Dispatcher → Dispatcher
unfolding run_probe
watch_dependencies window_ms now p s =
    let redis =
      run_probe window_ms now (record { name = 10; throws = p.redis_throws; alertable = true })
        p.told_of_redis s in
    let rabbitmq =
      run_probe window_ms now (record { name = 11; throws = p.rabbitmq_throws; alertable = true })
        p.told_of_rabbitmq redis in
    run_probe window_ms now (record { name = 12; throws = p.postgres_throws; alertable = false }) []
      rabbitmq

-- With no depth the pass ends with the exception, which the scheduler logs.
unfoldable pub watch_dead_letter_queue : ℕ → ℕ → ℕ → Option ℕ → List Told → Dispatcher → Dispatcher
watch_dead_letter_queue window_ms now threshold none told s = s
watch_dead_letter_queue window_ms now threshold (some depth) told s =
    if ltb depth threshold
    then s
    else (notify_configured_projects window_ms now dead_letter_backlog dead_letter_backlog told s).1

unfoldable pub run_alert_watch : ℕ → ℕ → ℕ → WatchPass → Dispatcher → Dispatcher
unfolding watch_dependencies watch_dead_letter_queue
run_alert_watch window_ms now threshold p s =
    watch_dead_letter_queue window_ms now threshold p.depth p.told_of_backlog
      (watch_dependencies window_ms now p s)
