-- ===== src/Alerts/Suppression.antt =====
-- No two alerts for the same problem within the window (backend/src/shared/alerts.js).
use hook_tracker.Prelude.{
  ℕ, ◌+◌, ◌≡◌, refl, String, List, [], ◌∷◌, Option, none, some, Bool, true, false, ◌&&◌, leb, ltb,
  arith, if◌then◌else◌, Bool-cases, inl, inr,
}
use hook_tracker.Alerts.{
  AlertKey, key_eq, PostResult, Dispatcher, find_claim, is_claimed, claim_key, after_claim,
  notify_project, Lookup, lookup_throws, no_project, project_with, notify_alert, Told,
  notify_configured_projects,
}
use hook_tracker.Alerts.Watch.{
  WatchPass, Probe, run_probe, watch_dependencies, watch_dead_letter_queue, run_alert_watch,
  dead_letter_backlog, dependency_unreachable,
}

-- The posts, newest first: each comes the window or more after the last one with its key.
abbrev after_last : ℕ → ℕ → Option ℕ → Bool
after_last window_ms t none = true
after_last window_ms t (some last) = leb (last + window_ms) t

abbrev pub are_spaced : ℕ → List (AlertKey × ℕ) → Bool
are_spaced window_ms [] = true
are_spaced window_ms ((key, t) ∷ posts) =
    after_last window_ms t (find_claim key posts) && are_spaced window_ms posts

-- A key that was posted is claimed until the window is over.
abbrev covers : ℕ → Option ℕ → Option ℕ → Bool
covers window_ms none claim = true
covers window_ms (some t) none = false
covers window_ms (some t) (some expires_at) = leb (t + window_ms) expires_at

pub record IsSpaced (window_ms : ℕ) (s : Dispatcher) : Type 0 where
  pub spaced : are_spaced window_ms s.posts ≡ true
  pub covered :
      (key : AlertKey) → covers window_ms (find_claim key s.posts) (find_claim key s.claims) ≡ true

pub data Step (window_ms : ℕ) : Dispatcher → Dispatcher → Type 0 where
  notifying :
      (now : ℕ) (found : Lookup) (redis_fails : Bool) (result : PostResult) (key : AlertKey)
      (s : Dispatcher)
      → Step window_ms s (notify_alert window_ms now found redis_fails result key s).1
  telling_all :
      (now reason scope : ℕ) (projects : List Told) (s : Dispatcher)
      → Step window_ms s (notify_configured_projects window_ms now reason scope projects s).1
  watching :
      (now threshold : ℕ) (p : WatchPass) (s : Dispatcher)
      → Step window_ms s (run_alert_watch window_ms now threshold p s)

pub data Steps (window_ms : ℕ) (start : Dispatcher) : Dispatcher → Type 0 where
  here : Steps window_ms start start
  next : {s t : Dispatcher} → Steps window_ms start s → Step window_ms s t → Steps window_ms start t

post-spaced :
    (window_ms now : ℕ) (last claim : Option ℕ)
    → is_claimed now claim ≡ false
    → covers window_ms last claim ≡ true
    → after_last window_ms now last ≡ true
post-spaced window_ms now none claim free c = refl
post-spaced window_ms now (some t) none free c = cc
post-spaced window_ms now (some t) (some e) free c = ground arith

posted-covered :
    (b : Bool) (window_ms now : ℕ) (last claim : Option ℕ)
    → covers window_ms last claim ≡ true
    → covers window_ms (if b then some now else last) (if b then some (now + window_ms) else claim)
      ≡ true
posted-covered true window_ms now last claim c = ground arith
posted-covered false window_ms now last claim c = c

posted-IsSpaced :
    (window_ms now : ℕ) (key : AlertKey) (s : Dispatcher)
    → is_claimed now (find_claim key s.claims) ≡ false
    → IsSpaced window_ms s
    → IsSpaced window_ms
        (record { claims = (key, now + window_ms) ∷ s.claims; posts = (key, now) ∷ s.posts })
unfolding find_claim
posted-IsSpaced window_ms now key s free h = record {
  spaced = rw (post-spaced window_ms now _ _ free (h.covered key)) (h.spaced);
  covered = λ k. posted-covered (key_eq key k) window_ms now _ _ (h.covered k);
}

notify_project-IsSpaced :
    (window_ms now : ℕ) (redis_fails : Bool) (result : PostResult) (key : AlertKey)
    (url : Option String) (s : Dispatcher)
    → IsSpaced window_ms s
    → IsSpaced window_ms (notify_project window_ms now redis_fails result key url s).1
unfolding notify_project after_claim claim_key
notify_project-IsSpaced window_ms now redis_fails result key none s h = h
notify_project-IsSpaced window_ms now true result key (some url) s h = h
notify_project-IsSpaced window_ms now false result key (some url) s h =
    elim (Bool-cases (is_claimed now (find_claim key s.claims))) [
      | inl taken ↦ rw taken h
      | inr free ↦ rw free (posted-IsSpaced window_ms now key s free h)
    ]

notify_alert-IsSpaced :
    (window_ms now : ℕ) (found : Lookup) (redis_fails : Bool) (result : PostResult) (key : AlertKey)
    (s : Dispatcher)
    → IsSpaced window_ms s
    → IsSpaced window_ms (notify_alert window_ms now found redis_fails result key s).1
unfolding notify_alert
notify_alert-IsSpaced window_ms now lookup_throws redis_fails result key s h = h
notify_alert-IsSpaced window_ms now no_project redis_fails result key s h = h
notify_alert-IsSpaced window_ms now (project_with url) redis_fails result key s h =
    notify_project-IsSpaced window_ms now redis_fails result key url s h

telling-IsSpaced :
    (window_ms now reason scope : ℕ) (projects : List Told) (s : Dispatcher)
    → IsSpaced window_ms s
    → IsSpaced window_ms (notify_configured_projects window_ms now reason scope projects s).1
unfolding notify_configured_projects
telling-IsSpaced window_ms now reason scope [] s h = h
telling-IsSpaced window_ms now reason scope (p ∷ ps) s h =
    telling-IsSpaced window_ms now reason scope ps _
      (notify_project-IsSpaced window_ms now p.redis_fails p.result _ (some p.url) s h)

run_probe-IsSpaced :
    (window_ms now : ℕ) (p : Probe) (told : List Told) (s : Dispatcher)
    → IsSpaced window_ms s
    → IsSpaced window_ms (run_probe window_ms now p told s)
unfolding run_probe
run_probe-IsSpaced window_ms now p told s h = elim (Bool-cases p.throws) [
  | inl fails ↦ rw fails (elim (Bool-cases p.alertable) [
    | inl telling ↦
        rw telling (telling-IsSpaced window_ms now dependency_unreachable p.name told s h)
    | inr silent ↦ rw silent h
  ])
  | inr up ↦ rw up h
]

watch_dead_letter_queue-IsSpaced :
    (window_ms now threshold : ℕ) (depth : Option ℕ) (told : List Told) (s : Dispatcher)
    → IsSpaced window_ms s
    → IsSpaced window_ms (watch_dead_letter_queue window_ms now threshold depth told s)
unfolding watch_dead_letter_queue
watch_dead_letter_queue-IsSpaced window_ms now threshold none told s h = h
watch_dead_letter_queue-IsSpaced window_ms now threshold (some depth) told s h =
    elim (Bool-cases (ltb depth threshold)) [
      | inl few ↦ rw few h
      | inr many ↦
          rw many (telling-IsSpaced window_ms now dead_letter_backlog dead_letter_backlog told s h)
    ]

run_alert_watch-IsSpaced :
    (window_ms now threshold : ℕ) (p : WatchPass) (s : Dispatcher)
    → IsSpaced window_ms s
    → IsSpaced window_ms (run_alert_watch window_ms now threshold p s)
unfolding run_alert_watch watch_dependencies
run_alert_watch-IsSpaced window_ms now threshold p s h =
    watch_dead_letter_queue-IsSpaced window_ms now threshold p.depth p.told_of_backlog _ (
      run_probe-IsSpaced window_ms now
        (record { name = 12; throws = p.postgres_throws; alertable = false }) [] _
        (run_probe-IsSpaced window_ms now
          (record { name = 11; throws = p.rabbitmq_throws; alertable = true }) p.told_of_rabbitmq _
          (run_probe-IsSpaced window_ms now
            (record { name = 10; throws = p.redis_throws; alertable = true }) p.told_of_redis s h)))

-- In every run of the dispatcher and of the watch, whatever projects, Redis and receivers do and
-- whichever way the clock goes: an alert is posted only if the last one for the same project, reason and scope is
-- at least the window ago, as long as this was so to begin with and posted keys were claimed.
pub Steps-IsSpaced :
    (window_ms : ℕ) {s t : Dispatcher}
    → Steps window_ms s t
    → IsSpaced window_ms s
    → IsSpaced window_ms t
Steps-IsSpaced window_ms here h = h
Steps-IsSpaced window_ms (next steps (notifying now found redis_fails result key s)) h =
    notify_alert-IsSpaced window_ms now found redis_fails result key s
      (Steps-IsSpaced window_ms steps h)
Steps-IsSpaced window_ms (next steps (telling_all now reason scope projects s)) h =
    telling-IsSpaced window_ms now reason scope projects s (Steps-IsSpaced window_ms steps h)
Steps-IsSpaced window_ms (next steps (watching now threshold p s)) h =
    run_alert_watch-IsSpaced window_ms now threshold p s (Steps-IsSpaced window_ms steps h)
