-- ===== src/Alerts.antt =====
-- backend/src/shared/alerts.js: the dispatcher of alerts. Its keys in Redis are a list, the newest
-- first; `SET ... EX ... NX` looks for a key whose time is not up. A project, a reason and a scope are
-- numbers. What the lookup, Redis and the receiver do comes with each call. The claim and the post
-- that follows it stand at one time; the post leaves later by what Redis takes to answer.
pub mod Watch
pub mod Suppression
use hook_tracker.Prelude.{
  ℕ, suc, ◌+◌, ◌*◌, String, Bool, true, false, ◌&&◌, ◌||◌, List, [], ◌∷◌, Option, none, some, leb,
  ltb, ◌==◌, if◌then◌else◌, is_some, length,
}

-- `suppressionKey(projectId, reason, scope)`
pub record AlertKey : Type 0 where
  pub project_id : ℕ
  pub reason : ℕ
  pub scope : ℕ

abbrev pub key_eq : AlertKey → AlertKey → Bool
key_eq a b = a.project_id == b.project_id && (a.reason == b.reason && a.scope == b.scope)

pub data PostResult : Type 0 where
  posted : Option ℕ → Option String → PostResult
  post_throws : PostResult

pub data Dispatch : Type 0 where
  sent not_configured suppressed dispatch_failed unknown_project : Dispatch

-- The keys with the times when they expire, and the calls of `post` with their times.
pub record Dispatcher : Type 0 where
  pub claims : List (AlertKey × ℕ)
  pub posts : List (AlertKey × ℕ)

unfoldable pub find_claim : AlertKey → List (AlertKey × ℕ) → Option ℕ
find_claim key [] = none
find_claim key ((k, t) ∷ claims) = if key_eq k key then some t else find_claim key claims

abbrev pub is_claimed : ℕ → Option ℕ → Bool
is_claimed now none = false
is_claimed now (some expires_at) = ltb now expires_at

-- `claim`: the state in which the key is claimed, if it was not.
unfoldable pub claim_key : ℕ → ℕ → AlertKey → Dispatcher → Option Dispatcher
unfolding find_claim
claim_key window_ms now key s =
    if is_claimed now (find_claim key s.claims)
    then none
    else some (record s { claims = (key, now + window_ms) ∷ s.claims })

-- `result.errorCode || result.responseStatus >= 400`
abbrev pub is_refused : Option ℕ → Option String → Bool
is_refused none code = is_some code
is_refused (some status) code = is_some code || leb 400 status

abbrev pub dispatch_of : PostResult → Dispatch
dispatch_of (posted status code) = if is_refused status code then dispatch_failed else sent
dispatch_of post_throws = dispatch_failed

after_claim : ℕ → AlertKey → PostResult → Dispatcher → Option Dispatcher → Dispatch × Dispatcher
after_claim now key result s none = (suppressed, s)
after_claim now key result s (some claimed) =
    (dispatch_of result, record claimed { posts = (key, now) ∷ claimed.posts })

-- `notifyProject` in a `guard`; `redis_fails` is an exception of `claim`.
unfoldable pub notify_project :
    ℕ → ℕ → Bool → PostResult → AlertKey → Option String → Dispatcher → Dispatch × Dispatcher
unfolding after_claim claim_key
notify_project window_ms now redis_fails result key none s = (not_configured, s)
notify_project window_ms now redis_fails result key (some url) s =
    if redis_fails
    then (dispatch_failed, s)
    else after_claim now key result s (claim_key window_ms now key s)

-- The project, by its URL for alerts.
pub data Lookup : Type 0 where
  lookup_throws no_project : Lookup
  project_with : Option String → Lookup

unfoldable pub notify_alert :
    ℕ → ℕ → Lookup → Bool → PostResult → AlertKey → Dispatcher → Dispatch × Dispatcher
unfolding notify_project
notify_alert window_ms now lookup_throws redis_fails result key s = (dispatch_failed, s)
notify_alert window_ms now no_project redis_fails result key s = (unknown_project, s)
notify_alert window_ms now (project_with url) redis_fails result key s =
    notify_project window_ms now redis_fails result key url s

-- What happens to one of the projects that are told of a problem of the instance.
pub record Told : Type 0 where
  pub project_id : ℕ
  pub url : String
  pub redis_fails : Bool
  pub result : PostResult

abbrev pub is_sent : Dispatch → Bool
is_sent sent = true
is_sent _ = false

-- The number of alerts that were sent, and of projects.
unfoldable pub notify_configured_projects :
    ℕ → ℕ → ℕ → ℕ → List Told → Dispatcher → (ℕ × ℕ) × Dispatcher
unfolding notify_project
notify_configured_projects window_ms now reason scope [] s = ((0, 0), s)
notify_configured_projects window_ms now reason scope (p ∷ ps) s =
    let (outcome, told) =
      notify_project window_ms now p.redis_fails p.result
        (record { project_id = p.project_id; reason = reason; scope = scope }) (some p.url) s in
    let ((many, all'), rest) = notify_configured_projects window_ms now reason scope ps told in
    ((if is_sent outcome then suc many else many, suc all'), rest)
