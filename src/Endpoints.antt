-- ===== src/Endpoints.antt =====
-- backend/src/api/services/endpoint-service.js. The description of an endpoint is a text that is
-- only stored and is left out. The encryption of secrets and a new secret are arguments.
pub mod Owners
pub mod History
pub mod Secrets
use hook_tracker.Prelude.{
  ℕ, String, Bool, true, false, not, List, [], ◌∷◌, ◌++◌, Option, none, some, any, keep, or_else,
  ◌==◌, if◌then◌else◌,
}
use hook_tracker.Status.{active, disabled}
use hook_tracker.Store.{find_row, Delivery, Endpoint}
use hook_tracker.World.{
  World, M, Reply, returned, thrown, pure, throw, Error, no_such_endpoint, conflict, unprocessable,
  ◌>>=◌, ◌>>◌, call, write, has_endpoint, with_endpoint,
}
use hook_tracker.Exchange.{Resolved, pinned, rejected}
use hook_tracker.Authorization.{Role, owner, member, Membership, assert_membership}
use hook_tracker.Publishing.{Request, publish_event}

module _ {Target : Type 0} (resolve_target : String → Resolved Target) where
  reachable : Resolved Target → M (Unit {0})
  reachable (pinned t) = pure tt
  reachable (rejected r) = throw unprocessable

  unfoldable pub assert_reachable : String → M (Unit {0})
  unfolding reachable
  assert_reachable url = reachable (resolve_target url)

admitted : Option Error → Endpoint → M Endpoint
admitted none ep = pure ep
admitted (some e) ep = throw e

found_endpoint : List Membership → Role → Option Endpoint → M Endpoint
unfolding admitted
found_endpoint auth role none = throw no_such_endpoint
found_endpoint auth role (some ep) = admitted (assert_membership auth ep.project_id role) ep

unfoldable pub load_endpoint : List Membership → Role → ℕ → M Endpoint
unfolding found_endpoint
load_endpoint auth role id = call >>= λ _ w. found_endpoint auth role (find_row id w.endpoints) w

-- A field that is not in the patch stays as it is.
pub record Patch : Type 0 where
  pub url : Option String
  pub event_types : Option (List String)
  pub rate_limit_per_minute : Option ℕ

abbrev pub patched : Patch → Endpoint → Endpoint
patched p ep = record ep {
  url = or_else p.url ep.url;
  event_types = or_else p.event_types ep.event_types;
  rate_limit_per_minute = or_else p.rate_limit_per_minute ep.rate_limit_per_minute;
}

abbrev pub default_rate_limit : ℕ
default_rate_limit = 600

-- A rate that is absent or 0 is not written, so the column's default stands.
abbrev pub rate_or_default : Option ℕ → ℕ
rate_or_default none = default_rate_limit
rate_or_default (some rate) = if rate == 0 then default_rate_limit else rate

abbrev pub new_endpoint : ℕ → String → List String → Option ℕ → String → ℕ → Endpoint
new_endpoint project_id url event_types rate stored_secret now = record {
  project_id = project_id;
  url = url;
  status = active;
  secret = stored_secret;
  previous_secret = none;
  secret_rotated_at = none;
  event_types = event_types;
  rate_limit_per_minute = rate_or_default rate;
  consecutive_failures = 0;
  created_at = now;
}

abbrev pub update_endpoint : ℕ → (Endpoint → Endpoint) → M (Unit {0})
update_endpoint id f = write (has_endpoint id) (with_endpoint id f)

abbrev pub rotated : String → ℕ → Endpoint → Endpoint → Endpoint
rotated stored_secret now loaded ep = record ep {
  secret = stored_secret;
  previous_secret = some loaded.secret;
  secret_rotated_at = some now;
}

unfoldable pub rotate_secret : (String → String) → List Membership → ℕ → String → ℕ → M (Unit {0})
rotate_secret encrypt auth id new_secret now = do
  ep ← load_endpoint auth owner id
  update_endpoint id (rotated (encrypt new_secret) now ep)

unfoldable pub enable : List Membership → ℕ → M (Unit {0})
enable auth id = do
  ep ← load_endpoint auth owner id
  update_endpoint id (λ row. record row { status = active; consecutive_failures = 0 })

unfoldable pub disable : List Membership → ℕ → M (Unit {0})
disable auth id = do
  ep ← load_endpoint auth owner id
  update_endpoint id (λ row. record row { status = disabled })

abbrev pub is_used : ℕ → World → Bool
is_used id w = any (λ r. r.1.endpoint_id == id) w.deliveries

-- The foreign key of the deliveries forbids the delete, and the code turns its error into a
-- conflict.
unfoldable pub delete_endpoint : ℕ → M (Unit {0})
delete_endpoint id = call >>= λ _ w.
    if is_used id w
    then thrown conflict w
    else returned tt (record w { endpoints = keep (λ r. not (r.0 == id)) w.endpoints })

unfoldable pub remove : List Membership → ℕ → M (Unit {0})
remove auth id = do ep ← load_endpoint auth owner id; delete_endpoint id

abbrev pub test_request : Endpoint → ℕ → String → String → Request
test_request ep id payload key = record {
  project_id = ep.project_id;
  event_type = "ping";
  payload = payload;
  endpoint_ids = id ∷ [];
  idempotency_key = key;
}

unfoldable pub send_test :
    List Membership → ℕ → String → String → ℕ → (ℕ → ℕ) → ℕ → M (List (ℕ × Delivery))
send_test auth id payload key event_id delivery_ids now = do
  ep ← load_endpoint auth member id
  publish_event (test_request ep id payload key) event_id delivery_ids now

module _ {Target : Type 0} (resolve_target : String → Resolved Target) where
  unfoldable pub create :
      (String → String) → ℕ → ℕ → String → List String → Option ℕ → String → ℕ → M (Unit {0})
  create encrypt id project_id url event_types rate secret now = do
    assert_reachable resolve_target url
    write (λ w. true)
        (λ w. record w {
          endpoints =
              w.endpoints
              ++ (id, new_endpoint project_id url event_types rate (encrypt secret) now) ∷ [];
        })

  -- Only a URL that changes is looked at.
  unfoldable pub check_patch : (String → String → Bool) → Option String → Endpoint → M (Unit {0})
  check_patch same none ep = pure tt
  check_patch same (some url) ep =
      if same url ep.url then pure tt else assert_reachable resolve_target url

  unfoldable pub update : (String → String → Bool) → List Membership → ℕ → Patch → M (Unit {0})
  update same auth id patch = do
    ep ← load_endpoint auth owner id
    check_patch same patch.url ep
    update_endpoint id (patched patch)
