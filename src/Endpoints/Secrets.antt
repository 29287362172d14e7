-- ===== src/Endpoints/Secrets.antt =====
-- The rotation of a secret, from the service to the signatures
-- (backend/src/api/services/endpoint-service.js, backend/src/worker/signing.js).
use hook_tracker.Prelude.{
  ℕ, ◌+◌, ◌*◌, String, ◌≡◌, List, [], ◌∷◌, Option, none, some, ltb, ==_refl, if◌then◌else◌, arith,
}
use hook_tracker.Store.{find_row, find_row-modify, Endpoint}
use hook_tracker.World.{World, world, call, write}
use hook_tracker.Authorization.{owner, Membership, assert_membership}
use hook_tracker.Signing.{Text, Scheme, active_secrets, previous_secret_expires_at, hour_ms}
use hook_tracker.Endpoints.{load_endpoint, found_endpoint, admitted, rotate_secret, rotated}

rotate_secret-row :
    (encrypt : String → String) (auth : List Membership) (id : ℕ) (secret : String) (now : ℕ)
    (ep : Endpoint) (w : World)
    → w.faults ≡ []
    → find_row id w.endpoints ≡ some ep
    → assert_membership auth ep.project_id owner ≡ none
    → find_row id (world (rotate_secret encrypt auth id secret now w)).endpoints
      ≡ some (rotated (encrypt secret) now ep ep)
unfolding rotate_secret load_endpoint found_endpoint admitted call write
rotate_secret-row encrypt auth id secret now ep w nf found owns =
    ground (arith, find_row-modify id id (rotated (encrypt secret) now ep) w.endpoints, ==_refl id)

-- While `now` is before the end of the grace period, both secrets sign; from then on the new one.
rotated-active :
    (h : Scheme) (grace_hours rotated_at now : ℕ) (stored : String) (new old : Text) (ep : Endpoint)
    → h.decrypt stored ≡ some new
    → h.decrypt ep.secret ≡ some old
    → active_secrets h grace_hours now (rotated stored rotated_at ep ep)
      ≡ some (if ltb now (rotated_at + grace_hours * hour_ms) then new ∷ old ∷ [] else new ∷ [])
unfolding active_secrets previous_secret_expires_at
rotated-active h grace_hours rotated_at now stored new old ep e k = rw (e, k) (ground arith)

-- The secrets that a worker signs with for the row that it finds.
abbrev pub signing_secrets : Scheme → ℕ → ℕ → Option Endpoint → Option (List Text)
signing_secrets h grace_hours now none = none
signing_secrets h grace_hours now (some ep) = active_secrets h grace_hours now ep

-- After an owner rotated the secret of an endpoint, with no call failing, the worker signs with the
-- new secret and the one before it until the grace hours have passed since the rotation, and with
-- the new secret alone from then on. Only these two: a secret that was the previous one
-- before the rotation signs no more, whatever is left of its own grace hours.
pub rotate_secret-active :
    (h : Scheme) (encrypt : String → String) (auth : List Membership) (id : ℕ) (secret : String)
    (rotated_at grace_hours now : ℕ) (new old : Text) (ep : Endpoint) (w : World)
    → w.faults ≡ []
    → find_row id w.endpoints ≡ some ep
    → assert_membership auth ep.project_id owner ≡ none
    → h.decrypt (encrypt secret) ≡ some new
    → h.decrypt ep.secret ≡ some old
    → signing_secrets h grace_hours now
        (find_row id (world (rotate_secret encrypt auth id secret rotated_at w)).endpoints)
      ≡ some (if ltb now (rotated_at + grace_hours * hour_ms) then new ∷ old ∷ [] else new ∷ [])
rotate_secret-active h encrypt auth id secret rotated_at grace_hours now new old ep w nf found owns
      e k =
    rw (rotate_secret-row encrypt auth id secret rotated_at ep w nf found owns)
      (rotated-active h grace_hours rotated_at now (encrypt secret) new old ep e k)
