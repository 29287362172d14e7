-- ===== src/Examples/Accounts.antt =====
-- Sessions, signatures and endpoints at concrete states
-- (backend/src/api/services/auth-service.js, backend/src/shared/hmac.js,
-- backend/src/api/services/endpoint-service.js).
use hook_tracker.Prelude.{
  ◌+◌, ◌*◌, ◌≡◌, refl, String, List, [], ◌∷◌, none, some, false, All, ltb, ◌==◌, if◌then◌else◌,
  codes, arith,
}
use hook_tracker.Status.{pending}
use hook_tracker.Store.{find_row}
use hook_tracker.World.{world, unauthorized, forbidden}
use hook_tracker.Exchange.{Resolved, pinned}
use hook_tracker.Authorization.{Membership, owner, member, assert_membership, membership_for}
use hook_tracker.Sessions.{
  RefreshToken, Accounts, granted, refused, Crypto, Draw, revoke_where, with_tokens, rotate,
  refresh, issue_refresh_token,
}
use hook_tracker.Sessions.Rotation.{reading, logging_out, run, rotate-once}
use hook_tracker.Sessions.Families.{IsRevokedFor}
use hook_tracker.Dashboard.Session.{Browser, refresh_once, on_token_expired}
use hook_tracker.Dashboard.Session.Overlap.{refreshes_overlap}
use hook_tracker.Signing.{Scheme, hour_ms, build_signature_header, verify_signature, valid}
use hook_tracker.Signing.RoundTrip.{verify-build}
use hook_tracker.Endpoints.{rotate_secret}
use hook_tracker.Endpoints.Owners.{IsRefused, manage, disabling, manage-IsRefused}
use hook_tracker.Endpoints.Secrets.{signing_secrets, rotate_secret-active}
use hook_tracker.Examples.Data.{world_in, endpoint}

abbrev crypto : Crypto
crypto = record {
  hash = λ n. n + 1_000;
  hash_password = λ n. n;
  verify_password = λ stored given. stored == given;
  ttl_days = 30;
}

abbrev live_token : RefreshToken
live_token = record { user_id = 7; token_hash = 1_001; expires_at = 900; revoked_at = none }

abbrev revoked_token : RefreshToken
revoked_token = record { user_id = 7; token_hash = 1_002; expires_at = 900; revoked_at = some 3 }

abbrev accounts : Accounts
accounts = record {
  users = [];
  projects = [];
  memberships = [];
  tokens = (1, live_token) ∷ (2, revoked_token) ∷ [];
}

abbrev first : Draw
first = record { id = 3; plaintext = 5; now = 100 }

abbrev second : Draw
second = record { id = 4; plaintext = 6; now = 101 }

rotate-once_example :
    let t =
      run crypto
        (reading (some 5) 100 ∷ logging_out none 100 ∷ [])
        (rotate crypto 1 7 first accounts).1 in
    rotate crypto 1 7 second t
    ≡ (refused unauthorized, with_tokens (revoke_where (λ r. r.0 == 1) 101 t.tokens) t)
unfolding rotate issue_refresh_token revoke_where find_row
rotate-once_example =
    rotate-once crypto 1 7 first accounts (reading (some 5) 100 ∷ logging_out none 100 ∷ []) second
      tt

abbrev browser : Browser
browser = record {
  access_token = some 50;
  inflight_refresh = false;
  cookie = some 1;
  on_the_way = [];
  session_lost = false;
}

refreshes_overlap_example :
    let once = refresh crypto (some 1) first accounts in
    let twice = refresh crypto (some 1) second once.1 in
    ((on_token_expired (refresh_once browser)).on_the_way ≡ some 1 ∷ some 1 ∷ [])
    × (once.0 ≡ granted (record { user_id = 7; token = 5; expires_at = 100 + 30 * 86_400_000 }))
    × (twice.0 ≡ refused unauthorized)
    × All (IsRevokedFor 7) twice.1.tokens
unfolding find_row
refreshes_overlap_example =
    refreshes_overlap crypto 1 1 live_token first second accounts browser refl refl refl
      (omega arith) refl refl refl (omega arith)

abbrev scheme : Scheme
scheme = record {
  sign = λ secret timestamp body. b'a' ∷ b'f' ∷ [];
  unhex = λ text. 175 ∷ [];
  decrypt = λ stored. some (codes stored);
}

verify-build_example :
    verify_signature scheme
      (some (build_signature_header scheme (codes "new" ∷ codes "old" ∷ []) 10 []))
      (codes "old")
      (some 10)
      []
      300
      250
    ≡ valid
verify-build_example =
    verify-build scheme (λ secret timestamp body. refl) (codes "old")
      (codes "new" ∷ codes "old" ∷ []) 10 250 300 [] refl refl refl (omega arith)

abbrev anywhere : String → Resolved String
anywhere url = pinned url

abbrev members : List Membership
members = record { project_id = 3; role = member } ∷ []

abbrev owners : List Membership
owners = record { project_id = 3; role = owner } ∷ []

manage-IsRefused_example :
    IsRefused
      (world_in pending)
      (manage anywhere (λ a b. false) (λ s. s) members 9 disabling (world_in pending))
unfolding find_row assert_membership membership_for
manage-IsRefused_example =
    manage-IsRefused anywhere (λ a b. false) (λ s. s) members 9 disabling endpoint forbidden
      (world_in pending) refl refl

rotate_secret-active_example :
    signing_secrets scheme 24 5_000
      (find_row 9 (world (rotate_secret (λ s. s) owners 9 "t" 1_000 (world_in pending))).endpoints)
    ≡ some (if ltb 5_000 (1_000 + 24 * hour_ms) then codes "t" ∷ codes "s" ∷ [] else codes "t" ∷ [])
unfolding find_row assert_membership membership_for
rotate_secret-active_example =
    rotate_secret-active scheme (λ s. s) owners 9 "t" 1_000 24 5_000 (codes "t") (codes "s")
      endpoint (world_in pending) refl refl refl refl refl
