-- ===== src/Examples/ApiKeys.antt =====
-- A key that is created, used and revoked (backend/src/api/services/api-key-service.js).
use hook_tracker.Prelude.{◌≡◌, ◌≢◌, refl, [], ◌∷◌, some, none, false, codes}
use hook_tracker.Store.{Table, find_row}
use hook_tracker.ApiKeys.{
  Text, ApiKey, api_key_auth, create_key, revoke, let_in, find_prefix, bearer_token,
}
use hook_tracker.ApiKeys.Use.{here, next, presenting, revoke-refuses}
use hook_tracker.ApiKeys.Created.{bearer, create_key-admits}

abbrev hash : Text → Text
hash s = b'#' ∷ s

abbrev created : Text × Table ApiKey
created = create_key hash 3 (codes "ci") 7 (codes "abcdefghijkl") 100 []

token_test : bearer_token (some (codes "bEARER   ht_x")) ≡ some (codes "ht_x")
unfolding bearer_token
token_test = refl

create_key-admits_example :
    (api_key_auth hash false 500 (some (bearer created.0)) created.1).0 ≡ let_in 7 3
unfolding find_prefix
create_key-admits_example =
    create_key-admits hash 3 (codes "ci") 7 (codes "abcdefghijkl") 100 [] false 500 refl refl

abbrev revoked : Table ApiKey
revoked = elim (revoke 3 7 400 created.1) [ none ↦ [] | some keys ↦ keys ]

revoke-refuses_example :
    (api_key_auth hash false 500
      (some (bearer created.0))
      (api_key_auth hash false 450 none revoked).1).0
    ≢ let_in 7 3
unfolding create_key revoke find_row
revoke-refuses_example =
    revoke-refuses hash 3 7 400 created.1 revoked (api_key_auth hash false 450 none revoked).1 refl
      (next here (presenting false 450 none revoked)) false 500 (some (bearer created.0)) 3
