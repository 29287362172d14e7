-- ===== src/ApiKeys/Created.antt =====
-- A new key is let in (backend/src/api/services/api-key-service.js,
-- backend/src/api/middleware/api-key-auth.js).
use hook_tracker.Prelude.{
  ℕ, ◌≡◌, refl, [], ◌∷◌, ◌++◌, none, some, Bool, true, not, all, take, text_eq, text_eq_iff, codes,
  arith,
}
use hook_tracker.Store.{Table}
use hook_tracker.ApiKeys.{
  Text, ApiKey, let_in, api_key_auth, with_token, with_prefix, check_key, find_prefix, new_key,
  create_key, bearer_token, api_key_prefix, is_space, skip_spaces, whole_word, spaced_word,
  after_bearer, api_key_marker,
}

abbrev pub is_unbroken : Text → Bool
is_unbroken s = all (λ c. not (is_space c)) s

abbrev pub bearer : Text → Text
bearer plaintext = codes "Bearer " ++ plaintext

bearer_token-bearer :
    (draw : Text)
    → is_unbroken draw ≡ true
    → bearer_token (some (bearer (api_key_marker ++ draw))) ≡ some (api_key_marker ++ draw)
unfolding bearer_token after_bearer spaced_word skip_spaces whole_word
bearer_token-bearer draw h = rw h refl

find_prefix-append :
    (prefix : Text) (keys : Table ApiKey) (id : ℕ) (key : ApiKey)
    → find_prefix prefix keys ≡ none
    → text_eq key.key_prefix prefix ≡ true
    → find_prefix prefix (keys ++ (id, key) ∷ []) ≡ some (id, key)
unfolding find_prefix
find_prefix-append prefix [] id key fresh same = rw same refl
find_prefix-append prefix ((j, other) ∷ keys) id key fresh same =
    ground (arith, fresh, find_prefix-append prefix keys id key)

-- The plaintext that the answer to `create` holds, sent back in a header `Authorization`, is let in as
-- the new key of its project, if no older key has its prefix and the random part has no blank.
pub create_key-admits :
    (hash : Text → Text) (project_id : ℕ) (name : Text) (id : ℕ) (draw : Text) (now : ℕ)
    (keys : Table ApiKey) (fails : Bool) (later : ℕ)
    → is_unbroken draw ≡ true
    → find_prefix (take 8 draw) keys ≡ none
    → (api_key_auth hash fails later
        (some (bearer (create_key hash project_id name id draw now keys).0))
        (create_key hash project_id name id draw now keys).1).0
      ≡ let_in id project_id
unfolding api_key_auth with_token with_prefix check_key create_key api_key_prefix
create_key-admits hash project_id name id draw now keys fails later word fresh =
    rw
      (
        bearer_token-bearer draw word,
        find_prefix-append (take 8 draw) keys id (new_key hash project_id name draw now) fresh
            ((text_eq_iff (take 8 draw) (take 8 draw)).1 refl),
        (text_eq_iff (hash (api_key_marker ++ draw)) (hash (api_key_marker ++ draw))).1 refl,
      )
      refl
