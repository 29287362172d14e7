-- ===== src/ApiKeys.antt =====
-- backend/src/api/services/api-key-service.js, backend/src/api/middleware/api-key-auth.js and what
-- they use of backend/src/shared/crypto.js and backend/src/api/bearer.js. A text is the list of
-- its code points; the hash and the random text of a new key are arguments.
pub mod Use
pub mod Created
use hook_tracker.Prelude.{
  ℕ, zero, suc, ◌+◌, Bool, true, false, ◌&&◌, ◌||◌, not, List, [], ◌∷◌, ◌++◌, Option, none, some,
  codes, starts_with, text_eq, all, take, leb, ◌==◌, if◌then◌else◌, or_else, is_some,
}
use hook_tracker.Store.{Table, find_row, modify}
use hook_tracker.World.{Error, no_such_api_key, unauthorized}

abbrev pub Text : Type 0
Text = List ℕ

pub record ApiKey : Type 0 where
  pub project_id : ℕ
  pub name : Text
  pub key_prefix : Text
  pub key_hash : Text
  pub last_used_at : Option ℕ
  pub revoked_at : Option ℕ
  pub created_at : ℕ

abbrev pub api_key_marker : Text
api_key_marker = codes "ht_"

abbrev pub drop : ℕ → Text → Text
drop zero s = s
drop (suc n) [] = []
drop (suc n) (c ∷ s) = drop n s

-- `none` is the exception.
unfoldable pub api_key_prefix : Text → Option Text
api_key_prefix plaintext =
    if starts_with api_key_marker plaintext then some (take 8 (drop 3 plaintext)) else none

-- Two texts of the same length, compared byte by byte.
abbrev pub constant_time_equals : Text → Text → Bool
constant_time_equals a b = text_eq a b

-- `\s` of a header, which has the characters of Latin-1.
abbrev pub is_space : ℕ → Bool
is_space c = c == 32 || (leb 9 c && leb c 13) || c == 160

abbrev lower : ℕ → ℕ
lower c = if leb b'A' c && leb c b'Z' then c + 32 else c

-- The word `Bearer` in any case, and what follows it.
unfoldable pub after_bearer : Text → Text → Option Text
after_bearer [] s = some s
after_bearer (p ∷ ps) [] = none
after_bearer (p ∷ ps) (c ∷ s) = if lower c == p then after_bearer ps s else none

unfoldable pub skip_spaces : Text → Text
skip_spaces [] = []
skip_spaces (c ∷ s) = if is_space c then skip_spaces s else c ∷ s

-- `(\S+)$`
unfoldable pub whole_word : Text → Option Text
whole_word [] = none
whole_word (c ∷ s) = if all (λ d. not (is_space d)) (c ∷ s) then some (c ∷ s) else none

-- `\s+(\S+)$`
unfoldable pub spaced_word : Option Text → Option Text
unfolding skip_spaces whole_word
spaced_word none = none
spaced_word (some []) = none
spaced_word (some (c ∷ s)) = if is_space c then whole_word (skip_spaces s) else none

unfoldable pub bearer_token : Option Text → Option Text
unfolding after_bearer spaced_word
bearer_token none = none
bearer_token (some header) = spaced_word (after_bearer (codes "bearer") header)

-- `findUnique` by the prefix.
unfoldable pub find_prefix : Text → Table ApiKey → Option (ℕ × ApiKey)
find_prefix prefix [] = none
find_prefix prefix ((id, key) ∷ keys) =
    if text_eq key.key_prefix prefix then some (id, key) else find_prefix prefix keys

abbrev pub last_used_threshold_ms : ℕ
last_used_threshold_ms = 60_000

-- `touch`. The update that it does not wait for may fail, and then the row stays.
unfoldable pub touch_key : Bool → ℕ → ℕ → ApiKey → Table ApiKey → Table ApiKey
touch_key fails now id key keys =
    if leb (or_else key.last_used_at 0 + last_used_threshold_ms) now
      || not (is_some key.last_used_at)
    then (if fails then keys else modify id (λ row. record row { last_used_at = some now }) keys)
    else keys

pub data Access : Type 0 where
  let_in : ℕ → ℕ → Access
  refused : Error → Access

module _ (hash : Text → Text) where
  check_key : Bool → ℕ → Text → Option (ℕ × ApiKey) → Table ApiKey → Access × Table ApiKey
  unfolding touch_key
  check_key fails now plaintext none keys = (refused unauthorized, keys)
  check_key fails now plaintext (some (id, key)) keys =
      if not (constant_time_equals key.key_hash (hash plaintext)) || is_some key.revoked_at
      then (refused unauthorized, keys)
      else (let_in id key.project_id, touch_key fails now id key keys)

  with_prefix : Bool → ℕ → Text → Option Text → Table ApiKey → Access × Table ApiKey
  unfolding check_key find_prefix
  with_prefix fails now plaintext none keys = (refused unauthorized, keys)
  with_prefix fails now plaintext (some prefix) keys =
      check_key fails now plaintext (find_prefix prefix keys) keys

  with_token : Bool → ℕ → Option Text → Table ApiKey → Access × Table ApiKey
  unfolding with_prefix api_key_prefix
  with_token fails now none keys = (refused unauthorized, keys)
  with_token fails now (some plaintext) keys =
      with_prefix fails now plaintext (api_key_prefix plaintext) keys

  unfoldable pub api_key_auth : Bool → ℕ → Option Text → Table ApiKey → Access × Table ApiKey
  unfolding with_token bearer_token
  api_key_auth fails now header keys = with_token fails now (bearer_token header) keys

  abbrev pub new_key : ℕ → Text → Text → ℕ → ApiKey
  new_key project_id name draw now = record {
    project_id = project_id;
    name = name;
    key_prefix = take 8 (drop 3 (api_key_marker ++ draw));
    key_hash = hash (api_key_marker ++ draw);
    last_used_at = none;
    revoked_at = none;
    created_at = now;
  }

  -- A new key under an id that is new; the random part is `draw`. The plaintext is the answer.
  unfoldable pub create_key : ℕ → Text → ℕ → Text → ℕ → Table ApiKey → Text × Table ApiKey
  create_key project_id name id draw now keys =
      (api_key_marker ++ draw, keys ++ (id, new_key project_id name draw now) ∷ [])

revoke_found : ℕ → ℕ → ℕ → Option ApiKey → Table ApiKey → Option (Table ApiKey)
revoke_found project_id key_id now none keys = none
revoke_found project_id key_id now (some key) keys =
    if key.project_id == project_id
    then some
        (modify key_id (λ row. record row { revoked_at = some (or_else key.revoked_at now) }) keys)
    else none

-- `none` is the answer "No such API key".
unfoldable pub revoke : ℕ → ℕ → ℕ → Table ApiKey → Option (Table ApiKey)
unfolding revoke_found
revoke project_id key_id now keys = revoke_found project_id key_id now (find_row key_id keys) keys
