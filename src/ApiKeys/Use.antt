-- ===== src/ApiKeys/Use.antt =====
-- Which keys the API lets in (backend/src/api/middleware/api-key-auth.js).
use hook_tracker.Prelude.{
  ℕ, ◌≡◌, ◌≢◌, refl, ◌∙◌, [], ◌∷◌, ◌++◌, Option, none, some, Bool, true, not, ◌&&◌, ◌||◌, all,
  is_some, or_else, ◌==◌, arith,
}
use hook_tracker.Store.{Table, find_row, modify}
use hook_tracker.ApiKeys.{
  Text, ApiKey, let_in, api_key_auth, with_token, with_prefix, check_key, find_prefix, touch_key,
  create_key, revoke, revoke_found, bearer_token, api_key_prefix,
}

-- Every row under the id is revoked.
abbrev is_shut : ℕ → ℕ × ApiKey → Bool
is_shut id (j, key) = not (j == id) || is_some key.revoked_at

abbrev pub Shut : ℕ → Table ApiKey → Type 0
Shut id keys = all (is_shut id) keys ≡ true

-- What happens to the table: keys are created under ids that are new, revoked, and presented with
-- any header, and the update of `lastUsedAt` fails or not.
pub data Step (hash : Text → Text) (id : ℕ) : Table ApiKey → Table ApiKey → Type 0 where
  creating :
      (project_id : ℕ) (name : Text) (new_id : ℕ) (draw : Text) (now : ℕ) (keys : Table ApiKey)
      → new_id ≢ id
      → Step hash id keys (create_key hash project_id name new_id draw now keys).1
  revoking :
      (project_id key_id now : ℕ) (keys rest : Table ApiKey)
      → revoke project_id key_id now keys ≡ some rest
      → Step hash id keys rest
  presenting :
      (fails : Bool) (now : ℕ) (header : Option Text) (keys : Table ApiKey)
      → Step hash id keys (api_key_auth hash fails now header keys).1

pub data Steps (hash : Text → Text) (id : ℕ) (start : Table ApiKey) : Table ApiKey → Type 0 where
  here : Steps hash id start start
  next : {s t : Table ApiKey} → Steps hash id start s → Step hash id s t → Steps hash id start t

all-append :
    (p : ℕ × ApiKey → Bool) (xs ys : Table ApiKey) → all p (xs ++ ys) ≡ (all p xs && all p ys)
all-append p [] ys = refl
all-append p (x ∷ xs) ys = ground (arith, all-append p xs ys)

Shut-modify :
    (id k : ℕ) (f : ApiKey → ApiKey) (keys : Table ApiKey)
    → ((key : ApiKey) → is_some key.revoked_at ≡ true → is_some (f key).revoked_at ≡ true)
    → Shut id keys
    → Shut id (modify k f keys)
unfolding modify
Shut-modify id k f [] keeps h = refl
Shut-modify id k f ((j, key) ∷ keys) keeps h =
    ground (arith, keeps key, Shut-modify id k f keys keeps)

Shut-touch_key :
    (id : ℕ) (fails : Bool) (now k : ℕ) (key : ApiKey) (keys : Table ApiKey)
    → Shut id keys
    → Shut id (touch_key fails now k key keys)
unfolding touch_key
Shut-touch_key id fails now k key keys h =
    ground
      (arith, h, Shut-modify id k (λ row. record row { last_used_at = some now }) keys (λ r e. e) h)

found-Shut :
    (id : ℕ) (prefix : Text) (keys : Table ApiKey) (key : ApiKey)
    → Shut id keys
    → find_prefix prefix keys ≡ some (id, key)
    → is_some key.revoked_at ≡ true
unfolding find_prefix
found-Shut id prefix [] key h e = cc
found-Shut id prefix ((j, other) ∷ keys) key h e = ground (arith, e, found-Shut id prefix keys key)

module _ (hash : Text → Text) (fails : Bool) (now : ℕ) where
  check_key-Shut :
      (id : ℕ) (plaintext : Text) (found : Option (ℕ × ApiKey)) (keys : Table ApiKey)
      → Shut id keys
      → Shut id (check_key hash fails now plaintext found keys).1
  unfolding check_key
  check_key-Shut id plaintext none keys h = h
  check_key-Shut id plaintext (some (j, key)) keys h =
      ground (arith, h, Shut-touch_key id fails now j key keys h)

  api_key_auth-Shut :
      (id : ℕ) (header : Option Text) (keys : Table ApiKey)
      → Shut id keys
      → Shut id (api_key_auth hash fails now header keys).1
  unfolding api_key_auth with_token with_prefix
  api_key_auth-Shut id header keys h = token (bearer_token header)
    where
      prefixed :
          (plaintext : Text) (p : Option Text)
          → Shut id (with_prefix hash fails now plaintext p keys).1
      prefixed plaintext none = h
      prefixed plaintext (some prefix) =
          check_key-Shut id plaintext (find_prefix prefix keys) keys h

      token : (t : Option Text) → Shut id (with_token hash fails now t keys).1
      token none = h
      token (some plaintext) = prefixed plaintext (api_key_prefix plaintext)

  module _ (id p : ℕ) (keys : Table ApiKey) (shut : Shut id keys) where
    check_key-refuses :
        (plaintext : Text) (found : Option (ℕ × ApiKey))
        → ((key : ApiKey) → found ≡ some (id, key) → is_some key.revoked_at ≡ true)
        → (check_key hash fails now plaintext found keys).0 ≢ let_in id p
    unfolding check_key
    check_key-refuses plaintext none r = λ e. cc
    check_key-refuses plaintext (some (j, key)) r = λ e. ground (arith, e, r key)

    api_key_auth-refuses :
        (header : Option Text) → (api_key_auth hash fails now header keys).0 ≢ let_in id p
    unfolding api_key_auth with_token with_prefix
    api_key_auth-refuses header = token (bearer_token header)
      where
        prefixed :
            (plaintext : Text) (q : Option Text)
            → (with_prefix hash fails now plaintext q keys).0 ≢ let_in id p
        prefixed plaintext none = λ e. cc
        prefixed plaintext (some prefix) =
            check_key-refuses plaintext (find_prefix prefix keys)
              (λ key e. found-Shut id prefix keys key shut e)

        token : (t : Option Text) → (with_token hash fails now t keys).0 ≢ let_in id p
        token none = λ e. cc
        token (some plaintext) = prefixed plaintext (api_key_prefix plaintext)

modify-Shut :
    (id : ℕ) (f : ApiKey → ApiKey) (keys : Table ApiKey)
    → ((key : ApiKey) → is_some (f key).revoked_at ≡ true)
    → Shut id (modify id f keys)
unfolding modify
modify-Shut id f [] h = refl
modify-Shut id f ((j, key) ∷ keys) h = ground (arith, h key, modify-Shut id f keys h)

revoked_table :
    (project_id key_id now : ℕ) (found : Option ApiKey) (keys rest : Table ApiKey)
    → revoke_found project_id key_id now found keys ≡ some rest
    → (at_ms : ℕ) × (rest ≡ modify key_id (λ row. record row { revoked_at = some at_ms }) keys)
unfolding revoke_found
revoked_table project_id key_id now none keys rest h = cc
revoked_table project_id key_id now (some key) keys rest h =
    (or_else key.revoked_at now, ground arith)

revoke-Shut :
    (project_id id now : ℕ) (keys rest : Table ApiKey)
    → revoke project_id id now keys ≡ some rest
    → Shut id rest
unfolding revoke
revoke-Shut project_id id now keys rest h =
    let (at_ms, e) = revoked_table project_id id now (find_row id keys) keys rest h in
    rw e (modify-Shut id (λ row. record row { revoked_at = some at_ms }) keys (λ key. refl))

Step-Shut :
    (hash : Text → Text) (id : ℕ) {s t : Table ApiKey} → Step hash id s t → Shut id s → Shut id t
unfolding create_key revoke
Step-Shut hash id (creating project_id name new_id draw now keys other) h =
    all-append (is_shut id) keys _ ∙ ground (arith, h, other)
Step-Shut hash id (revoking project_id key_id now keys rest e) h =
    let (at_ms, same) = revoked_table project_id key_id now (find_row key_id keys) keys rest e in
    rw same
      (Shut-modify id key_id (λ row. record row { revoked_at = some at_ms }) keys (λ key r. refl) h)
Step-Shut hash id (presenting fails now header keys) h =
    api_key_auth-Shut hash fails now id header keys h

Steps-Shut :
    (hash : Text → Text) (id : ℕ) {s t : Table ApiKey} → Steps hash id s t → Shut id s → Shut id t
Steps-Shut hash id here h = h
Steps-Shut hash id (next steps step) h = Step-Shut hash id step (Steps-Shut hash id steps h)

-- A key that a project has revoked never lets a request in again, whatever keys are created under
-- other ids, revoked or presented afterwards, and whatever header a request brings.
pub revoke-refuses :
    (hash : Text → Text) (project_id id now : ℕ) (keys rest later : Table ApiKey)
    → revoke project_id id now keys ≡ some rest
    → Steps hash id rest later
    → (fails : Bool) (at_ms : ℕ) (header : Option Text) (p : ℕ)
    → (api_key_auth hash fails at_ms header later).0 ≢ let_in id p
revoke-refuses hash project_id id now keys rest later revoked steps fails at_ms header p =
    api_key_auth-refuses hash fails at_ms id p later
      (Steps-Shut hash id steps (revoke-Shut project_id id now keys rest revoked)) header
