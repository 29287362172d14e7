-- ===== src/Sessions.antt =====
-- backend/src/api/services/auth-service.js: accounts and refresh tokens. The passwords' and the
-- tokens' hashes are functions of Node and of a library, so arguments; a plaintext and a new id
-- are arguments where the code draws them. A statement of the database is one step, and
-- `refresh` is two: between its read and its write other requests may run.
pub mod Rotation
pub mod Twice
pub mod Families
use hook_tracker.Prelude.{
  ℕ, ◌+◌, ◌*◌, Bool, true, false, ◌&&◌, List, [], ◌∷◌, ◌++◌, Option, none, some, map, find, is_some,
  leb, ◌==◌, if◌then◌else◌, text_eq,
}
use hook_tracker.Store.{Table, find_row}
use hook_tracker.World.{Error, conflict, unauthorized}
use hook_tracker.Authorization.{Role, owner}

pub record RefreshToken : Type 0 where
  pub user_id : ℕ
  pub token_hash : ℕ
  pub expires_at : ℕ
  pub revoked_at : Option ℕ

pub record User : Type 0 where
  pub email : List ℕ
  pub name : List ℕ
  pub password_hash : ℕ

pub record MembershipRow : Type 0 where
  pub user_id : ℕ
  pub project_id : ℕ
  pub role : Role

pub record Accounts : Type 0 where
  pub users : Table User
  pub projects : Table (List ℕ)  -- their names
  pub memberships : List MembershipRow
  pub tokens : Table RefreshToken

pub data Answer {ℓ} (A : Type ℓ) : Type ℓ where
  granted : A → Answer A
  refused : Error → Answer A

pub record Session : Type 0 where
  pub user_id : ℕ
  pub token : ℕ
  pub expires_at : ℕ

abbrev pub day_ms : ℕ
day_ms = 86_400_000

pub record Crypto : Type 0 where
  pub hash : ℕ → ℕ
  pub hash_password : ℕ → ℕ
  pub verify_password : ℕ → ℕ → Bool
  pub ttl_days : ℕ

-- What a request draws: the id of a token, its plaintext, and the time.
pub record Draw : Type 0 where
  pub id : ℕ
  pub plaintext : ℕ
  pub now : ℕ

abbrev pub is_live : RefreshToken → Bool
is_live t = if is_some t.revoked_at then false else true

-- `updateMany` of `revokedAt`, where the test holds and it is not set.
unfoldable pub revoke_where :
    (ℕ × RefreshToken → Bool) → ℕ → Table RefreshToken → Table RefreshToken
revoke_where test now [] = []
revoke_where test now ((id, t) ∷ tokens) =
    (if test (id, t) && is_live t then (id, record t { revoked_at = some now }) else (id, t))
    ∷ revoke_where test now tokens

abbrev pub with_tokens : Table RefreshToken → Accounts → Accounts
with_tokens tokens s = record s { tokens = tokens }

unfoldable pub revoke_family : ℕ → ℕ → Accounts → Accounts
unfolding revoke_where
revoke_family user_id now s =
    with_tokens (revoke_where (λ r. r.1.user_id == user_id) now s.tokens) s

-- The write of `refresh`: `count` is 1 if the row is there and not revoked.
abbrev pub rotates : Option RefreshToken → Bool
rotates none = false
rotates (some t) = is_live t

abbrev pub user_of : List ℕ → Accounts → Option (ℕ × User)
user_of email s = find (λ r. text_eq r.1.email email) s.users

module _ (c : Crypto) where
  unfoldable pub issue_refresh_token : ℕ → Draw → Accounts → Answer Session × Accounts
  issue_refresh_token user_id draw s =
      let expires_at = draw.now + c.ttl_days * day_ms in
      (
        granted (record { user_id = user_id; token = draw.plaintext; expires_at = expires_at }),
        with_tokens
            (s.tokens
              ++ (
                draw.id,
                record {
                  user_id = user_id;
                  token_hash = c.hash draw.plaintext;
                  expires_at = expires_at;
                  revoked_at = none;
                },
              )
                ∷ [])
            s,
      )

  -- `usableToken` from the row on: the row of a token that may be used.
  unfoldable pub usable_row :
      ℕ → Option (ℕ × RefreshToken) → Accounts → Answer (ℕ × RefreshToken) × Accounts
  unfolding revoke_family
  usable_row now none s = (refused unauthorized, s)
  usable_row now (some (id, t)) s =
      if leb t.expires_at now
      then (refused unauthorized, s)
      else if is_live t
      then (granted (id, t), s)
      else (refused unauthorized, revoke_family t.user_id now s)

  abbrev pub find_token : ℕ → Accounts → Option (ℕ × RefreshToken)
  find_token token s = find (λ r. r.1.token_hash == c.hash token) s.tokens

  unfoldable pub usable_token : Option ℕ → ℕ → Accounts → Answer (ℕ × RefreshToken) × Accounts
  unfolding usable_row
  usable_token none now s = (refused unauthorized, s)
  usable_token (some token) now s = usable_row now (find_token token s) s

  unfoldable pub rotate : ℕ → ℕ → Draw → Accounts → Answer Session × Accounts
  unfolding issue_refresh_token revoke_where
  rotate id user_id draw s =
      let revoked = with_tokens (revoke_where (λ r. r.0 == id) draw.now s.tokens) s in
      if rotates (find_row id s.tokens)
      then issue_refresh_token user_id draw revoked
      else (refused unauthorized, revoked)

  rotate_usable : Draw → Answer (ℕ × RefreshToken) × Accounts → Answer Session × Accounts
  unfolding rotate
  rotate_usable draw (refused e, s) = (refused e, s)
  rotate_usable draw (granted (id, t), s) = rotate id t.user_id draw s

  -- With no other request in between.
  unfoldable pub refresh : Option ℕ → Draw → Accounts → Answer Session × Accounts
  unfolding usable_token rotate_usable
  refresh token draw s = rotate_usable draw (usable_token token draw.now s)

  unfoldable pub logout : Option ℕ → ℕ → Accounts → Accounts
  unfolding revoke_where
  logout none now s = s
  logout (some token) now s =
      with_tokens (revoke_where (λ r. r.1.token_hash == c.hash token) now s.tokens) s

  login_as : ℕ → Draw → Option (ℕ × User) → Accounts → Answer Session × Accounts
  unfolding issue_refresh_token
  login_as password draw none s = (refused unauthorized, s)
  login_as password draw (some (id, u)) s =
      if c.verify_password u.password_hash password
      then issue_refresh_token id draw s
      else (refused unauthorized, s)

  unfoldable pub login : List ℕ → ℕ → Draw → Accounts → Answer Session × Accounts
  unfolding login_as
  login email password draw s = login_as password draw (user_of email s) s

  -- The user, the project and the membership are one transaction.
  unfoldable pub register :
      List ℕ → ℕ → List ℕ → List ℕ → ℕ → ℕ → Draw → Accounts → Answer Session × Accounts
  unfolding issue_refresh_token
  register email password name project_name user_id project_id draw s =
      if is_some (user_of email s)
      then (refused conflict, s)
      else issue_refresh_token user_id draw (record s {
        users =
            s.users
            ++ (
              user_id,
              record { email = email; name = name; password_hash = c.hash_password password },
            )
              ∷ [];
        projects = s.projects ++ (project_id, project_name) ∷ [];
        memberships =
            s.memberships
            ++ record { user_id = user_id; project_id = project_id; role = owner } ∷ [];
      })
