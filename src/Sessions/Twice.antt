-- ===== src/Sessions/Twice.antt =====
-- A refresh token that is presented twice (backend/src/api/services/auth-service.js).
use hook_tracker.Prelude.{
  ℕ, ◌+◌, ◌*◌, ◌<◌, ◌≡◌, refl, ap, ◌∙◌, [], ◌∷◌, ◌++◌, some, Bool, true, ◌==◌, find, All, arith,
}
use hook_tracker.Store.{Table, find_row}
use hook_tracker.World.{unauthorized}
use hook_tracker.Sessions.{
  Accounts, RefreshToken, Crypto, Draw, granted, refused, is_live, revoke_where, with_tokens,
  find_token, usable_token, usable_row, rotate, rotate_usable, refresh, issue_refresh_token, day_ms,
}
use hook_tracker.Sessions.Families.{IsRevokedFor, refresh-Revokes}

abbrev has_hash : Crypto → ℕ → ℕ × RefreshToken → Bool
has_hash c token r = r.1.token_hash == c.hash token

-- The row of a token that was rotated is still the one that is found, and it is revoked.
find-revoked :
    (c : Crypto) (token id now : ℕ) (t : RefreshToken) (tokens more : Table RefreshToken)
    → find (has_hash c token) tokens ≡ some (id, t)
    → is_live t ≡ true
    → find (has_hash c token) (revoke_where (λ r. r.0 == id) now tokens ++ more)
      ≡ some (id, record t { revoked_at = some now })
unfolding revoke_where
find-revoked c token id now t [] more found live = cc
find-revoked c token id now t ((j, u) ∷ tokens) more found live =
    ground (arith, found, find-revoked c token id now t tokens more)

module _ (c : Crypto) (token id : ℕ) (t : RefreshToken) (first second : Draw) (s : Accounts)
    (found : find_token c token s ≡ some (id, t)) (row : find_row id s.tokens ≡ some t)
    (live : is_live t ≡ true) (young : first.now < t.expires_at) where
  first-refresh :
      refresh c (some token) first s
      ≡ issue_refresh_token c t.user_id first
          (with_tokens (revoke_where (λ r. r.0 == id) first.now s.tokens) s)
  unfolding refresh usable_token usable_row rotate_usable rotate
  first-refresh = ground (arith, found, row, live)

  after_first :
      find_token c token (refresh c (some token) first s).1
      ≡ some (id, record t { revoked_at = some first.now })
  unfolding issue_refresh_token
  after_first =
      ap (λ r. find_token c token r.1) first-refresh
      ∙ find-revoked c token id first.now t s.tokens _ found live

  -- The first refresh gets a session, the second is refused, and no token of the user is left.
  pub refresh-twice :
      second.now < t.expires_at
      → let once = refresh c (some token) first s in
        let twice = refresh c (some token) second once.1 in
        (once.0
          ≡ granted (record {
            user_id = t.user_id;
            token = first.plaintext;
            expires_at = first.now + c.ttl_days * day_ms;
          }))
        × (twice.0 ≡ refused unauthorized)
        × All (IsRevokedFor t.user_id) twice.1.tokens
  unfolding issue_refresh_token
  refresh-twice young_still =
      let gone =
        refresh-Revokes c token id (record t { revoked_at = some first.now }) second
          (refresh c (some token) first s).1 after_first refl young_still in
      (ap (λ r. r.0) first-refresh, gone.0, gone.1)
