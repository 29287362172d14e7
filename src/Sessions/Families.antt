-- ===== src/Sessions/Families.antt =====
-- A revoked refresh token that comes back (backend/src/api/services/auth-service.js).
use hook_tracker.Prelude.{
  ℕ, ◌≡◌, ◌<◌, refl, Bool, false, not, [], ◌∷◌, some, ◌==◌, arith, All, keep,
}
use hook_tracker.Store.{Table}
use hook_tracker.World.{unauthorized}
use hook_tracker.Sessions.{
  RefreshToken, Accounts, refused, Crypto, Draw, is_live, revoke_where, revoke_family, usable_row,
  usable_token, find_token, refresh, rotate_usable,
}

abbrev of_user : ℕ → ℕ × RefreshToken → Bool
of_user user_id r = r.1.user_id == user_id

abbrev pub IsRevokedFor : ℕ → ℕ × RefreshToken → Type 0
IsRevokedFor user_id r = r.1.user_id ≡ user_id → is_live r.1 ≡ false

revoke_where-All :
    (user_id now : ℕ) (tokens : Table RefreshToken)
    → All (IsRevokedFor user_id) (revoke_where (of_user user_id) now tokens)
unfolding revoke_where
revoke_where-All user_id now [] = tt
revoke_where-All user_id now ((id, t) ∷ tokens) =
    (λ e. ground arith, revoke_where-All user_id now tokens)

revoke_where-others :
    (user_id now : ℕ) (tokens : Table RefreshToken)
    → keep (λ r. not (of_user user_id r)) (revoke_where (of_user user_id) now tokens)
      ≡ keep (λ r. not (of_user user_id r)) tokens
unfolding revoke_where
revoke_where-others user_id now [] = refl
revoke_where-others user_id now ((id, t) ∷ tokens) =
    ground (arith, revoke_where-others user_id now tokens)

module _ (c : Crypto) where
  replayed_row :
      (id : ℕ) (t : RefreshToken) (now : ℕ) (s : Accounts)
      → is_live t ≡ false
      → now < t.expires_at
      → usable_row c now (some (id, t)) s ≡ (refused unauthorized, revoke_family t.user_id now s)
  unfolding usable_row
  replayed_row id t now s h live = ground arith

  -- A refresh with a token that is revoked and has not expired is refused, and afterwards no
  -- token of its user is live; the tokens of the other users are as they were.
  pub refresh-Revokes :
      (token id : ℕ) (t : RefreshToken) (draw : Draw) (s : Accounts)
      → find_token c token s ≡ some (id, t)
      → is_live t ≡ false
      → draw.now < t.expires_at
      → let r = refresh c (some token) draw s in
        (r.0 ≡ refused unauthorized)
        × All (IsRevokedFor t.user_id) r.1.tokens
        × (keep (λ row. not (row.1.user_id == t.user_id)) r.1.tokens
            ≡ keep (λ row. not (row.1.user_id == t.user_id)) s.tokens)
  unfolding refresh usable_token rotate_usable revoke_family
  refresh-Revokes token id t draw s found dead young =
      rw (found, replayed_row id t draw.now s dead young)
        (
          refl,
          revoke_where-All t.user_id draw.now s.tokens,
          revoke_where-others t.user_id draw.now s.tokens,
        )
