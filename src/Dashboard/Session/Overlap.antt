-- ===== src/Dashboard/Session/Overlap.antt =====
-- Two refreshes of one browser (dashboard/src/stores/realtime.js, dashboard/src/lib/api.js,
-- backend/src/api/services/auth-service.js).
use hook_tracker.Prelude.{ℕ, ◌+◌, ◌*◌, ◌<◌, ◌≡◌, refl, [], ◌∷◌, some, true, false, All}
use hook_tracker.Store.{find_row}
use hook_tracker.World.{unauthorized}
use hook_tracker.Sessions.{
  Accounts, RefreshToken, Crypto, Draw, granted, refused, is_live, find_token, refresh, day_ms,
}
use hook_tracker.Sessions.Families.{IsRevokedFor}
use hook_tracker.Sessions.Twice.{refresh-twice}
use hook_tracker.Dashboard.Session.{
  Browser, send_refresh, refresh_once, on_token_expired, start_once,
}

-- A page whose access token has expired gets an answer 401 and the event `token_expired`. Both
-- send a refresh with the same cookie, and no guard of `refreshOnce` holds the second back. When
-- the API answers the two, the first gets a session, the second is refused, and then no refresh token
-- of the user is live, the new one among them: the user is logged out on every device. The cookie is
-- that of a token that may be used at both times.
pub refreshes_overlap :
    (c : Crypto) (token id : ℕ) (t : RefreshToken) (first second : Draw) (s : Accounts)
    (b : Browser)
    → find_token c token s ≡ some (id, t)
    → find_row id s.tokens ≡ some t
    → is_live t ≡ true
    → first.now < t.expires_at
    → b.cookie ≡ some token
    → b.inflight_refresh ≡ false
    → b.on_the_way ≡ []
    → second.now < t.expires_at
    → let once = refresh c (some token) first s in
      let twice = refresh c (some token) second once.1 in
      ((on_token_expired (refresh_once b)).on_the_way ≡ some token ∷ some token ∷ [])
      × (once.0
          ≡ granted (record {
            user_id = t.user_id;
            token = first.plaintext;
            expires_at = first.now + c.ttl_days * day_ms;
          }))
      × (twice.0 ≡ refused unauthorized)
      × All (IsRevokedFor t.user_id) twice.1.tokens
unfolding on_token_expired refresh_once send_refresh start_once
refreshes_overlap c token id t first second s b found row live young has_cookie idle quiet
      young_still =
    let answers = refresh-twice c token id t first second s found row live young young_still in
    (rw (idle, quiet, has_cookie) refl, answers.0, answers.1, answers.2)
