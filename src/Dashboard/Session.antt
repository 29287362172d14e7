-- ===== src/Dashboard/Session.antt =====
-- Who asks for a new access token: dashboard/src/lib/api.js after an answer 401, and
-- dashboard/src/stores/realtime.js after the event `token_expired`, both through `refresh` of
-- dashboard/src/stores/auth.js. Each request to `/auth/refresh` carries the cookie that the browser
-- has when it is sent.
pub mod Overlap
use hook_tracker.Prelude.{ℕ, suc, ◌-◌, Bool, true, false, List, [], ◌∷◌, ◌++◌, Option, none, some}

-- `accessToken`, `inflightRefresh`, the cookie of the browser, the cookies of the refresh requests
-- that are on their way, and whether the session was lost.
pub record Browser : Type 0 where
  pub access_token : Option ℕ
  pub inflight_refresh : Bool
  pub cookie : Option ℕ
  pub on_the_way : List (Option ℕ)
  pub session_lost : Bool

-- `refresh` of the store, up to its request.
unfoldable pub send_refresh : Browser → Browser
send_refresh b = record b { on_the_way = b.on_the_way ++ b.cookie ∷ [] }

-- `refreshOnce`, as `request` calls it after a 401.
start_once : Bool → Browser → Browser
unfolding send_refresh
start_once true b = b
start_once false b = send_refresh (record b { inflight_refresh = true })

unfoldable pub refresh_once : Browser → Browser
unfolding start_once
refresh_once b = start_once b.inflight_refresh b

-- The handler of `token_expired`.
unfoldable pub on_token_expired : Browser → Browser
unfolding send_refresh
on_token_expired b = send_refresh b

abbrev drop_first : List (Option ℕ) → List (Option ℕ)
drop_first [] = []
drop_first (c ∷ cs) = cs

-- The answer to the first request on its way: a new access token and a new cookie, or `clear`. Of
-- `refreshOnce` if it was the one in flight, which tells `request` that the session is lost.
unfoldable pub refresh_answered : Bool → Option (ℕ × ℕ) → Browser → Browser
refresh_answered true (some (access, cookie)) b = record b {
  access_token = some access;
  cookie = some cookie;
  on_the_way = drop_first b.on_the_way;
  inflight_refresh = false;
}
refresh_answered false (some (access, cookie)) b = record b {
  access_token = some access;
  cookie = some cookie;
  on_the_way = drop_first b.on_the_way;
}
refresh_answered true none b = record b {
  access_token = none;
  on_the_way = drop_first b.on_the_way;
  inflight_refresh = false;
  session_lost = true;
}
refresh_answered false none b = record b {
  access_token = none;
  on_the_way = drop_first b.on_the_way;
}
