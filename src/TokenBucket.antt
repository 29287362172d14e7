-- ===== src/TokenBucket.antt =====
-- backend/src/shared/token-bucket.js: the Lua script TAKE_TOKEN. A count of tokens is given in
-- sixty-thousandths of a token, so the refill of `elapsed * ratePerMinute / 60000` tokens is the
-- whole number `elapsed * rate`. A bucket whose time to live has run out is absent.
pub mod Bounds
use hook_tracker.Prelude.{
  ℕ, ◌+◌, ◌-◌, ◌*◌, Bool, true, false, [], ◌∷◌, Option, none, some, leb, ltb, if◌then◌else◌,
}
use Prim.Native.Nat.{min}
use hook_tracker.Store.{Table, find_row}
use hook_tracker.World.{Bucket, M, returned, call, ◌>>=◌}

abbrev pub token : ℕ
token = 60_000

abbrev pub ttl_ms : ℕ
ttl_ms = 300_000

-- `tokens == nil or updatedAt == nil` stands for a full bucket that is filled now.
unfoldable pub current : ℕ → ℕ → Option Bucket → Bucket
current rate now none = record { tokens = rate * token; updated_at = now; expires_at = now }
current rate now (some b) =
    if ltb now b.expires_at
    then b
    else record { tokens = rate * token; updated_at = now; expires_at = now }

unfoldable pub refill : ℕ → ℕ → Bucket → ℕ
refill rate now b =
    if ltb b.updated_at now
    then min (rate * token) (b.tokens + (now - b.updated_at) * rate)
    else b.tokens

-- The script: the bucket that it writes back, and whether a token was taken.
unfoldable pub take_token : ℕ → ℕ → ℕ → Option Bucket → Bucket × Bool
unfolding current refill
take_token rate now ttl state =
    let tokens = refill rate now (current rate now state) in
    if leb token tokens
    then (record { tokens = tokens - token; updated_at = now; expires_at = now + ttl }, true)
    else (record { tokens = tokens; updated_at = now; expires_at = now + ttl }, false)

-- The bucket of an endpoint is written back under its key.
unfoldable pub store_bucket : ℕ → Bucket → Table Bucket → Table Bucket
store_bucket key b [] = (key, b) ∷ []
store_bucket key b ((j, c) ∷ t) =
    if leb j key
    then (if leb key j then (key, b) ∷ t else (j, c) ∷ store_bucket key b t)
    else (j, c) ∷ store_bucket key b t

-- `tokenBucket.take`.
unfoldable pub take : ℕ → ℕ → ℕ → M Bool
unfolding take_token store_bucket
take endpoint_id rate now = call >>= λ _ w.
    let (b, allowed) = take_token rate now ttl_ms (find_row endpoint_id w.buckets) in
    returned allowed (record w { buckets = store_bucket endpoint_id b w.buckets })
