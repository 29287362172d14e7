-- ===== src/TokenBucket/Bounds.antt =====
-- How many deliveries a bucket lets through (backend/src/shared/token-bucket.js).
use hook_tracker.Prelude.{
  ℕ, suc, ◌+◌, ◌-◌, ◌*◌, ◌≤◌, ◌<◌, ◌≡◌, sym, ap, ◌∙◌, Bool, true, false, List, [], ◌∷◌, Option,
  none, some, ltb, if◌then◌else◌, arith, Bool-cases, inl, inr,
}
use native.Mathlib.Nat.{mul-le-mul_right, add-mul}
use hook_tracker.World.{Bucket}
use hook_tracker.TokenBucket.{token, ttl_ms, current, refill, take_token}

-- The script run at each of the times, and how many of the runs took a token.
unfoldable pub granted : ℕ → List ℕ → Option Bucket → ℕ
granted rate [] state = 0
granted rate (now ∷ times) state =
    let rest = granted rate times (some (take_token rate now ttl_ms state).0) in
    if (take_token rate now ttl_ms state).1 then suc rest else rest

-- The last of the times, and that none is before the one that it follows.
abbrev pub last_of : ℕ → List ℕ → ℕ
last_of t [] = t
last_of t (u ∷ times) = last_of u times

abbrev pub Ascending : ℕ → List ℕ → Type 0
Ascending t [] = Unit
Ascending t (u ∷ times) = (t ≤ u) × Ascending u times

-- The script wrote the bucket at this time.
abbrev WrittenAt : ℕ → Bucket → Type 0
WrittenAt t b = (b.updated_at ≡ t) × (b.expires_at ≡ t + ttl_ms)

-- What has run out was full a long time before, at any rate.
expired-le : (rate d : ℕ) → ttl_ms ≤ d → rate * token ≤ d * rate
expired-le rate d h = omega (arith, mul-le-mul_right rate h)

refill-le :
    (rate t now : ℕ) (b : Bucket)
    → WrittenAt t b
    → t ≤ now
    → refill rate now (current rate now (some b)) ≤ b.tokens + (now - t) * rate
unfolding refill current
refill-le rate t now b h le = elim (Bool-cases (ltb now b.expires_at)) [
  | inl e ↦ rw e (ground (arith, h.0))
  | inr e ↦ rw e (ground (arith, expired-le rate (now - t) (ground (arith, h.1))))
]

take_token-spends :
    (rate now : ℕ) (state : Option Bucket)
    → let r = take_token rate now ttl_ms state in
      WrittenAt now r.0
      × ((if r.1 then token else 0) + r.0.tokens ≡ refill rate now (current rate now state))
unfolding take_token
take_token-spends rate now state = ground arith

last_of-le : (t : ℕ) (times : List ℕ) → Ascending t times → t ≤ last_of t times
last_of-le t [] h = omega arith
last_of-le t (u ∷ times) h = omega (arith, h.0, last_of-le u times h.1)

span : (rate t u v : ℕ) → t ≤ u → u ≤ v → (u - t) * rate + (v - u) * rate ≡ (v - t) * rate
span rate t u v h k = sym (add-mul (u - t) (v - u) rate) ∙ ap (λ n. n * rate) (omega (arith, h, k))

grant_step :
    (g : Bool) (n left before rate_left rate_now all : ℕ) (full : ℕ)
    → (if g then token else 0) + left ≡ full
    → token * n ≤ left + rate_left
    → full ≤ before + rate_now
    → rate_now + rate_left ≡ all
    → token * (if g then suc n else n) ≤ before + all
grant_step true n left before rate_left rate_now all full h k l m = omega (arith, h, k, l, m)
grant_step false n left before rate_left rate_now all full h k l m = omega (arith, h, k, l, m)

pub granted-le :
    (rate t : ℕ) (times : List ℕ) (b : Bucket)
    → WrittenAt t b
    → Ascending t times
    → token * granted rate times (some b) ≤ b.tokens + (last_of t times - t) * rate
unfolding granted
granted-le rate t [] b h up = omega arith
granted-le rate t (u ∷ times) b h up =
    let r = take_token rate u ttl_ms (some b) in
    let (written, spent) = take_token-spends rate u (some b) in
    grant_step r.1 (granted rate times (some r.0)) r.0.tokens b.tokens
      ((last_of u times - u) * rate) ((u - t) * rate) _ _ spent
      (granted-le rate u times r.0 written up.1) (refill-le rate t u b h up.0)
      (span rate t u (last_of u times) up.0 (last_of-le u times up.1))

-- The script run on a new bucket at times that do not go back takes at most as many tokens as a
-- full bucket holds and those that flow in between the first time and the last, however many
-- runs there are and although an entry that is not used for five minutes is forgotten.
pub granted-Bounded :
    (rate t : ℕ) (times : List ℕ)
    → Ascending t times
    → token * granted rate (t ∷ times) none ≤ rate * token + (last_of t times - t) * rate
unfolding granted refill current
granted-Bounded rate t times up =
    let r = take_token rate t ttl_ms none in
    let (written, spent) = take_token-spends rate t none in
    grant_step r.1 (granted rate times (some r.0)) r.0.tokens (rate * token)
      ((last_of t times - t) * rate) 0 ((last_of t times - t) * rate) _ spent
      (granted-le rate t times r.0 written up) (ground arith) (omega arith)

-- Two workers whose clocks differ: the script run at an earlier time than the last writes that
-- time back, and the next run refills for the same time once more. With no token to take, going
-- back by less than five minutes and forth again adds what flows in that time.
pub take_token-rewinds :
    (rate t d : ℕ) (b : Bucket)
    → WrittenAt (t + d) b
    → 0 < d
    → d < ttl_ms
    → b.tokens + d * rate < token
    → token ≤ rate * token
    → let back = (take_token rate t ttl_ms (some b)).0 in
      (take_token rate (t + d) ttl_ms (some back)).0.tokens ≡ b.tokens + d * rate
unfolding take_token refill current
take_token-rewinds rate t d b h pos near low cap =
    let back_by : (t + d) - t ≡ d = omega arith in ground (arith, ap (λ n. n * rate) back_by)
