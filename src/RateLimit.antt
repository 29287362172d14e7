-- ===== src/RateLimit.antt =====
-- backend/src/api/middleware/rate-limit.js: the sliding window of the API. The sorted sets of Redis
-- are one list of their entries; a key is a number, and so is the random `member` of a request.
-- The time to live of a set is left out: it ends when all entries are older than the window.
pub mod Window
pub mod Bound
use hook_tracker.Prelude.{
  ℕ, suc, ◌+◌, ◌-◌, ◌/◌, ◌≤◌, String, Bool, true, false, ◌&&◌, ◌||◌, not, List, [], ◌∷◌, ◌++◌,
  Option, none, some, map, keep, all, length, leb, ltb, ◌==◌, if◌then◌else◌,
}
use Prim.Native.Nat.{max}

-- One member of the sorted set of a key.
pub record Hit : Type 0 where
  pub key : ℕ
  pub score : ℕ
  pub member : ℕ

pub record Identity : Type 0 where
  pub value : ℕ
  pub limit : ℕ
  pub subject : String

abbrev pub is_hit_of : ℕ → ℕ → Hit → Bool
is_hit_of key member h = h.key == key && h.member == member

-- `zremrangebyscore(key, 0, now - windowMs)`
unfoldable pub trim : ℕ → ℕ → ℕ → List Hit → List Hit
trim window key now hits = keep (λ h. not (h.key == key) || ltb now (h.score + window)) hits

-- `zrem(key, member)`
unfoldable pub remove_hit : ℕ → ℕ → List Hit → List Hit
remove_hit key member hits = keep (λ h. not (is_hit_of key member h)) hits

-- `zadd(key, now, member)`
unfoldable pub add_hit : ℕ → ℕ → ℕ → List Hit → List Hit
unfolding remove_hit
add_hit key now member hits =
    remove_hit key member hits ++ record { key = key; score = now; member = member } ∷ []

-- `zcard(key)`
unfoldable pub card : ℕ → List Hit → ℕ
card key hits = length (keep (λ h. h.key == key) hits)

-- The transaction: the sets that it leaves, and what `zcard` gave for each identity.
unfoldable pub transact : ℕ → ℕ → ℕ → List Identity → List Hit → List Hit × List (Identity × ℕ)
unfolding trim add_hit card
transact window now member [] hits = (hits, [])
transact window now member (i ∷ ids) hits =
    let touched = add_hit i.value now member (trim window i.value now hits) in
    let rest = transact window now member ids touched in
    (rest.0, (i, card i.value touched) ∷ rest.1)

-- `remainingByKey.every((remaining) => remaining >= 0)`
unfoldable pub admits : List (Identity × ℕ) → Bool
admits used = all (λ u. leb u.1 u.0.limit) used

-- The first identity with the smallest `limit - used`, a number that may be below 0.
unfoldable pub limiting : Identity × ℕ → List (Identity × ℕ) → Identity × ℕ
limiting best [] = best
limiting best (u ∷ us) =
    if ltb (u.0.limit + best.1) (best.0.limit + u.1) then limiting u us else limiting best us

-- `zrange(key, 0, 0, 'WITHSCORES')`
unfoldable pub oldest : ℕ → List Hit → Option ℕ
oldest key [] = none
oldest key (h ∷ hits) = elim (oldest key hits) [
  | none ↦ if h.key == key then some h.score else none
  | some score ↦ if h.key == key && ltb h.score score then some h.score else some score
]

-- `Math.ceil(a / 1000)`
abbrev pub seconds_up : ℕ → ℕ
seconds_up ms = (ms + 999) / 1000

unfoldable pub reset_seconds : ℕ → ℕ → ℕ → List Hit → ℕ
unfolding oldest
reset_seconds window key now hits = elim (oldest key hits) [
  | none ↦ seconds_up window
  | some score ↦ max 1 (seconds_up ((score + window) - now))
]

-- The headers `RateLimit-*` of an answer, and whether the request is let through.
pub record Quota : Type 0 where
  pub accepted : Bool
  pub limit : ℕ
  pub remaining : ℕ
  pub reset : ℕ

-- The second transaction.
unfoldable pub roll_back : ℕ → List Identity → List Hit → List Hit
unfolding remove_hit
roll_back member [] hits = hits
roll_back member (i ∷ ids) hits = roll_back member ids (remove_hit i.value member hits)

answered : ℕ → ℕ → ℕ → List Identity → List Hit → List (Identity × ℕ) → Option (Quota × List Hit)
unfolding admits limiting reset_seconds roll_back
answered window now member ids done [] = none
answered window now member ids done (u ∷ us) =
    let tightest = limiting u us in
    let accepted = admits (u ∷ us) in
    some (
      record {
        accepted = accepted;
        limit = tightest.0.limit;
        remaining = tightest.0.limit - tightest.1;
        reset = reset_seconds window tightest.0.value now done;
      },
      if accepted then done else roll_back member ids done,
    )

-- A whole call of the middleware. With no identity it throws: `none`.
unfoldable pub rate_limit : ℕ → ℕ → ℕ → List Identity → List Hit → Option (Quota × List Hit)
unfolding transact answered
rate_limit window now member ids hits =
    let done = transact window now member ids hits in answered window now member ids done.0 done.1
