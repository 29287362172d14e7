-- ===== src/RateLimit/Bound.antt =====
-- The limit holds however the two transactions of concurrent requests interleave
-- (backend/src/api/middleware/rate-limit.js).
use hook_tracker.Prelude.{
  ℕ, ◌+◌, ◌&&◌, ◌≤◌, ◌≡◌, refl, List, [], ◌∷◌, ◌++◌, Bool, true, false, ◌==◌, if◌then◌else◌, any,
  All, arith, Bool-cases, inl, inr,
}
use hook_tracker.RateLimit.{Hit, Identity, transact, admits, roll_back}
use hook_tracker.RateLimit.Window.{
  count, count_of, hits_of, is_fresh, are_distinct, lists_key, HasLimit, transact-count,
  card-admits, count-roll_back, count-others, keeps, count-card, count-append,
}

-- What Redis holds, and the hits of the requests that were let through.
pub record Gate : Type 0 where
  pub hits : List Hit
  pub let_through : List Hit
  pub clock : ℕ

abbrev pub entered : ℕ → ℕ → ℕ → List Identity → Gate → Gate
entered window now member ids g = record {
  hits = (transact window now member ids g.hits).0;
  let_through =
      if admits (transact window now member ids g.hits).1
      then g.let_through ++ hits_of now member ids
      else g.let_through;
  clock = now;
}

-- `entering`: the first transaction of a request, at a time that is not before the last one, with
-- a member that is new. `leaving`: the second, of a request that was not let through, at any later
-- point.
pub data Reached (window : ℕ) (limit_of : ℕ → ℕ) : Gate → Type 0 where
  opened : Reached window limit_of (record { hits = []; let_through = []; clock = 0 })
  entering :
      (g : Gate) (now member : ℕ) (ids : List Identity)
      → Reached window limit_of g
      → g.clock ≤ now
      → All (HasLimit limit_of) ids
      → are_distinct ids ≡ true
      → is_fresh member ids g.hits ≡ true
      → Reached window limit_of (entered window now member ids g)
  leaving :
      (g : Gate) (member : ℕ) (ids : List Identity)
      → Reached window limit_of g
      → any (λ h. h.member == member) g.let_through ≡ false
      → Reached window limit_of (record g { hits = roll_back member ids g.hits })

module _ (window : ℕ) (limit_of : ℕ → ℕ) where
  let_through_count :
      (p : Hit → Bool) (key t now member : ℕ) (ids : List Identity) (g : Gate)
      → count_of p window key t (entered window now member ids g).let_through
        ≤ count_of p window key t g.let_through + count_of p window key t (hits_of now member ids)
  let_through_count p key t now member ids g =
      elim (Bool-cases (admits (transact window now member ids g.hits).1)) [
        | inl admitted ↦
            rw admitted
              (omega (arith, count-append p window key t g.let_through (hits_of now member ids)))
        | inr refused ↦ rw refused (omega arith)
      ]

  -- Redis holds a hit for each request that was let through.
  covered :
      (p : Hit → Bool) (key t : ℕ) {g : Gate}
      → Reached window limit_of g
      → g.clock ≤ t
      → count_of p window key t g.let_through ≤ count_of p window key t g.hits
  covered p key t opened le = omega arith
  covered p key t (entering g now member ids before later limits apart fresh) le = omega (
    arith,
    let_through_count p key t now member ids g,
    covered p key t before (omega (arith, later, le)),
    transact-count window now member p key t ids g.hits le apart fresh,
  )
  covered p key t (leaving g member ids before gone) le = omega (
    arith,
    count-others p window key t member g.let_through gone,
    count-roll_back p window key t member ids g.hits,
    covered (λ h. p h && keeps member h) key t before le,
  )

  other_key :
      (key t now member : ℕ) (ids : List Identity)
      → lists_key key ids ≡ false
      → count window key t (hits_of now member ids) ≡ 0
  other_key key t now member [] other = refl
  other_key key t now member (i ∷ ids) other = ground (arith, other_key key t now member ids)

  -- However requests and roll-backs interleave, as long as the clock of the requests does not go
  -- back, the members are new and each key has one limit: in every window that ends now or
  -- later, the requests of a key that were let through are no more than its limit.
  pub Reached-limit :
      (key t : ℕ) {g : Gate}
      → Reached window limit_of g
      → g.clock ≤ t
      → count window key t g.let_through ≤ limit_of key
  Reached-limit key t opened le = omega arith
  Reached-limit key t (entering g now member ids before later limits apart fresh) le =
      elim (Bool-cases (admits (transact window now member ids g.hits).1)) [
        | inr refused ↦ rw refused (Reached-limit key t before (omega (arith, later, le)))
        | inl admitted ↦ elim (Bool-cases (lists_key key ids)) [
          | inl listed ↦ omega (
            arith,
            covered (λ h. true) key t (entering g now member ids before later limits apart fresh)
                le,
            count-card window key t (transact window now member ids g.hits).0,
            card-admits window now member limit_of key ids g.hits limits apart listed admitted,
          )
          | inr other ↦ omega (
            arith,
            let_through_count (λ h. true) key t now member ids g,
            other_key key t now member ids other,
            Reached-limit key t before (omega (arith, later, le)),
          )
        ]
      ]
  Reached-limit key t (leaving g member ids before gone) le = Reached-limit key t before le
