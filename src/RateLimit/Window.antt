-- ===== src/RateLimit/Window.antt =====
-- However the two transactions of concurrent calls interleave
-- (backend/src/api/middleware/rate-limit.js).
use hook_tracker.Prelude.{
  ℕ, subst, leb→le, ◌+◌, ◌≤◌, ◌≡◌, refl, ◌∙◌, List, [], ◌∷◌, ◌++◌, Bool, true, false, ◌&&◌, not,
  keep, any, any-append, All, length, ltb, ◌==◌, ==_iff, arith, Bool-cases, inl, inr,
}
use hook_tracker.RateLimit.{
  Hit, Identity, is_hit_of, trim, remove_hit, add_hit, card, transact, admits, roll_back,
}

-- The hits of a key that a window which ends at `t` holds.
abbrev pub in_window : ℕ → ℕ → ℕ → Hit → Bool
in_window window key t h = h.key == key && ltb t (h.score + window)

abbrev pub count : ℕ → ℕ → ℕ → List Hit → ℕ
count window key t hits = length (keep (in_window window key t) hits)

-- Those of them that a test picks.
abbrev pub count_of : (Hit → Bool) → ℕ → ℕ → ℕ → List Hit → ℕ
count_of p window key t hits = length (keep (λ h. p h && in_window window key t h) hits)

-- The hits of a request.
abbrev pub hits_of : ℕ → ℕ → List Identity → List Hit
hits_of now member [] = []
hits_of now member (i ∷ ids) =
    record { key = i.value; score = now; member = member } ∷ hits_of now member ids

-- A member that no set of the identities holds.
abbrev pub is_fresh : ℕ → List Identity → List Hit → Bool
is_fresh member [] hits = true
is_fresh member (i ∷ ids) hits =
    not (any (is_hit_of i.value member) hits) && is_fresh member ids hits

-- No two identities have the same key.
abbrev pub lists_key : ℕ → List Identity → Bool
lists_key key ids = any (λ i. i.value == key) ids

abbrev pub are_distinct : List Identity → Bool
are_distinct [] = true
are_distinct (i ∷ ids) = not (lists_key i.value ids) && are_distinct ids

keep-all :
    (key member : ℕ) (hits : List Hit)
    → any (is_hit_of key member) hits ≡ false
    → remove_hit key member hits ≡ hits
unfolding remove_hit
keep-all key member [] h = refl
keep-all key member (x ∷ hits) h = ground (arith, keep-all key member hits)

any-trim :
    (window a now key member : ℕ) (hits : List Hit)
    → any (is_hit_of key member) hits ≡ false
    → any (is_hit_of key member) (trim window a now hits) ≡ false
unfolding trim
any-trim window a now key member [] h = refl
any-trim window a now key member (x ∷ hits) h =
    ground (arith, any-trim window a now key member hits)

abbrev touch_set : ℕ → ℕ → ℕ → ℕ → List Hit → List Hit
touch_set window now member a hits = add_hit a now member (trim window a now hits)

module _ (p : Hit → Bool) (window key t : ℕ) where
  abbrev counted : List Hit → ℕ
  counted = count_of p window key t

  pub count-append : (xs ys : List Hit) → counted (xs ++ ys) ≡ counted xs + counted ys
  count-append [] ys = ground arith
  count-append (x ∷ xs) ys = ground (arith, count-append xs ys)

  count-trim :
      (a now : ℕ) (hits : List Hit) → now ≤ t → counted (trim window a now hits) ≡ counted hits
  unfolding trim
  count-trim a now [] le = refl
  count-trim a now (x ∷ hits) le = ground (arith, count-trim a now hits le)

  count-touch_set :
      (a now member : ℕ) (hits : List Hit)
      → now ≤ t
      → any (is_hit_of a member) hits ≡ false
      → counted (touch_set window now member a hits)
        ≡ counted hits + counted (record { key = a; score = now; member = member } ∷ [])
  unfolding add_hit
  count-touch_set a now member hits le fresh =
      rw
        (
          keep-all a member (trim window a now hits) (any-trim window a now a member hits fresh),
          count-append (trim window a now hits)
              (record { key = a; score = now; member = member } ∷ []),
          count-trim a now hits le,
        )
        refl

any-touch_set :
    (window now member a b : ℕ) (hits : List Hit)
    → (b == a) ≡ false
    → any (is_hit_of a member) hits ≡ false
    → any (is_hit_of b member) hits ≡ false
    → any (is_hit_of b member) (touch_set window now member a hits) ≡ false
unfolding add_hit
any-touch_set window now member a b hits other own mine =
    rw
      (
        keep-all a member (trim window a now hits) (any-trim window a now a member hits own),
        any-append (is_hit_of b member) (trim window a now hits)
            (record { key = a; score = now; member = member } ∷ []),
        any-trim window a now b member hits mine,
      )
      (ground arith)

fresh-touch_set :
    (window now member a : ℕ) (ids : List Identity) (hits : List Hit)
    → lists_key a ids ≡ false
    → is_fresh member ids hits ≡ true
    → any (is_hit_of a member) hits ≡ false
    → is_fresh member ids (touch_set window now member a hits) ≡ true
fresh-touch_set window now member a [] hits other fresh own = refl
fresh-touch_set window now member a (i ∷ ids) hits other fresh own =
    rw (any-touch_set window now member a i.value hits (ground arith) own (ground arith))
      (fresh-touch_set window now member a ids hits (ground arith) (ground arith) own)

card-touch_set :
    (window now member a key : ℕ) (hits : List Hit)
    → (a == key) ≡ false
    → card key (touch_set window now member a hits) ≡ card key hits
unfolding add_hit remove_hit trim card
card-touch_set window now member a key [] other = ground arith
card-touch_set window now member a key (x ∷ hits) other =
    ground (arith, card-touch_set window now member a key hits other)

-- The limit of an identity is that of its key.
abbrev pub HasLimit : (ℕ → ℕ) → Identity → Type 0
HasLimit limit_of i = i.limit ≡ limit_of i.value

module _ (window now member : ℕ) where
  pub transact-count :
      (p : Hit → Bool) (key t : ℕ) (ids : List Identity) (hits : List Hit)
      → now ≤ t
      → are_distinct ids ≡ true
      → is_fresh member ids hits ≡ true
      → count_of p window key t (transact window now member ids hits).0
        ≡ count_of p window key t hits + count_of p window key t (hits_of now member ids)
  unfolding transact
  transact-count p key t [] hits le apart fresh = omega arith
  transact-count p key t (i ∷ ids) hits le apart fresh =
      transact-count p key t ids (touch_set window now member i.value hits) le (ground arith) (
        fresh-touch_set window now member i.value ids hits (ground arith) (ground arith)
          (ground arith))
      ∙ omega (
        arith,
        count-touch_set p window key t i.value now member hits le (ground arith),
        count-append p window key t (record { key = i.value; score = now; member = member } ∷ [])
            (hits_of now member ids),
      )

  card-transact :
      (key : ℕ) (ids : List Identity) (hits : List Hit)
      → lists_key key ids ≡ false
      → card key (transact window now member ids hits).0 ≡ card key hits
  unfolding transact
  card-transact key [] hits other = refl
  card-transact key (i ∷ ids) hits other =
      card-transact key ids _ (ground arith)
      ∙ card-touch_set window now member i.value key hits (ground arith)

  module _ (limit_of : ℕ → ℕ) where
    pub card-admits :
        (key : ℕ) (ids : List Identity) (hits : List Hit)
        → All (HasLimit limit_of) ids
        → are_distinct ids ≡ true
        → lists_key key ids ≡ true
        → admits (transact window now member ids hits).1 ≡ true
        → card key (transact window now member ids hits).0 ≤ limit_of key
    unfolding transact admits
    card-admits key [] hits limits apart listed ok = cc
    card-admits key (i ∷ ids) hits (l, limits) apart listed ok =
        elim (Bool-cases (i.value == key)) [
          | inl e ↦
              subst (λ k. card k (transact window now member (i ∷ ids) hits).0 ≤ limit_of k)
                ((==_iff i.value key).0 e)
                (omega (
                  arith,
                  l,
                  card-transact i.value ids (touch_set window now member i.value hits)
                      (ground arith),
                  leb→le (card i.value (touch_set window now member i.value hits)) i.limit
                      (ground arith),
                ))
          | inr e ↦ card-admits key ids _ limits (ground arith) (ground arith) (ground arith)
        ]

abbrev pub keeps : ℕ → Hit → Bool
keeps member h = not (h.member == member)

module _ (p : Hit → Bool) (window key t member : ℕ) where
  abbrev kept : List Hit → ℕ
  kept = count_of (λ h. p h && keeps member h) window key t

  count-remove_hit : (a : ℕ) (hits : List Hit) → kept hits ≤ kept (remove_hit a member hits)
  unfolding remove_hit
  count-remove_hit a [] = omega arith
  count-remove_hit a (x ∷ hits) = ground (arith, count-remove_hit a hits)

  kept-le : (hits : List Hit) → kept hits ≤ count_of p window key t hits
  kept-le [] = omega arith
  kept-le (x ∷ hits) = ground (arith, kept-le hits)

  pub count-roll_back :
      (ids : List Identity) (hits : List Hit)
      → kept hits ≤ count_of p window key t (roll_back member ids hits)
  unfolding roll_back
  count-roll_back [] hits = kept-le hits
  count-roll_back (i ∷ ids) hits =
      omega
        (arith, count-remove_hit i.value hits, count-roll_back ids (remove_hit i.value member hits))

  pub count-others :
      (hits : List Hit)
      → any (λ h. h.member == member) hits ≡ false
      → kept hits ≡ count_of p window key t hits
  count-others [] h = refl
  count-others (x ∷ hits) h = ground (arith, count-others hits)

pub count-card : (window key t : ℕ) (hits : List Hit) → count window key t hits ≤ card key hits
unfolding card
count-card window key t [] = omega arith
count-card window key t (x ∷ hits) = ground (arith, count-card window key t hits)
