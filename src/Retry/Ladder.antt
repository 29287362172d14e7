-- ===== src/Retry/Ladder.antt =====
-- What backend/src/shared/retry.js promises of the ladder.
use hook_tracker.Prelude.{
  ℕ, suc, zero, ◌≤◌, ◌<◌, ◌≡◌, refl, ◌⊎◌, inl, inr, false, List, [], ◌∷◌, none, some, leb,
  get_elem?, get_last?, find, length, arith, Bool-cases, Option-cases, find-some, All, Option, Bool,
  subst, ◌∙◌,
}
use hook_tracker.Retry.{Level, stretch, select_retry_level, select_scheduled, scheduled_level}

-- The levels are in the order of their delays.
abbrev pub IsAscending : List Level → Type 0
IsAscending [] = Unit
IsAscending (l ∷ ls) = All (λ m. l.delay_ms ≤ m.delay_ms) ls × IsAscending ls

get_last?-All :
    (n : ℕ) (ls : List Level) {l : Level}
    → All (λ m. n ≤ m.delay_ms) ls
    → get_last? ls ≡ some l
    → n ≤ l.delay_ms
get_last?-All n [] h e = cc
get_last?-All n (x ∷ []) h e = ground arith
get_last?-All n (x ∷ y ∷ ls) h e = get_last?-All n (y ∷ ls) h.1 e

get_elem?-le-get_last? :
    (ls : List Level) (i : ℕ) {l : Level}
    → IsAscending ls
    → get_elem? ls i ≡ some l
    → (m : Level) × (get_last? ls ≡ some m) × (l.delay_ms ≤ m.delay_ms)
get_elem?-le-get_last? [] i up e = cc
get_elem?-le-get_last? (x ∷ []) zero up e = (x, refl, ground arith)
get_elem?-le-get_last? (x ∷ []) (suc i) up e = cc
get_elem?-le-get_last? (x ∷ y ∷ ls) zero {l} up e =
    let (m, last, _) = get_elem?-le-get_last? (y ∷ ls) zero {l = y} up.1 refl in
    (m, last, ground (arith, get_last?-All x.delay_ms (y ∷ ls) {l = m} up.0 last))
get_elem?-le-get_last? (x ∷ y ∷ ls) (suc i) up e = get_elem?-le-get_last? (y ∷ ls) i up.1 e

get_elem?-some :
    {A : Type 0} (xs : List A) (i : ℕ) → i < length xs → (a : A) × (get_elem? xs i ≡ some a)
get_elem?-some [] i h = elim h [ ]
get_elem?-some (x ∷ xs) zero h = (x, refl)
get_elem?-some (x ∷ xs) (suc i) h = get_elem?-some xs i (omega arith)

-- What the level chosen for a request of `requested` milliseconds has to satisfy.
pub record Honours (schedule : List Level) (base chosen : Level) (requested : ℕ) : Type 0 where
  pub not_sooner : base.delay_ms ≤ chosen.delay_ms
  pub covers : (requested ≤ chosen.delay_ms) ⊎ (get_last? schedule ≡ some chosen)

stretch-Honours :
    (schedule : List Level) (i requested : ℕ) {base : Level}
    → IsAscending schedule
    → get_elem? schedule i ≡ some base
    → (chosen : Level) × (stretch schedule base requested ≡ some chosen)
      × Honours schedule base chosen requested
unfolding stretch
stretch-Honours schedule i requested {base} up e = elim (Bool-cases (leb requested base.delay_ms)) [
  | inl within ↦ (base, rw within, record { not_sooner = omega arith; covers = inl (ground arith) })
  | inr over ↦ elim (Option-cases (find (λ level. leb requested level.delay_ms) schedule)) [
    | inl nothing ↦
        let (m, last, longer) = get_elem?-le-get_last? schedule i {l = base} up e in
        (m, rw (over, nothing) last, record { not_sooner = longer; covers = inr last })
    | inr (l, found) ↦
        let enough = find-some (λ level. leb requested level.delay_ms) schedule l found in
        (l, rw (over, found), record { not_sooner = ground arith; covers = inl (ground arith) })
  ]
]

-- An attempt of the ladder that is not the last one gets a level, whatever the receiver asked
-- for; the level is never sooner than the scheduled one, and it covers the request unless it is
-- the longest level there is.
pub select_retry_level-Honours :
    (attempt max_attempts requested : ℕ) (schedule : List Level)
    → IsAscending schedule
    → attempt < max_attempts
    → 1 ≤ attempt
    → attempt ≤ length schedule
    → (base chosen : Level) × (select_retry_level attempt max_attempts schedule none ≡ some base)
      × (select_retry_level attempt max_attempts schedule (some requested) ≡ some chosen)
      × Honours schedule base chosen requested
unfolding select_retry_level
select_retry_level-Honours zero max_attempts requested schedule up below pos within =
    absurd (omega arith)
select_retry_level-Honours (suc n) max_attempts requested schedule up below pos within =
    let (base, found) = get_elem?-some schedule n (omega arith) in
    let (chosen, eq, honours) = stretch-Honours schedule n requested {base = base} up found in
    let open_ladder : leb max_attempts (suc n) ≡ false = ground arith in
    (base, chosen, rw (open_ladder, found), rw (open_ladder, found) eq, honours)

-- The level that is chosen is one of the schedule: what holds of all of them holds of it.
module _ (P : Level → Type 0) where
  of_some : (x l : Level) → some x ≡ some l → P x → P l
  of_some x l e h = subst P (cc) h

  get_elem?-All : (ls : List Level) (i : ℕ) (l : Level) → All P ls → get_elem? ls i ≡ some l → P l
  get_elem?-All [] i l h e = cc
  get_elem?-All (x ∷ ls) zero l h e = of_some x l e h.0
  get_elem?-All (x ∷ ls) (suc i) l h e = get_elem?-All ls i l h.1 e

  get_last?-member : (ls : List Level) (l : Level) → All P ls → get_last? ls ≡ some l → P l
  get_last?-member [] l h e = cc
  get_last?-member (x ∷ []) l h e = of_some x l e h.0
  get_last?-member (x ∷ y ∷ ls) l h e = get_last?-member (y ∷ ls) l h.1 e

  find-All : (p : Level → Bool) (ls : List Level) (l : Level) → All P ls → find p ls ≡ some l → P l
  find-All p [] l h e = cc
  find-All p (x ∷ ls) l h e = elim (Bool-cases (p x)) [
    | inl hit ↦ of_some x l (rw hit at e) h.0
    | inr miss ↦ find-All p ls l h.1 (rw miss at e)
  ]

  stretch-All :
      (schedule : List Level) (scheduled l : Level) (requested : ℕ)
      → All P schedule
      → P scheduled
      → stretch schedule scheduled requested ≡ some l
      → P l
  unfolding stretch
  stretch-All schedule scheduled l requested h base e =
      elim (Bool-cases (leb requested scheduled.delay_ms)) [
        | inl within ↦ of_some scheduled l (rw within at e) base
        | inr over ↦ elim (Option-cases (find (λ level. leb requested level.delay_ms) schedule)) [
          | inl nothing ↦ get_last?-member schedule l h (rw (over, nothing) at e)
          | inr (larger, found) ↦ find-All _ schedule l h (found ∙ rw (over, found) at e)
        ]
      ]

  select_scheduled-All :
      (schedule : List Level) (requested : Option ℕ) (scheduled : Option Level) (l : Level)
      → All P schedule
      → ((s : Level) → scheduled ≡ some s → P s)
      → select_scheduled schedule requested scheduled ≡ some l
      → P l
  unfolding select_scheduled
  select_scheduled-All schedule requested none l h base e = cc
  select_scheduled-All schedule none (some s) l h base e = of_some s l e (base s refl)
  select_scheduled-All schedule (some requested) (some s) l h base e =
      stretch-All schedule s l requested h (base s refl) e

  scheduled_level-All :
      (schedule : List Level) (n : ℕ) (l : Level)
      → All P schedule
      → scheduled_level schedule n ≡ some l
      → P l
  unfolding scheduled_level
  scheduled_level-All schedule zero l h e = cc
  scheduled_level-All schedule (suc n) l h e = get_elem?-All schedule n l h e

  pub select_retry_level-All :
      (attempt max_attempts : ℕ) (schedule : List Level) (requested : Option ℕ) (l : Level)
      → All P schedule
      → select_retry_level attempt max_attempts schedule requested ≡ some l
      → P l
  unfolding select_retry_level
  select_retry_level-All attempt max_attempts schedule requested l h e =
      elim (Bool-cases (leb max_attempts attempt)) [
        | inl spent ↦ cc (rw spent at e)
        | inr left ↦
            select_scheduled-All schedule requested (scheduled_level schedule attempt) l h
              (λ s. scheduled_level-All schedule attempt s h) (rw left at e)
      ]
