-- ===== src/Sessions/Rotation.antt =====
-- A refresh token is used at most once (backend/src/api/services/auth-service.js).
use hook_tracker.Prelude.{
  ℕ, ◌≡◌, refl, Bool, true, false, not, List, [], ◌∷◌, ◌++◌, Option, none, some, is_some, ◌==◌,
  if◌then◌else◌, arith, Bool-cases, inl, inr,
}
use hook_tracker.Store.{Table, find_row, find_row-append}
use hook_tracker.World.{unauthorized}
use hook_tracker.Sessions.{
  RefreshToken, User, Accounts, Answer, granted, refused, Crypto, Draw, is_live, revoke_where,
  with_tokens, revoke_family, issue_refresh_token, usable_row, usable_token, rotates, rotate,
  logout, login, login_as, user_of, register,
}

-- The statements and requests that change the tokens, each as one step. A `refresh` that others
-- interrupt is `reading` and later `rotating`.
pub data Operation : Type 0 where
  reading : Option ℕ → ℕ → Operation
  rotating : ℕ → ℕ → Draw → Operation
  logging_in : List ℕ → ℕ → Draw → Operation
  registering : List ℕ → ℕ → List ℕ → List ℕ → ℕ → ℕ → Draw → Operation
  logging_out : Option ℕ → ℕ → Operation

abbrev is_spent : Option RefreshToken → Bool
is_spent none = false
is_spent (some t) = not (is_live t)

-- The row is there, and revoked.
abbrev pub IsSpent : ℕ → Table RefreshToken → Type 0
IsSpent id tokens = is_spent (find_row id tokens) ≡ true

revoke_where-IsSpent :
    (id : ℕ) (test : ℕ × RefreshToken → Bool) (now : ℕ) (tokens : Table RefreshToken)
    → IsSpent id tokens
    → IsSpent id (revoke_where test now tokens)
unfolding revoke_where find_row
revoke_where-IsSpent id test now [] h = h
revoke_where-IsSpent id test now ((j, t) ∷ tokens) h =
    ground (arith, revoke_where-IsSpent id test now tokens)

append-IsSpent :
    (id : ℕ) (tokens more : Table RefreshToken) → IsSpent id tokens → IsSpent id (tokens ++ more)
append-IsSpent id tokens more h =
    rw (find_row-append id tokens more) (spent_first (find_row id tokens) (find_row id more) h)
  where
    spent_first :
        (o p : Option RefreshToken)
        → is_spent o ≡ true
        → is_spent (if is_some o then o else p) ≡ true
    spent_first none p h = cc
    spent_first (some t) p h = h

revoked-IsSpent :
    (id now : ℕ) (tokens : Table RefreshToken)
    → is_some (find_row id tokens) ≡ true
    → IsSpent id (revoke_where (λ r. r.0 == id) now tokens)
unfolding revoke_where find_row
revoked-IsSpent id now [] h = cc
revoked-IsSpent id now ((j, t) ∷ tokens) h = ground (arith, revoked-IsSpent id now tokens)

module _ (c : Crypto) where
  abbrev pub apply : Operation → Accounts → Accounts
  apply (reading token now) s = (usable_token c token now s).1
  apply (rotating id user_id draw) s = (rotate c id user_id draw s).1
  apply (logging_in email password draw) s = (login c email password draw s).1
  apply (registering email password name project user_id project_id draw) s =
      (register c email password name project user_id project_id draw s).1
  apply (logging_out token now) s = logout c token now s

  abbrev pub run : List Operation → Accounts → Accounts
  run [] s = s
  run (op ∷ ops) s = run ops (apply op s)

  issue-IsSpent :
      (id user_id : ℕ) (draw : Draw) (s : Accounts)
      → IsSpent id s.tokens
      → IsSpent id (issue_refresh_token c user_id draw s).1.tokens
  unfolding issue_refresh_token
  issue-IsSpent id user_id draw s h = append-IsSpent id s.tokens _ h

  usable_row-IsSpent :
      (id now : ℕ) (o : Option (ℕ × RefreshToken)) (s : Accounts)
      → IsSpent id s.tokens
      → IsSpent id (usable_row c now o s).1.tokens
  unfolding usable_row revoke_family
  usable_row-IsSpent id now none s h = h
  usable_row-IsSpent id now (some (j, t)) s h =
      ground (arith, revoke_where-IsSpent id (λ r. r.1.user_id == t.user_id) now s.tokens h)

  rotate-IsSpent :
      (id j user_id : ℕ) (draw : Draw) (s : Accounts)
      → IsSpent id s.tokens
      → IsSpent id (rotate c j user_id draw s).1.tokens
  unfolding rotate issue_refresh_token
  rotate-IsSpent id j user_id draw s h =
      let k = revoke_where-IsSpent id (λ r. r.0 == j) draw.now s.tokens h in
      elim (Bool-cases (rotates (find_row j s.tokens))) [
        | inl e ↦ rw e (append-IsSpent id (revoke_where (λ r. r.0 == j) draw.now s.tokens) _ k)
        | inr e ↦ rw e k
      ]

  login_as-IsSpent :
      (id password : ℕ) (draw : Draw) (o : Option (ℕ × User)) (s : Accounts)
      → IsSpent id s.tokens
      → IsSpent id (login_as c password draw o s).1.tokens
  unfolding login_as
  login_as-IsSpent id password draw none s h = h
  login_as-IsSpent id password draw (some (j, u)) s h =
      elim (Bool-cases (c.verify_password u.password_hash password)) [
        | inl e ↦ rw e (issue-IsSpent id j draw s h)
        | inr e ↦ rw e h
      ]

  register-IsSpent :
      (id : ℕ) (email : List ℕ) (password : ℕ) (name project : List ℕ) (user_id project_id : ℕ)
      (draw : Draw) (s : Accounts)
      → IsSpent id s.tokens
      → IsSpent id (register c email password name project user_id project_id draw s).1.tokens
  unfolding register issue_refresh_token
  register-IsSpent id email password name project user_id project_id draw s h =
      elim (Bool-cases (is_some (user_of email s))) [
        | inl e ↦ rw e h
        | inr e ↦ rw e (append-IsSpent id s.tokens _ h)
      ]

  apply-IsSpent :
      (id : ℕ) (op : Operation) (s : Accounts)
      → IsSpent id s.tokens
      → IsSpent id (apply op s).tokens
  unfolding usable_token login logout
  apply-IsSpent id (reading none now) s h = h
  apply-IsSpent id (reading (some token) now) s h = usable_row-IsSpent id now _ s h
  apply-IsSpent id (rotating j user_id draw) s h = rotate-IsSpent id j user_id draw s h
  apply-IsSpent id (logging_in email password draw) s h = login_as-IsSpent id password draw _ s h
  apply-IsSpent id (registering email password name project user_id project_id draw) s h =
      register-IsSpent id email password name project user_id project_id draw s h
  apply-IsSpent id (logging_out none now) s h = h
  apply-IsSpent id (logging_out (some token) now) s h =
      revoke_where-IsSpent id (λ r. r.1.token_hash == c.hash token) now s.tokens h

  run-IsSpent :
      (id : ℕ) (ops : List Operation) (s : Accounts)
      → IsSpent id s.tokens
      → IsSpent id (run ops s).tokens
  run-IsSpent id [] s h = h
  run-IsSpent id (op ∷ ops) s h = run-IsSpent id ops (apply op s) (apply-IsSpent id op s h)

  abbrev pub IsGranted : {A : Type 0} → Answer A × Accounts → Type 0
  IsGranted (granted a, s) = Unit
  IsGranted (refused e, s) = ⊥

  rotates-is_some : (o : Option RefreshToken) → rotates o ≡ true → is_some o ≡ true
  rotates-is_some none h = cc
  rotates-is_some (some t) h = refl

  spent-rotates : (o : Option RefreshToken) → is_spent o ≡ true → rotates o ≡ false
  spent-rotates none h = cc
  spent-rotates (some t) h = ground arith

  rotate-spends :
      (id user_id : ℕ) (draw : Draw) (s : Accounts)
      → IsGranted (rotate c id user_id draw s)
      → IsSpent id (rotate c id user_id draw s).1.tokens
  unfolding rotate issue_refresh_token
  rotate-spends id user_id draw s h = elim (Bool-cases (rotates (find_row id s.tokens))) [
    | inl e ↦ rw e (
        append-IsSpent id (revoke_where (λ r. r.0 == id) draw.now s.tokens) _
          (revoked-IsSpent id draw.now s.tokens (rotates-is_some (find_row id s.tokens) e)))
    | inr e ↦ elim (rw e at h) [ ]
  ]

  rotate_refused :
      (id user_id : ℕ) (draw : Draw) (s : Accounts)
      → rotates (find_row id s.tokens) ≡ false
      → rotate c id user_id draw s
        ≡ (refused unauthorized, with_tokens (revoke_where (λ r. r.0 == id) draw.now s.tokens) s)
  unfolding rotate issue_refresh_token
  rotate_refused id user_id draw s e = rw e refl

  -- Whoever rotates a refresh token is the only one: once a rotation of it was granted a
  -- session, each later one of the same token is refused and issues nothing, whatever reads,
  -- rotations, logins, registrations and logouts come in between, those included that had found
  -- the token usable before.
  pub rotate-once :
      (id user_id : ℕ) (draw : Draw) (s : Accounts) (ops : List Operation) (later : Draw)
      → IsGranted (rotate c id user_id draw s)
      → let t = run ops (rotate c id user_id draw s).1 in
        rotate c id user_id later t
        ≡ (refused unauthorized, with_tokens (revoke_where (λ r. r.0 == id) later.now t.tokens) t)
  rotate-once id user_id draw s ops later h =
      let t = run ops (rotate c id user_id draw s).1 in
      let spent =
        run-IsSpent id ops (rotate c id user_id draw s).1 (rotate-spends id user_id draw s h) in
      rotate_refused id user_id later t (spent-rotates (find_row id t.tokens) spent)
