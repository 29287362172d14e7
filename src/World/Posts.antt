-- ===== src/World/Posts.antt =====
-- Partial correctness of the calls of World.antt under every list of faults: `Posts P m Q` says
-- that from a state in `P`, `m` throws or ends in a state in `Q`.
use hook_tracker.Prelude.{ℕ, ◌≡◌, refl, List, [], ◌∷◌, ◌++◌, Bool, true, false, if◌then◌else◌}
use hook_tracker.World.{
  World, M, Reply, returned, thrown, ◌>>=◌, pure, call_on, call, write, emit, Realtime, Error,
}

abbrev pub IfReturned : {A : Type 0} → Reply A → (A → World → Type 0) → Type 0
IfReturned (returned a w) Q = Q a w
IfReturned (thrown e w) Q = Unit

pub record Posts (P : World → Type 0) {A : Type 0} (m : M A) (Q : A → World → Type 0) : Type 0 where
  pub post : (w : World) → P w → IfReturned (m w) Q

IfReturned-then :
    {A B : Type 0} (r : Reply A) (f : A → M B) (R : A → World → Type 0) (Q : B → World → Type 0)
    → IfReturned r R
    → ((a : A) → Posts (R a) (f a) Q)
    → IfReturned (elim r [ returned a w ↦ f a w | thrown e w ↦ thrown e w ]) Q
IfReturned-then (returned a w) f R Q h k = (k a).post w h
IfReturned-then (thrown e w) f R Q h k = tt

pub Posts->>= :
    {A B : Type 0} {P : World → Type 0} {R : A → World → Type 0} {Q : B → World → Type 0} {m : M A}
    {f : A → M B}
    → Posts P m R
    → ((a : A) → Posts (R a) (f a) Q)
    → Posts P (m >>= f) Q
Posts->>= {P} {R} {Q} {m} {f} h k = record {
  post = λ w p. IfReturned-then (m w) f R Q (h.post w p) k;
}

pub Posts-pure :
    {A : Type 0} {P : World → Type 0} {Q : A → World → Type 0} {a : A}
    → ((w : World) → P w → Q a w)
    → Posts P (pure a) Q
Posts-pure h = record { post = h }

-- A predicate that looks neither at the faults nor at the log of the realtime channel.
pub record IsStable (P : World → Type 0) : Type 0 where
  pub on_faults : (w : World) (fs : List Bool) → P w → P (record w { faults = fs })
  pub on_emitted : (w : World) (es : List (ℕ × Realtime)) → P w → P (record w { emitted = es })

module _ {P : World → Type 0} (s : IsStable P) where
  Posts-call_on : (fs : List Bool) (w : World) → P w → IfReturned (call_on fs w) (λ _. P)
  unfolding call_on
  Posts-call_on [] w p = p
  Posts-call_on (false ∷ rest) w p = s.on_faults w rest p
  Posts-call_on (true ∷ rest) w p = tt

  pub Posts-call : Posts P call (λ _. P)
  unfolding call
  Posts-call = record { post = λ w p. Posts-call_on w.faults w p }

  emitted_call :
      (fs : List Bool) (project_id : ℕ) (event : Realtime) (w : World)
      → P w
      → IfReturned {A = Unit {0}}
          (elim (call_on fs w) [
            | returned _ w' ↦
                returned tt (record w' { emitted = w'.emitted ++ (project_id, event) ∷ [] })
            | thrown _ w' ↦ returned tt w'
          ])
          (λ _. P)
  unfolding call_on
  emitted_call [] project_id event w p = s.on_emitted w _ p
  emitted_call (false ∷ fs) project_id event w p = s.on_emitted _ _ (s.on_faults w fs p)
  emitted_call (true ∷ fs) project_id event w p = s.on_faults w fs p

  pub Posts-emit : (project_id : ℕ) (event : Realtime) → Posts P (emit project_id event) (λ _. P)
  unfolding emit call
  Posts-emit project_id event = record { post = λ w p. emitted_call w.faults project_id event w p }

-- Nothing is asked of the state before.
abbrev pub Anywhere : World → Type 0
Anywhere w = Unit {0}

written :
    (needs : World → Bool) (f : World → World) (Q : World → Type 0) (w : World) (b : Bool)
    → needs w ≡ b
    → ((w : World) → needs w ≡ true → Q (f w))
    → IfReturned {A = Unit {0}}
        (if b then returned tt (f w) else thrown Error.record_not_found w)
        (λ _. Q)
written needs f Q w true e h = h w e
written needs f Q w false e h = tt

pub Posts-write :
    (needs : World → Bool) (f : World → World) (Q : World → Type 0)
    → ((w : World) → needs w ≡ true → Q (f w))
    → Posts Anywhere (write needs f) (λ _. Q)
unfolding write
Posts-write needs f Q h =
    Posts->>= (Posts-call (record { on_faults = λ w fs p. tt; on_emitted = λ w es p. tt }))
      (λ _. record { post = λ w p. written needs f Q w (needs w) refl h })
