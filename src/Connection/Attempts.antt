-- ===== src/Connection/Attempts.antt =====
-- How often and how long a process waits for the broker
-- (backend/src/shared/queue/connection.js).
use hook_tracker.Prelude.{
  ℕ, zero, suc, ◌≤◌, ◌≡◌, refl, sym, subst, ap, ◌⊎◌, inl, inr, List, [], ◌∷◌, Bool, true, false,
  arith, Bool-cases,
}
use hook_tracker.Connection.{
  Backoff, Connected, connection_of, last_error, waited, connect_from, connect_with_retry, delay_ms,
  rounds,
}

-- The waits after an attempt, in their order: of the attempts from `attempt` on.
abbrev pub delays : Backoff → ℕ → ℕ → List ℕ
delays b attempt zero = []
delays b attempt (suc n) = delay_ms b attempt ∷ delays b (suc attempt) n

-- The first attempt that is accepted, with all before it refused; or none is.
abbrev pub Refused : (ℕ → Bool) → ℕ → ℕ → Type 0
Refused accepts attempt zero = Unit
Refused accepts attempt (suc n) = (accepts attempt ≡ false) × Refused accepts (suc attempt) n

-- The attempt that comes `n` after one.
abbrev pub later : ℕ → ℕ → ℕ
later attempt zero = attempt
later attempt (suc n) = later (suc attempt) n

abbrev pub Ends : (ℕ → Bool) → Backoff → ℕ → ℕ → Connected × List ℕ → Type 0
Ends accepts b attempt left r =
    ((n : ℕ) × (n ≤ left)
      × (r ≡ (connection_of (later attempt n), delays b attempt n))
      × Refused accepts attempt n
      × (accepts (later attempt n) ≡ true))
    ⊎ ((r ≡ (last_error (later attempt left), delays b attempt left))
        × Refused accepts attempt (suc left))

Ends-later :
    (accepts : ℕ → Bool) (b : Backoff) (attempt left : ℕ) (r : Connected × List ℕ)
    → accepts attempt ≡ false
    → Ends accepts b (suc attempt) left r
    → Ends accepts b attempt (suc left) (waited (delay_ms b attempt) r)
Ends-later accepts b attempt left r bad (inl (n, le, e, refused, ok)) =
    inl (suc n, omega (arith, le), ap (waited (delay_ms b attempt)) e, (bad, refused), ok)
Ends-later accepts b attempt left r bad (inr (e, refused)) =
    inr (ap (waited (delay_ms b attempt)) e, (bad, refused))

refused_step :
    (accepts : ℕ → Bool) (b : Backoff) (attempt left : ℕ)
    → accepts attempt ≡ false
    → connect_from accepts b attempt (suc left)
      ≡ waited (delay_ms b attempt) (connect_from accepts b (suc attempt) left)
unfolding connect_from
refused_step accepts b attempt left bad = rw bad refl

connect_from-Ends :
    (accepts : ℕ → Bool) (b : Backoff) (attempt left : ℕ)
    → Ends accepts b attempt left (connect_from accepts b attempt left)
unfolding connect_from
connect_from-Ends accepts b attempt zero = elim (Bool-cases (accepts attempt)) [
  | inl ok ↦ inl (0, omega arith, rw ok refl, tt, ok)
  | inr bad ↦ inr (rw bad refl, (bad, tt))
]
connect_from-Ends accepts b attempt (suc left) = elim (Bool-cases (accepts attempt)) [
  | inl ok ↦ inl (0, omega arith, rw ok refl, tt, ok)
  | inr bad ↦
      subst (λ r. Ends accepts b attempt (suc left) r)
        (sym (refused_step accepts b attempt left bad))
        (Ends-later accepts b attempt left _ bad (connect_from-Ends accepts b (suc attempt) left))
]

-- Whatever the broker does, the loop of at least one attempt comes to an end: with the connection
-- of the first attempt that the broker accepts, after a wait for each refused attempt before it; or
-- with the error of the last attempt, when all are refused, and with no wait after it.
pub connect_with_retry-Ends :
    (accepts : ℕ → Bool) (b : Backoff) (left : ℕ)
    → b.attempts ≡ suc left
    → Ends accepts b 1 left (connect_with_retry accepts b)
unfolding connect_with_retry rounds
connect_with_retry-Ends accepts b left h = rw h (connect_from-Ends accepts b 1 left)
