-- ===== src/World/Runs.antt =====
-- Reasoning about the calls of World.antt under every list of faults. `Runs R m` says that `m`
-- takes each state into a related one, whether it returns or throws; for a preorder `R` it goes
-- through a `do` block step by step.
use hook_tracker.Prelude.{ℕ, List, [], ◌∷◌, ◌++◌, Bool, true, false, if◌then◌else◌}
use hook_tracker.World.{
  World, M, Reply, returned, thrown, world, ◌>>=◌, pure, throw, call_on, call, query, write, emit,
  Realtime, Error,
}

pub record Runs (R : World → World → Type 0) {A : Type 0} (m : M A) : Type 0 where
  pub run : (w : World) → R w (world (m w))

pub record IsPreorder (R : World → World → Type 0) : Type 0 where
  pub same : (w : World) → R w w
  pub after : {u v w : World} → R u v → R v w → R u w

module _ {R : World → World → Type 0} (p : IsPreorder R) where
  Runs-reply :
      {A B : Type 0} (f : A → M B) (w : World) (r : Reply A)
      → R w (world r)
      → ((a : A) → Runs R (f a))
      → R w (world {A = B} (elim r [ returned a w' ↦ f a w' | thrown e w' ↦ thrown e w' ]))
  Runs-reply f w (returned a w') h k = p.after h ((k a).run w')
  Runs-reply f w (thrown e w') h k = h

  pub Runs->>= :
      {A B : Type 0} (m : M A) (f : A → M B)
      → Runs R m
      → ((a : A) → Runs R (f a))
      → Runs R (m >>= f)
  Runs->>= m f h k = record { run = λ w. Runs-reply f w (m w) (h.run w) k }

  pub Runs-pure : {A : Type 0} (a : A) → Runs R (pure a)
  Runs-pure a = record { run = λ w. p.same w }

  pub Runs-throw : (A : Type 0) (e : Error) → Runs R (throw {A = A} e)
  Runs-throw A e = record { run = λ w. p.same w }

-- A relation that does not look at the faults, nor at the log of the realtime channel.
pub record IsQuiet (R : World → World → Type 0) : Type 0 where
  pub preorder : IsPreorder R
  pub on_faults : (w : World) (fs : List Bool) → R w (record w { faults = fs })
  pub on_emitted : (w : World) (es : List (ℕ × Realtime)) → R w (record w { emitted = es })

module _ {R : World → World → Type 0} (q : IsQuiet R) where
  Runs-call_on : (fs : List Bool) (w : World) → R w (world (call_on fs w))
  unfolding call_on
  Runs-call_on [] w = q.preorder.same w
  Runs-call_on (false ∷ rest) w = q.on_faults w rest
  Runs-call_on (true ∷ rest) w = q.on_faults w rest

  pub Runs-call : Runs R call
  unfolding call
  Runs-call = record { run = λ w. Runs-call_on w.faults w }

  pub Runs-query : {A : Type 0} (f : World → A) → Runs R (query f)
  unfolding query
  Runs-query f = Runs->>= q.preorder call _ Runs-call (λ _. record { run = λ w. q.preorder.same w })

  write_if :
      (b : Bool) (w w' : World)
      → R w w'
      → R w (world {A = Unit {0}} (if b then returned tt w' else thrown Error.record_not_found w))
  write_if true w w' h = h
  write_if false w w' h = q.preorder.same w

  pub Runs-write :
      (needs : World → Bool) (f : World → World)
      → ((w : World) → R w (f w))
      → Runs R (write needs f)
  unfolding write
  Runs-write needs f h =
      Runs->>= q.preorder call _ Runs-call
        (λ _. record { run = λ w. write_if (needs w) w (f w) (h w) })

  pub Runs-emit : (project_id : ℕ) (event : Realtime) → Runs R (emit project_id event)
  unfolding emit
  Runs-emit project_id event = record { run = λ w. logged w (call w) (Runs-call.run w) }
    where
      logged :
          (w : World) (r : Reply (Unit {0}))
          → R w (world r)
          → R w (
              world {A = Unit {0}} (elim r [
                | returned _ w' ↦
                    returned tt (record w' { emitted = w'.emitted ++ (project_id, event) ∷ [] })
                | thrown _ w' ↦ returned tt w'
              ]))
      logged w (returned _ w') h = q.preorder.after h (q.on_emitted w' _)
      logged w (thrown _ w') h = h
