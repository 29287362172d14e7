-- ===== src/System/Reachable.antt =====
-- Nothing is lost in any run of the processes (all of backend/src/worker, backend/src/jobs and the
-- publishing side of backend/src/api).
use hook_tracker.Prelude.{
  ℕ, ◌≡◌, refl, ap, ◌∙◌, subst, sym, Bool, ◌&&◌, ◌||◌, ◌⊎◌, inl, inr, List, [], ◌∷◌, ◌++◌, true,
  false, none, some, any, any-append, ◌==◌, ==_iff, arith, Bool-cases,
}
use hook_tracker.Store.{find_row, find_row-append, Delivery}
use hook_tracker.World.{
  World, world, Message, Place, delivery_queue, retry_queue, throttle_queue, dead_letter_queue,
}
use hook_tracker.Carried.{IsCarried, has_message, carries, is_live, is_carried}
use hook_tracker.Consumer.{consume}
use hook_tracker.Consumer.Losses.{consume-IsCarried, consume-IsCarried_others, fails_again}
use hook_tracker.Worker.{handle_delivery}
use hook_tracker.Sweeper.Recovery.{recover-IsCarried, recover-IsCarried_others}
use hook_tracker.Sweeper.{recover}
use hook_tracker.Publishing.Behaviour.{publish_event-IsCarried}
use hook_tracker.Exchange.{Env}
use hook_tracker.Authorization.{Membership}
use hook_tracker.Worker.Settled.{message}
use hook_tracker.Replay.{replay, replay_of}
use hook_tracker.Replay.Answers.{IsUnknown, IsForeign, Conflicts, Accepts, replayed, replay_cases}
use hook_tracker.System.{
  Step, consuming, expiring, dropping, sweeping, publishing, replaying, breaking, Steps, here, next,
  with_queue, dead_letters_to,
}

first_is_false : (a b : Bool) → a || b ≡ false → a ≡ false
first_is_false a b h = ground arith

last_is_false : (a b : Bool) → a || b ≡ false → b ≡ false
last_is_false a b h = ground arith

taken_message :
    (id : ℕ) (m : Message) (before after : List Message)
    → carries id m ≡ false
    → any (carries id) (before ++ m ∷ after) ≡ any (carries id) (before ++ after)
taken_message id m before after h =
    rw (any-append (carries id) before (m ∷ after), any-append (carries id) before after, h) refl

taken-IsCarried :
    (id : ℕ) (m : Message) (before after : List Message) (w : World)
    → w.queue ≡ before ++ m ∷ after
    → carries id m ≡ false
    → IsCarried id w
    → IsCarried id (with_queue (before ++ after) w)
unfolding has_message
taken-IsCarried id m before after w q h c =
    subst (λ b. is_carried (find_row id w.deliveries) b ≡ true)
      (ap (any (carries id)) q ∙ taken_message id m before after h) c

live_target :
    (p to : Place) → dead_letters_to p ≡ some to → (is_live p ≡ true) × (is_live to ≡ true)
live_target delivery_queue to h = cc
live_target (retry_queue level) to h = ground arith
live_target throttle_queue to h = ground arith
live_target dead_letter_queue to h = cc

moved_message :
    (id : ℕ) (m : Message) (to : Place) (before after : List Message)
    → (is_live m.place ≡ true) × (is_live to ≡ true)
    → any (carries id) (before ++ m ∷ after)
      ≡ any (carries id) ((before ++ after) ++ record m { place = to } ∷ [])
moved_message id m to before after h = ground (
  arith,
  any-append (carries id) before (m ∷ after),
  any-append (carries id) before after,
  any-append (carries id) (before ++ after) (record m { place = to } ∷ []),
)

moved-IsCarried :
    (id : ℕ) (m : Message) (to : Place) (before after : List Message) (w : World)
    → w.queue ≡ before ++ m ∷ after
    → dead_letters_to m.place ≡ some to
    → IsCarried id w
    → IsCarried id (with_queue ((before ++ after) ++ record m { place = to } ∷ []) w)
unfolding has_message
moved-IsCarried id m to before after w q h c =
    subst (λ b. is_carried (find_row id w.deliveries) b ≡ true)
      (ap (any (carries id)) q ∙ moved_message id m to before after (live_target m.place to h)) c

replayed-IsCarried :
    (id new_id original : ℕ) (d : Delivery) (now : ℕ) (w : World)
    → IsCarried id w
    → IsCarried id (replayed new_id original (replay_of original d now) w)
unfolding has_message find_row
replayed-IsCarried id new_id original d now w c = ground (
  arith,
  find_row-append id w.deliveries ((new_id, replay_of original d now) ∷ []),
  any-append (carries id) w.queue (message new_id 1 delivery_queue none ∷ []),
)

replay-IsCarried :
    (id : ℕ) (auth : List Membership) (original new_id now : ℕ) (w : World)
    → IsUnknown auth original new_id now w
      ⊎ (IsForeign auth original new_id now w
          ⊎ (Conflicts auth original new_id now w ⊎ Accepts auth original new_id now w))
    → IsCarried id w
    → IsCarried id (world (replay auth original new_id now w))
replay-IsCarried id auth original new_id now w (inl r) c = rw (r.result) c
replay-IsCarried id auth original new_id now w (inr (inl r)) c = rw (r.result) c
replay-IsCarried id auth original new_id now w (inr (inr (inl r))) c = rw (r.result) c
replay-IsCarried id auth original new_id now w (inr (inr (inr r))) c =
    rw (r.result) (replayed-IsCarried id new_id original r.row now w c)

-- The message of this delivery fails for the second time in this step, or in some step of a run.
abbrev gives_up_on : {v w : World} → ℕ → Step v w → Bool
gives_up_on id (consuming e m before after w q place) =
    m.delivery_id == id
    && fails_again m (handle_delivery e m.delivery_id m.attempt (with_queue (before ++ after) w))
gives_up_on id (expiring m to before after w q h) = false
gives_up_on id (dropping m before after w q dead) = false
gives_up_on id (sweeping j d w sparse) = false
gives_up_on id (publishing r event_id ids now w nf) = false
gives_up_on id (replaying auth original new_id now w nf joins) = false
gives_up_on id (breaking faults w) = false

unfoldable pub gave_up_on : {v w : World} → ℕ → Steps v w → Bool
gave_up_on id here = false
gave_up_on id (next steps step) = gave_up_on id steps || gives_up_on id step

consumed-IsCarried :
    (id : ℕ) (e : Env) (m : Message) (before after : List Message) (w : World)
    → w.queue ≡ before ++ m ∷ after
    → m.delivery_id == id
        && fails_again m
            (handle_delivery e m.delivery_id m.attempt (with_queue (before ++ after) w))
      ≡ false
    → IsCarried id w
    → IsCarried id (consume e m (with_queue (before ++ after) w))
consumed-IsCarried id e m before after w q once c = elim (Bool-cases (m.delivery_id == id)) [
  | inl e' ↦
      subst (λ j. IsCarried j (consume e m (with_queue (before ++ after) w)))
        ((==_iff m.delivery_id id).0 e') (consume-IsCarried e m _ (rw e' at once))
  | inr e' ↦
      consume-IsCarried_others e m id _ (λ k. ground arith)
        (taken-IsCarried id m before after w q (ground arith) c)
]

Step-IsCarried :
    (id : ℕ) {v w : World} (step : Step v w)
    → gives_up_on id step ≡ false
    → IsCarried id v
    → IsCarried id w
unfolding has_message
Step-IsCarried id (consuming e m before after w q place) once c =
    consumed-IsCarried id e m before after w q once c
Step-IsCarried id (expiring m to before after w q h) once c =
    moved-IsCarried id m to before after w q h c
Step-IsCarried id (dropping m before after w q dead) once c =
    taken-IsCarried id m before after w q (ground arith) c
Step-IsCarried id (sweeping j d w sparse) once c = elim (Bool-cases (j == id)) [
  | inl e ↦
      subst (λ k. IsCarried k (world (recover j d w))) ((==_iff j id).0 e)
        (recover-IsCarried j d w sparse (subst (λ k. IsCarried k w) (sym ((==_iff j id).0 e)) c))
  | inr e ↦ recover-IsCarried_others j id d w e c
]
Step-IsCarried id (publishing r event_id ids now w nf) once c =
    publish_event-IsCarried id r event_id ids now w nf c
Step-IsCarried id (replaying auth original new_id now w nf joins) once c =
    replay-IsCarried id auth original new_id now w
      (replay_cases auth original new_id now w nf joins) c
Step-IsCarried id (breaking faults w) once c = c

-- A delivery that is carried, or that is not there yet, is carried at the end of every run of
-- workers, broker, sweeps, publishes and replays, in any order, unless a message of it that was
-- redelivered fails again in the run: it has finished, or a message on its way to a worker carries
-- it, or it is IN_FLIGHT, where a sweep finds it. Workers take new messages and redelivered ones
-- alike, and any of their calls may fail; of a sweep, no two calls in a row; of a publish or a
-- replay, none. A row that is replayed has its event.
pub Steps-IsCarried :
    (id : ℕ) {v w : World} (steps : Steps v w)
    → gave_up_on id steps ≡ false
    → IsCarried id v
    → IsCarried id w
unfolding gave_up_on
Steps-IsCarried id here spared c = c
Steps-IsCarried id (next steps step) spared c =
    Step-IsCarried id step (last_is_false (gave_up_on id steps) (gives_up_on id step) spared) (
      Steps-IsCarried id steps (first_is_false (gave_up_on id steps) (gives_up_on id step) spared)
        c)
