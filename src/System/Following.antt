-- ===== src/System/Following.antt =====
-- The messages of one delivery on their way from worker to worker
-- (backend/src/worker/worker.js, backend/src/shared/queue/topology.js).
use hook_tracker.Prelude.{
  ℕ, ◌+◌, ◌≡◌, refl, subst, inl, inr, List, [], ◌∷◌, ◌++◌, Option, none, some, Bool, true, arith,
  keep, if◌then◌else◌, Bool-cases,
}
use hook_tracker.World.{World, Reply, returned, Message, Place}
use hook_tracker.Exchange.{Env, Outcome, throttled}
use hook_tracker.Carried.{carries}
use hook_tracker.Consumer.{settle}
use hook_tracker.System.{with_queue, dead_letters_to}
use hook_tracker.Worker.{handle_delivery}

-- No call fails while the message is handled.
abbrev pub no_faults : World → World
no_faults w = record w { faults = [] }

abbrev pub put_back : Message → Option (Message × List Message) → Option (Message × List Message)
put_back m none = none
put_back m (some (found, others)) = some (found, m ∷ others)

-- The first message of a delivery that is on its way to a worker, and the others.
abbrev pub take_live : ℕ → List Message → Option (Message × List Message)
take_live id [] = none
take_live id (m ∷ q) = if carries id m then some (m, q) else put_back m (take_live id q)

-- The message where its time in its queue is up.
abbrev pub arrived_at : Message → Option Place → Message
arrived_at m none = m
arrived_at m (some to) = record m { place = to }

abbrev pub arrived : Message → Message
arrived m = arrived_at m (dead_letters_to m.place)

abbrev pub parks : Reply Outcome → ℕ
parks (returned throttled w) = 1
parks _ = 0

-- The worker that gets a message, and `k` from the state that it leaves; nothing happens where
-- there is no message.
abbrev pub give : (World → ℕ × World) → Env → World → Option (Message × List Message) → ℕ × World
give k e w none = (0, w)
give k e w (some (m, rest)) =
    let reply =
      handle_delivery e (arrived m).delivery_id (arrived m).attempt
        (with_queue rest (no_faults w)) in
    let (parked, after) = k (settle (arrived m) reply) in (parks reply + parked, after)

-- The workers that get the messages of a delivery from the queue, one after another, each with its
-- own times, its receiver's answer and so on: how often it was parked for want of a token, and the
-- state in the end.
unfoldable pub follow : ℕ → List Env → World → ℕ × World
follow id [] w = (0, w)
follow id (e ∷ es) w = give (follow id es) e w (take_live id w.queue)

-- One message of the delivery is on its way, with this attempt.
pub record IsAlone (id n : ℕ) (w : World) : Type 0 where
  pub message : Message
  pub only : keep (carries id) w.queue ≡ message ∷ []
  pub numbered : message.attempt ≡ n

pub keep-append :
    (p : Message → Bool) (xs ys : List Message) → keep p (xs ++ ys) ≡ keep p xs ++ keep p ys
keep-append p [] ys = refl
keep-append p (x ∷ xs) ys = elim (Bool-cases (p x)) [
  | inl e ↦ rw (e, keep-append p xs ys) refl
  | inr e ↦ rw (e, keep-append p xs ys) refl
]

pub take_live-none : (id : ℕ) (q : List Message) → keep (carries id) q ≡ [] → take_live id q ≡ none
take_live-none id [] h = refl
take_live-none id (m ∷ q) h = elim (Bool-cases (carries id m)) [
  | inl own ↦ cc (rw own at h)
  | inr other ↦ rw (other, take_live-none id q (rw other at h)) refl
]

pub take_live-some :
    (id : ℕ) (q : List Message) (m : Message)
    → keep (carries id) q ≡ m ∷ []
    → (rest : List Message) × (take_live id q ≡ some (m, rest))
      × (keep (carries id) rest ≡ [])
      × (carries id m ≡ true)
take_live-some id [] m h = cc
take_live-some id (x ∷ q) m h = elim (Bool-cases (carries id x)) [
  | inl own ↦
      let same : x ∷ keep (carries id) q ≡ m ∷ [] = rw own at h in
      let head : x ≡ m = cc in
      (q, rw (own, head) refl, cc, subst (λ y. carries id y ≡ true) head own)
  | inr other ↦
      let (rest, found, none_left, is_own) = take_live-some id q m (rw other at h) in
      (x ∷ rest, rw (other, found) refl, rw other none_left, is_own)
]

-- A message keeps its delivery and its attempt on the way.
pub arrived-same :
    (m : Message) (to : Option Place)
    → ((arrived_at m to).delivery_id ≡ m.delivery_id) × ((arrived_at m to).attempt ≡ m.attempt)
arrived-same m none = (refl, refl)
arrived-same m (some to) = (refl, refl)

pub carried_id : (id : ℕ) (m : Message) → carries id m ≡ true → m.delivery_id ≡ id
carried_id id m own = ground arith

pub follow-stops :
    (id : ℕ) (es : List Env) (v : World) → keep (carries id) v.queue ≡ [] → follow id es v ≡ (0, v)
unfolding follow
follow-stops id [] v h = refl
follow-stops id (e ∷ es) v h = rw (take_live-none id v.queue h) refl
