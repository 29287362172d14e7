-- ===== src/Carried.antt =====
-- What keeps a delivery from being lost: it has finished, or a message on its way to a worker
-- carries it, or it is IN_FLIGHT, where the stuck sweeper looks for it
-- (backend/src/jobs/stuck-sweeper.js).
use hook_tracker.Prelude.{
  ℕ, ◌≡◌, List, [], ◌∷◌, ◌++◌, Option, none, some, Bool, true, false, ◌&&◌, ◌||◌, ◌==◌, any,
  any-append, arith, Bool-cases, inl, inr,
}
use hook_tracker.Status.{is_terminal, is_in_flight}
use hook_tracker.Store.{find_row, Delivery}
use hook_tracker.World.{
  World, Message, Place, delivery_queue, retry_queue, throttle_queue, dead_letter_queue,
  with_message,
}
use hook_tracker.World.Posts.{IsStable, Anywhere}

-- A dead letter is read by nobody.
abbrev pub is_live : Place → Bool
is_live delivery_queue = true
is_live (retry_queue level) = true
is_live throttle_queue = true
is_live dead_letter_queue = false

abbrev pub carries : ℕ → Message → Bool
carries id m = m.delivery_id == id && is_live m.place

unfoldable pub has_message : ℕ → World → Bool
has_message id w = any (carries id) w.queue

abbrev pub is_carried : Option Delivery → Bool → Bool
is_carried none waiting = true
is_carried (some d) waiting = is_terminal d.status || is_in_flight d.status || waiting

abbrev pub IsCarried : ℕ → World → Type 0
IsCarried id w = is_carried (find_row id w.deliveries) (has_message id w) ≡ true

-- The delivery is gone or has finished.
abbrev pub is_finished : Option Delivery → Bool
is_finished none = true
is_finished (some d) = is_terminal d.status

abbrev pub IsFinished : ℕ → World → Type 0
IsFinished id w = is_finished (find_row id w.deliveries) ≡ true

abbrev pub HasMessage : ℕ → World → Type 0
HasMessage id w = has_message id w ≡ true

pub IsFinished-IsCarried : (id : ℕ) (w : World) → IsFinished id w → IsCarried id w
IsFinished-IsCarried id w h = ground arith

pub HasMessage-IsCarried : (id : ℕ) (w : World) → HasMessage id w → IsCarried id w
HasMessage-IsCarried id w h = ground arith

pub HasMessage-with_message :
    (id : ℕ) (m : Message) (w : World) → carries id m ≡ true → HasMessage id (with_message m w)
unfolding has_message
HasMessage-with_message id m w h = ground (arith, any-append (carries id) w.queue (m ∷ []))

pub Anywhere-IsStable : IsStable Anywhere
Anywhere-IsStable = record { on_faults = λ w fs p. tt; on_emitted = λ w es p. tt }

-- Both look at the rows and the messages only.
module _ (id : ℕ) where
  pub IsFinished-IsStable : IsStable (IsFinished id)
  IsFinished-IsStable = record { on_faults = λ w fs p. p; on_emitted = λ w es p. p }

  pub HasMessage-IsStable : IsStable (HasMessage id)
  unfolding has_message
  HasMessage-IsStable = record { on_faults = λ w fs p. p; on_emitted = λ w es p. p }

-- Messages that are added leave a delivery carried, as long as its row stays.
pub HasMessage-grows :
    (id : ℕ) (w w' : World) (more : List Message)
    → w'.queue ≡ w.queue ++ more
    → HasMessage id w
    → HasMessage id w'
unfolding has_message
HasMessage-grows id w w' more grown h =
    rw grown (ground (arith, any-append (carries id) w.queue more))

pub IsCarried-grows :
    (id : ℕ) (w w' : World) (more : List Message)
    → find_row id w'.deliveries ≡ find_row id w.deliveries
    → w'.queue ≡ w.queue ++ more
    → IsCarried id w
    → IsCarried id w'
IsCarried-grows id w w' more rows grown h = elim (Bool-cases (has_message id w)) [
  | inl waiting ↦ HasMessage-IsCarried id w' (HasMessage-grows id w w' more grown waiting)
  | inr gone ↦ rw rows (ground arith)
]
