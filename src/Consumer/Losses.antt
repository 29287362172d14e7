-- ===== src/Consumer/Losses.antt =====
-- Which deliveries a consumed message can lose (backend/src/worker/worker.js).
use hook_tracker.Prelude.{
  ℕ, ◌≡◌, ◌≢◌, refl, ◌∙◌, ap, List, [], ◌∷◌, ◌++◌, append_assoc, append-nil, some, Bool, true,
  false, ◌&&◌, arith, Bool-cases, inl, inr, ==_refl,
}
use hook_tracker.Status.{is_terminal, is_in_flight}
use hook_tracker.Store.{find_row, Delivery}
use hook_tracker.World.{
  World, world, Reply, returned, thrown, Message, delivery_queue, call, is_thrown,
}
use hook_tracker.World.Posts.{IfReturned}
use hook_tracker.Exchange.{Env, Outcome}
use hook_tracker.Worker.{handle_delivery, load}
use hook_tracker.Worker.Audit.{handle_delivery-Extends}
use hook_tracker.Worker.Carried.{handle_delivery-Posts}
use hook_tracker.Carried.{
  IsCarried, has_message, HasMessage-IsCarried, HasMessage-with_message, IsCarried-grows,
}
use hook_tracker.Consumer.{settle, consume}

-- The second failure of a message: it is acknowledged all the same.
abbrev pub fails_again : Message → Reply Outcome → Bool
fails_again m r = m.redelivered && is_thrown r

settle-IsCarried :
    (m : Message) (r : Reply Outcome)
    → fails_again m r ≡ false
    → IfReturned r (λ _. IsCarried m.delivery_id)
    → IsCarried m.delivery_id (settle m r)
unfolding settle
settle-IsCarried m (returned o w) first h = h
settle-IsCarried m (thrown e w) first h = elim (Bool-cases m.redelivered) [
  | inl second ↦ cc (rw second at first)
  | inr fresh ↦ rw fresh (
      HasMessage-IsCarried m.delivery_id _
        (HasMessage-with_message m.delivery_id _ w (ground (arith, ==_refl m.delivery_id))))
]

-- A message leaves its delivery carried, whatever the state and whichever calls fail, unless it
-- fails for the second time.
pub consume-IsCarried :
    (e : Env) (m : Message) (w : World)
    → fails_again m (handle_delivery e m.delivery_id m.attempt w) ≡ false
    → IsCarried m.delivery_id (consume e m w)
unfolding consume
consume-IsCarried e m w first =
    settle-IsCarried m (handle_delivery e m.delivery_id m.attempt w) first
      ((handle_delivery-Posts e m.delivery_id m.attempt).post w tt)

settle-queue :
    (m : Message) (r : Reply Outcome)
    → (more : List Message) × ((settle m r).queue ≡ (world r).queue ++ more)
      × ((settle m r).deliveries ≡ (world r).deliveries)
unfolding settle
settle-queue m (returned o w) = ([], ground (arith, append-nil w.queue), refl)
settle-queue m (thrown e w) = elim (Bool-cases m.redelivered) [
  | inl second ↦ ([], rw second (ground (arith, append-nil w.queue)), rw second)
  | inr first ↦ (record m { place = delivery_queue; redelivered = true } ∷ [], rw first, rw first)
]

-- No message makes another delivery lose what carries it.
pub consume-IsCarried_others :
    (e : Env) (m : Message) (j : ℕ) (w : World)
    → j ≢ m.delivery_id
    → IsCarried j w
    → IsCarried j (consume e m w)
unfolding consume
consume-IsCarried_others e m j w other h =
    let r = handle_delivery e m.delivery_id m.attempt w in
    let trail = handle_delivery-Extends e m.delivery_id m.attempt w in
    let (more, grown, rows) = settle-queue m r in
    IsCarried-grows j w (settle m r) (trail.messages ++ more)
      (ap (find_row j) rows ∙ trail.others_same j other)
      (grown ∙ ap (λ q. q ++ more) trail.queue_grows ∙ append_assoc w.queue trail.messages more) h

-- A message that was redelivered and whose first database call fails is acknowledged with its
-- delivery as it was. If that was PENDING or RETRYING and no other message carries it, nothing
-- carries it in the state that is left: the row is not IN_FLIGHT, where the stuck sweeper would find it.
pub consume_loses :
    (e : Env) (m : Message) (d : Delivery) (w : World) (rest : List Bool)
    → m.redelivered ≡ true
    → w.faults ≡ true ∷ rest
    → find_row m.delivery_id w.deliveries ≡ some d
    → is_terminal d.status ≡ false
    → is_in_flight d.status ≡ false
    → has_message m.delivery_id w ≡ false
    → (find_row m.delivery_id (consume e m w).deliveries ≡ some d)
      × (has_message m.delivery_id (consume e m w) ≡ false)
      × ¬ IsCarried m.delivery_id (consume e m w)
unfolding consume settle handle_delivery load call has_message
consume_loses e m d w rest second down found open_row idle alone =
    (ground arith, ground arith, λ h. ground arith)
