-- ===== src/Replay.antt =====
-- `replay` and `bulkReplay` of backend/src/api/services/delivery-service.js. The filters of a bulk
-- replay are a test on a row; the ids that `newId` makes are arguments.
pub mod Originals
pub mod Answers
use hook_tracker.Prelude.{
  ℕ, suc, zero, ◌+◌, Bool, true, false, ◌&&◌, List, [], ◌∷◌, ◌++◌, Option, none, some, keep, take,
  length, or_else, if◌then◌else◌, leb, ◌==◌,
}
use Prim.Native.Nat.{min}
use hook_tracker.Status.{pending, is_replayable}
use hook_tracker.Store.{find_row, Delivery, Event}
use hook_tracker.World.{
  World, M, Reply, returned, thrown, pure, throw, Error, conflict, no_such_delivery, inconsistent,
  ◌>>=◌, ◌>>◌, call, query, write,
}
use hook_tracker.Publisher.{publish_delivery}
use hook_tracker.Publishing.{publish_all}
use hook_tracker.Authorization.{Membership, member, assert_membership}

-- `findUnique` with the event.
joined : Delivery → Option Event → World → Reply (Option (Delivery × Event))
joined d none w = thrown inconsistent w
joined d (some ev) w = returned (some (d, ev)) w

find_delivery : Option Delivery → World → Reply (Option (Delivery × Event))
unfolding joined
find_delivery none w = returned none w
find_delivery (some d) w = joined d (find_row d.event_id w.events) w

allowed : Option Error → Delivery → M Delivery
allowed none d = pure d
allowed (some e) d = throw e

authorised : List Membership → Option (Delivery × Event) → M Delivery
unfolding allowed
authorised auth none = throw no_such_delivery
authorised auth (some (d, ev)) = allowed (assert_membership auth ev.project_id member) d

unfoldable pub load_for_caller : List Membership → ℕ → M Delivery
unfolding find_delivery authorised
load_for_caller auth id =
    (call >>= λ _ w. find_delivery (find_row id w.deliveries) w) >>= authorised auth

abbrev pub replay_of : ℕ → Delivery → ℕ → Delivery
replay_of original_id original now = record {
  event_id = original.event_id;
  endpoint_id = original.endpoint_id;
  status = pending;
  attempt_count = 0;
  next_attempt_at = none;
  last_error = none;
  completed_at = none;
  replayed_from_id = some original_id;
  created_at = now;
}

unfoldable pub create_replay : ℕ → ℕ → ℕ → Delivery → M Delivery
create_replay id new_id now original =
    if is_replayable original.status
    then (do
      write (λ w. true)
          (λ w. record w { deliveries = w.deliveries ++ (new_id, replay_of id original now) ∷ [] })
      publish_delivery new_id 1
      pure (replay_of id original now))
    else throw conflict

unfoldable pub replay : List Membership → ℕ → ℕ → ℕ → M Delivery
replay auth id new_id now = load_for_caller auth id >>= create_replay id new_id now

unfoldable pub replays : (ℕ → ℕ) → ℕ → ℕ → List (ℕ × Delivery) → List (ℕ × Delivery)
replays new_ids i now [] = []
replays new_ids i now ((id, d) ∷ rows) =
    (new_ids i, replay_of id d now) ∷ replays new_ids (suc i) now rows

-- The order of the rows is the database's, newest first; `matching` are the rows in that order.
abbrev pub bulk_limit : Option ℕ → ℕ → ℕ
bulk_limit asked most = min (or_else asked most) most

create_many : List (ℕ × Delivery) → M (Unit {0})
create_many [] = pure tt
create_many (r ∷ rows) = write (λ w. true) (λ w. record w { deliveries = w.deliveries ++ r ∷ rows })

pub record BulkReplay : Type 0 where
  pub matched : ℕ
  pub replayed : ℕ
  pub capped_at : ℕ

unfoldable pub bulk_replay :
    (World → List (ℕ × Delivery)) → Option ℕ → ℕ → (ℕ → ℕ) → ℕ → M BulkReplay
unfolding create_many
bulk_replay matching asked most new_ids now = do
  let limit = bulk_limit asked most
  originals ← query (λ w. take limit (matching w))
  let rows = replays new_ids 0 now (keep (λ r. is_replayable r.1.status) originals)
  create_many rows
  publish_all rows
  pure (record { matched = length originals; replayed = length rows; capped_at = limit })
