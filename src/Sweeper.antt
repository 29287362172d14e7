-- ===== src/Sweeper.antt =====
-- backend/src/jobs/stuck-sweeper.js: deliveries that were left IN_FLIGHT are returned to RETRYING
-- and published again. Times are milliseconds since the epoch, and `now` is not before the
-- threshold's length.
pub mod Recovery
use hook_tracker.Prelude.{
  ℕ, suc, zero, ◌+◌, ◌-◌, ◌*◌, ◌/◌, Bool, true, false, ◌&&◌, ◌||◌, List, [], ◌∷◌, Option, none,
  some, ltb, leb, if◌then◌else◌, keep, take, length,
}
use Prim.Native.Nat.{max}
use hook_tracker.Status.{is_in_flight, is_retrying, in_flight, retrying}
use hook_tracker.Store.{find_row, Delivery, recovered_by_sweeper}
use hook_tracker.World.{
  World, M, Reply, returned, thrown, pure, throw, Error, ◌>>=◌, ◌>>◌, call, query, with_delivery,
}
use hook_tracker.Publisher.{publish_delivery}

abbrev ms_per_minute : ℕ
ms_per_minute = 60_000

unfoldable pub stuck_cutoff : ℕ → ℕ → ℕ
stuck_cutoff now stuck_minutes = now - stuck_minutes * ms_per_minute

-- `Math.round(stuckMinutes * 60000 / 3)` is exact.
unfoldable pub sweep_interval_ms : ℕ → ℕ
sweep_interval_ms stuck_minutes = max ms_per_minute (stuck_minutes * ms_per_minute / 3)

-- The time that bounds how long a delivery has been in flight.
in_flight_since : Option ℕ → ℕ → ℕ
in_flight_since none created_at = created_at
in_flight_since (some next_attempt_at) created_at = next_attempt_at

-- `stuckDeliveryFilter`
unfoldable pub is_stuck : ℕ → Delivery → Bool
unfolding in_flight_since
is_stuck cutoff d =
    is_in_flight d.status && ltb (in_flight_since d.next_attempt_at d.created_at) cutoff

-- `orderBy: { createdAt: 'asc' }`
insert_by_created : ℕ × Delivery → List (ℕ × Delivery) → List (ℕ × Delivery)
insert_by_created r [] = r ∷ []
insert_by_created r (s ∷ rows) =
    if leb r.1.created_at s.1.created_at then r ∷ s ∷ rows else s ∷ insert_by_created r rows

unfoldable pub sort_by_created : List (ℕ × Delivery) → List (ℕ × Delivery)
unfolding insert_by_created
sort_by_created [] = []
sort_by_created (r ∷ rows) = insert_by_created r (sort_by_created rows)

unfoldable pub stuck_batch : ℕ → ℕ → World → List (ℕ × Delivery)
unfolding sort_by_created
stuck_batch cutoff batch_size w =
    take batch_size (sort_by_created (keep (λ r. is_stuck cutoff r.1) w.deliveries))

-- The condition of an `updateMany`, and the rows that it matches: one or none.
has_status : (Delivery → Bool) → Option Delivery → Bool
has_status test none = false
has_status test (some d) = test d

update_where : (Delivery → Bool) → ℕ → (Delivery → Delivery) → M Bool
unfolding has_status
update_where test id f = call >>= λ _ w.
    let matched = has_status test (find_row id w.deliveries) in
    returned matched (if matched then with_delivery id f w else w)

claim : ℕ → M Bool
unfolding update_where
claim id =
    update_where (λ d. is_in_flight d.status) id
      (λ d. record d { status = retrying; last_error = some recovered_by_sweeper })

release : ℕ → M Bool
unfolding update_where
release id = update_where (λ d. is_retrying d.status) id (λ d. record d { status = in_flight })

-- `catch`: put the row back, then throw the same error.
release_after : ℕ → Reply (Unit {0}) → Reply Bool
unfolding release
release_after id (returned _ w) = returned true w
release_after id (thrown error w) = (release id >>= λ _. throw error) w

publish_or_release : ℕ → ℕ → Bool → M Bool
unfolding release_after
publish_or_release id attempt false w = returned false w
publish_or_release id attempt true w = release_after id (publish_delivery id attempt w)

unfoldable pub recover : ℕ → Delivery → M Bool
unfolding claim publish_or_release
recover id d = claim id >>= publish_or_release id (suc d.attempt_count)

abbrev count_if : Bool → ℕ → ℕ
count_if true n = suc n
count_if false n = n

unfoldable pub recover_all : List (ℕ × Delivery) → ℕ → M ℕ
recover_all [] recovered = pure recovered
recover_all ((id, d) ∷ rows) recovered =
    recover id d >>= λ done. recover_all rows (count_if done recovered)

-- How many rows were examined, and how many recovered.
unfoldable pub run_stuck_sweep : ℕ → ℕ → ℕ → M (ℕ × ℕ)
run_stuck_sweep now stuck_minutes batch_size = do
  stuck ← query (stuck_batch (stuck_cutoff now stuck_minutes) batch_size)
  recovered ← recover_all stuck 0
  pure (length stuck, recovered)
