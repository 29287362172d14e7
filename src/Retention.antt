-- ===== src/Retention.antt =====
-- backend/src/jobs/retention.js: events older than a number of days are deleted in batches. The
-- foreign keys of backend/prisma/schema.prisma delete the deliveries of an event with it, and the
-- attempts of a delivery, and clear the references of replays to a delivery that goes.
pub mod Fresh
use hook_tracker.Prelude.{
  ℕ, suc, zero, ◌+◌, ◌-◌, ◌*◌, Bool, true, false, not, List, [], ◌∷◌, Option, none, some, any, keep,
  take, map, length, leb, ltb, ◌==◌, if◌then◌else◌,
}
use hook_tracker.Store.{Table, Delivery, Event, Attempt}
use hook_tracker.World.{World, M, returned, pure, ◌>>=◌, ◌>>◌, call}

abbrev pub ms_per_day : ℕ
ms_per_day = 86_400_000

abbrev pub default_batch_size : ℕ
default_batch_size = 500

abbrev pub default_max_batches : ℕ
default_max_batches = 20

unfoldable pub retention_cutoff : ℕ → ℕ → ℕ
retention_cutoff now retention_days = now - retention_days * ms_per_day

abbrev pub is_stale : ℕ → ℕ × Event → Bool
is_stale cutoff r = ltb r.1.received_at cutoff

-- `orderBy: { receivedAt: 'asc' }`
insert_by_received : ℕ × Event → Table Event → Table Event
insert_by_received r [] = r ∷ []
insert_by_received r (s ∷ rows) =
    if leb r.1.received_at s.1.received_at then r ∷ s ∷ rows else s ∷ insert_by_received r rows

sort_by_received : Table Event → Table Event
unfolding insert_by_received
sort_by_received [] = []
sort_by_received (r ∷ rows) = insert_by_received r (sort_by_received rows)

unfoldable pub stale_batch : ℕ → ℕ → World → Table Event
unfolding sort_by_received
stale_batch cutoff batch_size w =
    take batch_size (sort_by_received (keep (is_stale cutoff) w.events))

abbrev pub has_key {ℓ} : {A : Type ℓ} → ℕ → List (ℕ × A) → Bool
has_key k rows = any (λ r. r.0 == k) rows

abbrev pub cleared : Table Delivery → Option ℕ → Option ℕ
cleared gone none = none
cleared gone (some id) = if has_key id gone then none else some id

-- A delivery that stays, without a reference to one that goes.
abbrev pub detached : Table Delivery → ℕ × Delivery → ℕ × Delivery
detached gone (id, d) = (id, record d { replayed_from_id = cleared gone d.replayed_from_id })

unfoldable pub delete_events : Table Event → World → World
delete_events stale w =
    let gone = keep (λ r. has_key r.1.event_id stale) w.deliveries in
    record w {
      events = keep (λ r. not (has_key r.0 stale)) w.events;
      deliveries = map (detached gone) (keep (λ r. not (has_key r.1.event_id stale)) w.deliveries);
      attempts = keep (λ a. not (has_key a.delivery_id gone)) w.attempts;
    }

-- `deleteMany` counts the rows that it deleted.
unfoldable pub delete_selected : Table Event → M ℕ
delete_selected [] = pure 0
delete_selected (r ∷ rows) = call >>= λ _ w.
    returned (length (keep (λ s. has_key s.0 (r ∷ rows)) w.events)) (delete_events (r ∷ rows) w)

unfoldable pub delete_batch : ℕ → ℕ → M ℕ
delete_batch cutoff batch_size = call >>= λ _ w. delete_selected (stale_batch cutoff batch_size w) w

pub record Pass : Type 0 where
  pub cutoff : ℕ
  pub deleted : ℕ
  pub batches : ℕ

-- The loop, with the batches that are left.
unfoldable pub run_batches : ℕ → ℕ → ℕ → ℕ → ℕ → M Pass
run_batches zero cutoff batch_size deleted batches =
    pure (record { cutoff = cutoff; deleted = deleted; batches = batches })
run_batches (suc left) cutoff batch_size deleted batches =
    delete_batch cutoff batch_size >>= λ count. elim (ltb count batch_size) [
      | true ↦ pure (record { cutoff = cutoff; deleted = deleted + count; batches = suc batches })
      | false ↦ run_batches left cutoff batch_size (deleted + count) (suc batches)
    ]

unfoldable pub run_retention : ℕ → ℕ → ℕ → ℕ → M Pass
run_retention now retention_days batch_size max_batches =
    run_batches max_batches (retention_cutoff now retention_days) batch_size 0 0
