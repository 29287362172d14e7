-- ===== src/Retention/Fresh.antt =====
-- What a retention pass leaves alone (backend/src/jobs/retention.js).
use hook_tracker.Prelude.{
  ℕ, suc, zero, ◌+◌, ◌≡◌, refl, sym, ap, subst, ==_iff, ◌∙◌, Bool, true, false, not, ◌&&◌, ◌||◌,
  List, [], ◌∷◌, any, keep, take, map, ltb, ◌==◌, arith, Bool-cases, inl, inr,
}
use hook_tracker.Store.{Table, find_row, Delivery, Event}
use hook_tracker.World.{World, world, pure, call}
use hook_tracker.World.Runs.{Runs, IsQuiet, Runs->>=, Runs-pure, Runs-call}
use hook_tracker.Retention.{
  is_stale, insert_by_received, sort_by_received, stale_batch, has_key, detached, delete_events,
  delete_selected, delete_batch, Pass, run_batches, run_retention, retention_cutoff,
}

abbrev ids_of : ℕ → Table Delivery → List ℕ
ids_of k rows = map (λ r. r.0) (keep (λ r. r.1.event_id == k) rows)

module _ (k cutoff : ℕ) where
  -- No event under this id is older than the cutoff.
  abbrev pub IsFresh : World → Type 0
  IsFresh w = any (λ r. r.0 == k && is_stale cutoff r) w.events ≡ false

  pub record IsSpared (u v : World) : Type 0 where
    pub still_fresh : IsFresh v
    pub same_event : find_row k v.events ≡ find_row k u.events
    pub same_deliveries : ids_of k v.deliveries ≡ ids_of k u.deliveries

  abbrev Spares : World → World → Type 0
  Spares u v = IsFresh u → IsSpared u v

  spared_same : (u v : World) → v.events ≡ u.events → v.deliveries ≡ u.deliveries → Spares u v
  spared_same u v e d f = record {
    still_fresh = rw e f;
    same_event = rw e refl;
    same_deliveries = rw d refl;
  }

  Spares-IsQuiet : IsQuiet Spares
  Spares-IsQuiet = record {
    preorder = record {
      same = λ w. spared_same w w refl refl;
      after = λ h g f.
          let a = h f in
          let b = g a.still_fresh in
          record {
            still_fresh = b.still_fresh;
            same_event = b.same_event ∙ a.same_event;
            same_deliveries = b.same_deliveries ∙ a.same_deliveries;
          };
    };
    on_faults = λ w fs. spared_same w (record w { faults = fs }) refl refl;
    on_emitted = λ w es. spared_same w (record w { emitted = es }) refl refl;
  }

  insert-has_key :
      (r : ℕ × Event) (rows : Table Event)
      → has_key k (insert_by_received r rows) ≡ (r.0 == k || has_key k rows)
  unfolding insert_by_received
  insert-has_key r [] = refl
  insert-has_key r (s ∷ rows) = ground (arith, insert-has_key r rows)

  sorted-has_key :
      (rows : Table Event)
      → any (λ r. r.0 == k && is_stale cutoff r) rows ≡ false
      → has_key k (sort_by_received (keep (is_stale cutoff) rows)) ≡ false
  unfolding sort_by_received
  sorted-has_key [] h = refl
  sorted-has_key (r ∷ rows) h = ground (
    arith,
    sorted-has_key rows,
    insert-has_key r (sort_by_received (keep (is_stale cutoff) rows)),
  )

  take-has_key :
      (n : ℕ) (rows : Table Event) → has_key k rows ≡ false → has_key k (take n rows) ≡ false
  take-has_key zero rows h = refl
  take-has_key (suc n) [] h = refl
  take-has_key (suc n) (r ∷ rows) h = ground (arith, take-has_key n rows)

  other_key :
      (stale : Table Event) (j : ℕ)
      → has_key k stale ≡ false
      → (j == k) ≡ true
      → has_key j stale ≡ false
  other_key stale j h e = subst (λ x. has_key x stale ≡ false) (sym ((==_iff j k).0 e)) h

  kept_event :
      (stale rows : Table Event)
      → has_key k stale ≡ false
      → find_row k (keep (λ r. not (has_key r.0 stale)) rows) ≡ find_row k rows
  unfolding find_row
  kept_event stale [] h = refl
  kept_event stale ((j, ev) ∷ rows) h = elim (Bool-cases (j == k)) [
    | inl e ↦ rw (other_key stale j h e, e) refl
    | inr e ↦
        let rest = kept_event stale rows h in
        elim (Bool-cases (has_key j stale)) [
          | inl x ↦ rw (x, e) rest
          | inr x ↦ rw (x, e) (ground (arith, rest))
        ]
  ]

  kept_fresh :
      (stale rows : Table Event)
      → any (λ r. r.0 == k && is_stale cutoff r) rows ≡ false
      → any (λ r. r.0 == k && is_stale cutoff r) (keep (λ r. not (has_key r.0 stale)) rows) ≡ false
  kept_fresh stale [] h = refl
  kept_fresh stale (r ∷ rows) h = ground (arith, kept_fresh stale rows)

  kept_deliveries :
      (stale : Table Event) (gone rows : Table Delivery)
      → has_key k stale ≡ false
      → ids_of k (map (detached gone) (keep (λ r. not (has_key r.1.event_id stale)) rows))
        ≡ ids_of k rows
  kept_deliveries stale gone [] h = refl
  kept_deliveries stale gone ((j, d) ∷ rows) h = elim (Bool-cases (d.event_id == k)) [
    | inl e ↦
        rw (other_key stale d.event_id h e, e) (ap (◌∷◌ j) (kept_deliveries stale gone rows h))
    | inr e ↦
        let rest = kept_deliveries stale gone rows h in
        elim (Bool-cases (has_key d.event_id stale)) [
          | inl x ↦ rw (x, e) rest
          | inr x ↦ rw (x, e) rest
        ]
  ]

  delete_events-Spares :
      (stale : Table Event) (w : World) → has_key k stale ≡ false → Spares w (delete_events stale w)
  unfolding delete_events
  delete_events-Spares stale w h f = record {
    still_fresh = kept_fresh stale w.events f;
    same_event = kept_event stale w.events h;
    same_deliveries = kept_deliveries stale _ w.deliveries h;
  }

  delete_selected-Spares :
      (stale : Table Event) → has_key k stale ≡ false → Runs Spares (delete_selected stale)
  unfolding delete_selected
  delete_selected-Spares [] h = Runs-pure Spares-IsQuiet.preorder 0
  delete_selected-Spares (r ∷ rows) h =
      Runs->>= Spares-IsQuiet.preorder call _ (Runs-call Spares-IsQuiet)
        (λ _. record { run = λ w. delete_events-Spares (r ∷ rows) w h })

  stale_batch-has_key : (n : ℕ) (w : World) → IsFresh w → has_key k (stale_batch cutoff n w) ≡ false
  unfolding stale_batch
  stale_batch-has_key n w f =
      take-has_key n (sort_by_received (keep (is_stale cutoff) w.events))
        (sorted-has_key w.events f)

  delete_batch-Spares : (n : ℕ) → Runs Spares (delete_batch cutoff n)
  unfolding delete_batch
  delete_batch-Spares n = Runs->>= Spares-IsQuiet.preorder call _ (Runs-call Spares-IsQuiet) (λ _.
      record {
        run = λ w f.
            (delete_selected-Spares (stale_batch cutoff n w) (stale_batch-has_key n w f)).run w f;
      })

  after_batch :
      (left n deleted batches count : ℕ) (b : Bool)
      → Runs Spares (run_batches left cutoff n (deleted + count) (suc batches))
      → Runs Spares {A = Pass} (elim b [
        | true ↦ pure (record { cutoff = cutoff; deleted = deleted + count; batches = suc batches })
        | false ↦ run_batches left cutoff n (deleted + count) (suc batches)
      ])
  after_batch left n deleted batches count true rest = Runs-pure Spares-IsQuiet.preorder _
  after_batch left n deleted batches count false rest = rest

  run_batches-Spares :
      (left n deleted batches : ℕ) → Runs Spares (run_batches left cutoff n deleted batches)
  unfolding run_batches
  run_batches-Spares zero n deleted batches = Runs-pure Spares-IsQuiet.preorder _
  run_batches-Spares (suc left) n deleted batches =
      Runs->>= Spares-IsQuiet.preorder (delete_batch cutoff n) _ (delete_batch-Spares n) (λ count.
        after_batch left n deleted batches count (ltb count n)
          (run_batches-Spares left n (deleted + count) (suc batches)))

-- Whatever calls fail, a retention pass leaves an event that is not older than the number of days
-- as it was, and each of its deliveries in place.
pub run_retention-IsSpared :
    (k now retention_days batch_size max_batches : ℕ) (w : World)
    → IsFresh k (retention_cutoff now retention_days) w
    → IsSpared k
        (retention_cutoff now retention_days)
        w
        (world (run_retention now retention_days batch_size max_batches w))
unfolding run_retention
run_retention-IsSpared k now retention_days batch_size max_batches w f =
    (run_batches-Spares k (retention_cutoff now retention_days) max_batches batch_size 0 0).run w f
