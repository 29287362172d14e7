-- ===== src/Publishing/Fanout.antt =====
-- What a publish leaves behind (backend/src/api/services/publish-service.js).
use hook_tracker.Prelude.{
  ℕ, suc, ◌≡◌, refl, ap, List, [], ◌∷◌, ◌++◌, append_assoc, append-nil, none, map, arith, All,
  subst, sym, if◌then◌else◌,
}
use hook_tracker.Status.{
  DeliveryStatus, EndpointStatus, active, disabled, is_active, pending, skipped,
}
use hook_tracker.Store.{Delivery, Endpoint}
use hook_tracker.World.{World, Reply, returned, thrown, Message, delivery_queue, call, write}
use hook_tracker.Publisher.{publish_delivery}
use hook_tracker.Worker.Settled.{message, Ended, Returns}
use hook_tracker.Publishing.{
  Request, Rows, first_status, new_deliveries, publish_all, queued, new_event, save_event, fan_out,
}

abbrev pub first_message : ℕ × Delivery → Message
first_message r = message r.0 1 delivery_queue none

publish_all-Returns :
    (rows : List (ℕ × Delivery)) (w : World)
    → w.faults ≡ []
    → publish_all rows w ≡ returned tt (record w { queue = w.queue ++ map first_message rows })
unfolding publish_all publish_delivery call
publish_all-Returns [] w nf = ground (arith, append-nil w.queue)
publish_all-Returns ((id, d) ∷ rows) w nf = ground (
  arith,
  publish_all-Returns rows (record w { queue = w.queue ++ first_message (id, d) ∷ [] }),
  append_assoc w.queue (first_message (id, d) ∷ []) (map first_message rows),
)

-- One delivery for each endpoint, in their order.
abbrev pub target : ℕ × Delivery → ℕ × DeliveryStatus
target r = (r.1.endpoint_id, r.1.status)

abbrev pub expected : ℕ × Endpoint → ℕ × DeliveryStatus
expected r = (r.0, if is_active r.1.status then pending else skipped)

status_lem : (s : EndpointStatus) → first_status s ≡ (if is_active s then pending else skipped)
status_lem active = refl
status_lem disabled = refl

new_deliveries-targets :
    (ids : ℕ → ℕ) (i event_id now : ℕ) (rows : Rows)
    → map target (new_deliveries ids i event_id now rows) ≡ map expected rows
unfolding new_deliveries
new_deliveries-targets ids i event_id now [] = refl
new_deliveries-targets ids i event_id now (r ∷ rows) =
    rw (status_lem r.1.status)
      (ap (◌∷◌ (expected r)) (new_deliveries-targets ids (suc i) event_id now rows))

-- The ids that are drawn, one for each row in order.
abbrev pub drawn_ids : (ℕ → ℕ) → ℕ → Rows → List ℕ
drawn_ids ids i [] = []
drawn_ids ids i (r ∷ rows) = ids i ∷ drawn_ids ids (suc i) rows

new_deliveries-ids :
    (ids : ℕ → ℕ) (i event_id now : ℕ) (rows : Rows)
    → map (λ d. d.0) (new_deliveries ids i event_id now rows) ≡ drawn_ids ids i rows
unfolding new_deliveries
new_deliveries-ids ids i event_id now [] = refl
new_deliveries-ids ids i event_id now (r ∷ rows) =
    ap (◌∷◌ (ids i)) (new_deliveries-ids ids (suc i) event_id now rows)

new_deliveries-events :
    (ids : ℕ → ℕ) (i event_id now : ℕ) (rows : Rows)
    → All (λ d. d.1.event_id ≡ event_id) (new_deliveries ids i event_id now rows)
unfolding new_deliveries
new_deliveries-events ids i event_id now [] = tt
new_deliveries-events ids i event_id now (r ∷ rows) =
    (refl, new_deliveries-events ids (suc i) event_id now rows)

-- What an accepted publish did.
pub record Accepted (r : Request) (rows : Rows) (event_id : ℕ) (ids : ℕ → ℕ) (now : ℕ) (w : World)
    (deliveries : List (ℕ × Delivery)) (w' : World) : Type 0 where
  pub targets : map target deliveries ≡ map expected rows
  pub numbered : map (λ d. d.0) deliveries ≡ drawn_ids ids 0 rows
  pub of_event : All (λ d. d.1.event_id ≡ event_id) deliveries
  pub events_saved : w'.events ≡ w.events ++ (event_id, new_event r now) ∷ []
  pub deliveries_saved : w'.deliveries ≡ w.deliveries ++ deliveries
  pub messages_sent : w'.queue ≡ w.queue ++ map first_message (queued deliveries)

-- What was saved and sent is what `newDeliveries` made.
abbrev Saves : Request → ℕ → ℕ → World → List (ℕ × Delivery) → List (ℕ × Delivery) → World → Type 0
Saves r event_id now w made deliveries w' =
    (deliveries ≡ made)
    × (w'.events ≡ w.events ++ (event_id, new_event r now) ∷ [])
    × (w'.deliveries ≡ w.deliveries ++ deliveries)
    × (w'.queue ≡ w.queue ++ map first_message (queued deliveries))

fan_out-Saves :
    (r : Request) (event_id : ℕ) (ids : ℕ → ℕ) (now : ℕ) (ep : ℕ × Endpoint) (eps : Rows)
    (w : World)
    → w.faults ≡ []
    → Returns
        (fan_out r event_id ids now (ep ∷ eps))
        w
        (Saves r event_id now w (new_deliveries ids 0 event_id now (ep ∷ eps)))
unfolding fan_out save_event write call
fan_out-Saves r event_id ids now ep eps w nf =
    let rows = new_deliveries ids 0 event_id now (ep ∷ eps) in
    let saved = record w {
      events = w.events ++ (event_id, new_event r now) ∷ [];
      deliveries = w.deliveries ++ rows;
    } in
    ground (arith, publish_all-Returns (queued rows) saved)

Saves-Accepted :
    (r : Request) (event_id : ℕ) (ids : ℕ → ℕ) (now : ℕ) (rows : Rows) (w : World)
    (reply : Reply (List (ℕ × Delivery)))
    → Ended reply (Saves r event_id now w (new_deliveries ids 0 event_id now rows))
    → Ended reply (Accepted r rows event_id ids now w)
Saves-Accepted r event_id ids now rows w (returned deliveries w') (made, events, saved, sent) =
    record {
      targets = rw made (new_deliveries-targets ids 0 event_id now rows);
      numbered = rw made (new_deliveries-ids ids 0 event_id now rows);
      of_event =
          subst (All (λ d. d.1.event_id ≡ event_id)) (sym made)
            (new_deliveries-events ids 0 event_id now rows);
      events_saved = events;
      deliveries_saved = saved;
      messages_sent = sent;
    }
Saves-Accepted r event_id ids now rows w (thrown e w') h = elim h [ ]

pub fan_out-Accepted :
    (r : Request) (event_id : ℕ) (ids : ℕ → ℕ) (now : ℕ) (ep : ℕ × Endpoint) (eps : Rows)
    (w : World)
    → w.faults ≡ []
    → Returns (fan_out r event_id ids now (ep ∷ eps)) w (Accepted r (ep ∷ eps) event_id ids now w)
fan_out-Accepted r event_id ids now ep eps w nf = record {
  holds =
      Saves-Accepted r event_id ids now (ep ∷ eps) w (fan_out r event_id ids now (ep ∷ eps) w)
        (fan_out-Saves r event_id ids now ep eps w nf).holds;
}
