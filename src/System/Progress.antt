-- ===== src/System/Progress.antt =====
-- One delivery from worker to worker: the broker gives the message that
-- backend/src/worker/handle-delivery.js leaves behind to the next worker, once its time is up.
use hook_tracker.Prelude.{
  ℕ, suc, ◌+◌, ◌<◌, ◌≤◌, ◌≡◌, refl, sym, ◌∙◌, subst, ◌⊎◌, inl, inr, List, [], ◌∷◌, ◌++◌, Option,
  none, some, Bool, true, false, arith, length, keep, ==_refl, All, is_some,
}
use hook_tracker.Retry.{retry_schedule}
use hook_tracker.Status.{is_terminal}
use hook_tracker.Store.{find_row, Delivery, Endpoint, Event}
use hook_tracker.World.{World, Reply, returned, thrown, world, Message, has_endpoint}
use hook_tracker.Exchange.{
  Env, Headers, Outcome, unknown_delivery, already_finalised, endpoint_disabled, throttled,
  handled_ok, retrying_on, ssrf_blocked, failed,
}
use hook_tracker.Carried.{carries}
use hook_tracker.Consumer.{settle}
use hook_tracker.System.{with_queue, dead_letters_to}
use hook_tracker.Worker.{handle_delivery}
use hook_tracker.Worker.Completion.{Handled}
use hook_tracker.Worker.Trail.{Extends}
use hook_tracker.Worker.Audit.{handle_delivery-Extends}
use hook_tracker.Worker.Settled.{Ended}
use hook_tracker.Worker.Handled.{handle_delivery-Settled}
use hook_tracker.System.Following.{
  no_faults, arrived, parks, follow, IsAlone, keep-append, take_live-some, arrived-same, carried_id,
  follow-stops,
}

abbrev is_done : Option Delivery → Bool
is_done none = false
is_done (some d) = is_terminal d.status

abbrev pub IsDone : ℕ → World → Type 0
IsDone id w = is_done (find_row id w.deliveries) ≡ true

-- The delivery is there with its event and its endpoint.
pub record IsJoined (id : ℕ) (w : World) : Type 0 where
  pub row : Delivery
  pub row_found : find_row id w.deliveries ≡ some row
  pub event_exists : is_some (find_row row.event_id w.events) ≡ true
  pub endpoint_exists : has_endpoint row.endpoint_id w ≡ true

-- A worker with the default schedule and MAX_ATTEMPTS, whose secrets decrypt.
pub record IsSound (most : ℕ) (e : Env) : Type 0 where
  pub default_schedule : e.schedule ≡ retry_schedule
  pub limit : e.config.max_attempts ≡ most
  pub signs :
      (id : ℕ) (d : Delivery) (ev : Event) (ep : Endpoint) (n at_ms : ℕ)
      → (h : Headers) × (e.build_headers id d ev ep n at_ms ≡ some h)

IsJoined-kept :
    (most id n : ℕ) (w w' : World) (d d' : Delivery)
    → Extends most id n w w'
    → is_some (find_row d.event_id w.events) ≡ true
    → has_endpoint d.endpoint_id w ≡ true
    → find_row id w'.deliveries ≡ some d'
    → d'.event_id ≡ d.event_id
    → d'.endpoint_id ≡ d.endpoint_id
    → IsJoined id w'
IsJoined-kept most id n w w' d d' x ev ep found e1 e2 = record {
  row = d';
  row_found = found;
  event_exists = rw (x.events_same, e1) ev;
  endpoint_exists = rw e2 (x.endpoints_stay d.endpoint_id ∙ ep);
}

-- The delivery is done with no message on its way, or each of the `length` workers parked it or
-- used up one attempt.
abbrev Reaches : ℕ → ℕ → ℕ → ℕ → ℕ × World → Type 0
Reaches most id length n r =
    (IsDone id r.1 × (keep (carries id) r.1.queue ≡ [])) ⊎ (length + n ≤ r.0 + most)

module _ (most id m : ℕ) (d : Delivery) (ev : Event) (ep : Endpoint) (e : Env) (h : Headers)
    (w : World) (k : World → ℕ × World) (left : ℕ) (below : suc m ≤ most)
    (limit : e.config.max_attempts ≡ most) (found : find_row id w.deliveries ≡ some d)
    (event : is_some (find_row d.event_id w.events) ≡ true)
    (endpoint : has_endpoint d.endpoint_id w ≡ true) (gone : keep (carries id) w.queue ≡ [])
    (stops : (v : World) → keep (carries id) v.queue ≡ [] → k v ≡ (0, v))
    (follows : (n : ℕ) (v : World)
      → suc n ≤ most
      → IsJoined id v
      → IsAlone id (suc n) v
      → Reaches most id left (suc n) (k v)) where
  -- What `follow` makes of a reply.
  abbrev Onward : Message → Reply Outcome → Type 0
  Onward a r = Reaches most id (suc left) (suc m) (parks r + (k (settle a r)).0, (k (settle a r)).1)

  stopped :
      (v : World)
      → IsDone id v
      → keep (carries id) v.queue ≡ []
      → Reaches most id (suc left) (suc m) (0 + (k v).0, (k v).1)
  stopped v done empty = rw (stops v empty) (inl (done, empty))

  -- One message more in the queue, as it is and where it is another's or a dead letter.
  added :
      (v : World) (x : Message)
      → v.queue ≡ w.queue ++ x ∷ []
      → carries id x ≡ true
      → IsAlone id x.attempt v
  added v x q own = record {
    message = x;
    only = rw (q, keep-append (carries id) w.queue (x ∷ []), gone, own) refl;
    numbered = refl;
  }

  dead :
      (v : World) (x : Message)
      → v.queue ≡ w.queue ++ x ∷ []
      → carries id x ≡ false
      → keep (carries id) v.queue ≡ []
  dead v x q other = rw (q, keep-append (carries id) w.queue (x ∷ []), gone, other) refl

  parked :
      (r : ℕ × World)
      → Reaches most id left (suc m) r
      → Reaches most id (suc left) (suc m) (1 + r.0, r.1)
  parked r (inl done) = inl done
  parked r (inr h) = inr (omega (arith, h))

  climbed :
      (r : ℕ × World)
      → Reaches most id left (suc (suc m)) r
      → Reaches most id (suc left) (suc m) (0 + r.0, r.1)
  climbed r (inl done) = inl done
  climbed r (inr h) = inr (omega (arith, h))

  Onward-Reaches :
      (a : Message) (granted : Bool) (r : Reply Outcome)
      → Ended r (Handled e ev h id (suc m) d ep granted w)
      → Extends most id (suc m) w (world r)
      → Onward a r
  unfolding settle
  Onward-Reaches a granted (returned unknown_delivery v) (why, s) x = elim s [ ]
  Onward-Reaches a granted (returned already_finalised v) (done, same) x =
      stopped v (rw (same, found) done) (rw same gone)
  Onward-Reaches a granted (returned endpoint_disabled v) (why, (row, one, queue)) x =
      stopped v (rw row refl) (rw queue gone)
  Onward-Reaches a granted (returned throttled v) (why, (row, one, queue)) x = parked (k v) (
      follows m v below (IsJoined-kept most id (suc m) w v d d x event endpoint row refl refl)
        (added v _ queue (ground (arith, ==_refl id))))
  Onward-Reaches a granted (returned handled_ok v) (why, (row, one, queue)) x =
      stopped v (rw row refl) (rw queue gone)
  Onward-Reaches a granted (returned (retrying_on name) v)
        ((sent, (bad, again, open_ladder, within)), (level, next, named, row, one, queue)) x =
      climbed (k v) (
        follows (suc m) v (omega (arith, open_ladder, limit))
          (IsJoined-kept most id (suc m) w v d _ x event endpoint row refl refl)
          (added v _ queue (ground (arith, ==_refl id))))
  Onward-Reaches a granted (returned ssrf_blocked v) (why, (row, one, queue)) x =
      stopped v (rw row refl) (dead v _ queue (ground arith))
  Onward-Reaches a granted (returned failed v) (why, (row, one, queue)) x =
      stopped v (rw row refl) (dead v _ queue (ground arith))
  Onward-Reaches a granted (thrown error v) s x = elim s [ ]

is_some-some : {A : Type 0} (o : Option A) → is_some o ≡ true → (a : A) × (o ≡ some a)
is_some-some none h = cc
is_some-some (some a) h = (a, refl)

-- What is shown of the worker that gets the message `a` with these two numbers.
abbrev Goes : ℕ → ℕ → ℕ → ℕ → (World → ℕ × World) → Env → World → Message → ℕ → ℕ → Type 0
Goes most id m left k e w a i n =
    let reply = handle_delivery e i n w in
    Reaches most id left (suc m) (parks reply + (k (settle a reply)).0, (k (settle a reply)).1)

follow-Reaches :
    (most id m : ℕ) (es : List Env) (w : World)
    → All (IsSound most) es
    → suc m ≤ most
    → IsJoined id w
    → IsAlone id (suc m) w
    → Reaches most id (length es) (suc m) (follow id es w)
unfolding follow
follow-Reaches most id m [] w sound below j a = inr (omega (arith, below))
follow-Reaches most id m (e ∷ es) w (s, sound) below j a =
    let (ev, event) = is_some-some (find_row j.row.event_id w.events) j.event_exists in
    let (ep, owner) = is_some-some (find_row j.row.endpoint_id w.endpoints) j.endpoint_exists in
    let (h, signed) = s.signs id j.row ev ep (suc m) e.started_at in
    let (rest, taken, gone, own) = take_live-some id w.queue a.message a.only in
    let start = with_queue rest (no_faults w) in
    let step =
      Onward-Reaches most id m j.row ev ep e h start (follow id es) (length es) below s.limit
        j.row_found j.event_exists j.endpoint_exists gone (follow-stops id es)
        (λ n v b jv av. follow-Reaches most id n es v sound b jv av) (arrived a.message) _
        (handle_delivery e id (suc m) start)
        (handle_delivery-Settled e id m j.row ev ep h start s.default_schedule refl j.row_found
          event owner signed).holds
        (subst (λ k. Extends k id (suc m) start (world (handle_delivery e id (suc m) start)))
          s.limit (handle_delivery-Extends e id (suc m) start)) in
    let numbers = arrived-same a.message (dead_letters_to a.message.place) in
    rw taken (
      subst
        (λ i.
          Goes most id m (suc (length es)) (follow id es) e start (arrived a.message) i
            (arrived a.message).attempt)
        (sym (numbers.0 ∙ carried_id id a.message own))
        (subst
          (λ n. Goes most id m (suc (length es)) (follow id es) e start (arrived a.message) id n)
          (sym (numbers.1 ∙ a.numbered)) step))

-- A delivery comes to an end. When no call fails, the schedule is the default one, every worker
-- has the same MAX_ATTEMPTS and the secrets decrypt: take a delivery with its event and its
-- endpoint, of which one message is on its way, with the attempt `m + 1`, and workers that take a
-- message of it from the queue one after another, as long as there is one. If they are at least as
-- many as the times that it was parked for want of a token plus the attempts from `m + 1` to
-- MAX_ATTEMPTS, then in the end it is SUCCEEDED, FAILED_PERMANENTLY or SKIPPED and no message of it
-- is on its way, whatever the receivers answer.
pub follow-IsDone :
    (most id m : ℕ) (es : List Env) (w : World)
    → All (IsSound most) es
    → suc m ≤ most
    → IsJoined id w
    → IsAlone id (suc m) w
    → (follow id es w).0 + most < length es + suc m
    → IsDone id (follow id es w).1 × (keep (carries id) (follow id es w).1.queue ≡ [])
follow-IsDone most id m es w sound below j alone enough =
    elim (follow-Reaches most id m es w sound below j alone) [
      | inl done ↦ done
      | inr short ↦ elim (spent short) [ ]
    ]
  where
    spent : (length es + suc m ≤ (follow id es w).0 + most) → ⊥
    spent short = omega (arith, enough, short)
