-- ===== src/Replay/Originals.antt =====
-- What a replay leaves alone, and what it makes (backend/src/api/services/delivery-service.js).
use hook_tracker.Prelude.{
  ℕ, ◌≡◌, refl, ap, sym, ◌∙◌, Bool, true, false, List, [], ◌∷◌, ◌++◌, Option, none, some,
  append_assoc, append-nil,
}
use hook_tracker.Status.{is_replayable}
use hook_tracker.Store.{find_row, Delivery, Event}
use hook_tracker.World.{
  World, world, call, Message, Error, with_message, no_such_delivery, conflict,
}
use hook_tracker.World.Runs.{
  Runs, IsPreorder, IsQuiet, Runs->>=, Runs-pure, Runs-throw, Runs-call, Runs-write, Runs-query,
}
use hook_tracker.Publisher.{publish_delivery}
use hook_tracker.Publisher.Runs.{Runs-publish_delivery}
use hook_tracker.Publishing.{publish_all}
use hook_tracker.Authorization.{Membership}
use hook_tracker.Replay.{
  replay, bulk_replay, create_replay, create_many, load_for_caller, find_delivery, joined, allowed,
  authorised,
}

-- The rows that were there are there, unchanged and first; events, endpoints and the audit trail
-- are as they were; messages are only added.
pub record Keeps (u v : World) : Type 0 where
  pub deliveries : (new : List (ℕ × Delivery)) × (v.deliveries ≡ u.deliveries ++ new)
  pub messages : (new : List Message) × (v.queue ≡ u.queue ++ new)
  pub events : v.events ≡ u.events
  pub endpoints : v.endpoints ≡ u.endpoints
  pub attempts : v.attempts ≡ u.attempts

grown :
    {A : Type 0} (xs ys zs : List A)
    → (new : List A) × (ys ≡ xs ++ new)
    → (new : List A) × (zs ≡ ys ++ new)
    → (new : List A) × (zs ≡ xs ++ new)
grown xs ys zs (new, h) (more, k) =
    (new ++ more, k ∙ ap (λ l. l ++ more) h ∙ append_assoc xs new more)

same_rows : {A : Type 0} (xs : List A) → (new : List A) × (xs ≡ xs ++ new)
same_rows xs = ([], sym (append-nil xs))

Keeps-IsQuiet : IsQuiet Keeps
Keeps-IsQuiet = record {
  preorder = record {
    same = λ w. record {
      deliveries = same_rows w.deliveries;
      messages = same_rows w.queue;
      events = refl;
      endpoints = refl;
      attempts = refl;
    };
    after = λ {u} {v} {w} h k. record {
      deliveries = grown u.deliveries v.deliveries w.deliveries h.deliveries k.deliveries;
      messages = grown u.queue v.queue w.queue h.messages k.messages;
      events = k.events ∙ h.events;
      endpoints = k.endpoints ∙ h.endpoints;
      attempts = k.attempts ∙ h.attempts;
    };
  };
  on_faults = λ w fs. record {
    deliveries = same_rows w.deliveries;
    messages = same_rows w.queue;
    events = refl;
    endpoints = refl;
    attempts = refl;
  };
  on_emitted = λ w es. record {
    deliveries = same_rows w.deliveries;
    messages = same_rows w.queue;
    events = refl;
    endpoints = refl;
    attempts = refl;
  };
}

more_rows :
    (rows : List (ℕ × Delivery)) (w : World)
    → Keeps w (record w { deliveries = w.deliveries ++ rows })
more_rows rows w = record {
  deliveries = (rows, refl);
  messages = same_rows w.queue;
  events = refl;
  endpoints = refl;
  attempts = refl;
}

more_messages : (m : Message) (w : World) → Keeps w (with_message m w)
more_messages m w = record {
  deliveries = same_rows w.deliveries;
  messages = (m ∷ [], refl);
  events = refl;
  endpoints = refl;
  attempts = refl;
}

abbrev before : IsPreorder Keeps
before = Keeps-IsQuiet.preorder

publish_delivery-Keeps : (id n : ℕ) → Runs Keeps (publish_delivery id n)
publish_delivery-Keeps id n =
    Runs-publish_delivery Keeps-IsQuiet id n (λ m a b w. more_messages m w)

publish_all-Keeps : (rows : List (ℕ × Delivery)) → Runs Keeps (publish_all rows)
unfolding publish_all
publish_all-Keeps [] = Runs-pure before tt
publish_all-Keeps ((id, d) ∷ rows) =
    Runs->>= before (publish_delivery id 1) _ (publish_delivery-Keeps id 1)
      (λ _. publish_all-Keeps rows)

Runs-joined : (o : Option Delivery) → Runs Keeps (find_delivery o)
unfolding find_delivery joined
Runs-joined none = record { run = λ w. before.same w }
Runs-joined (some d) = record { run = λ w. joined_lem w (find_row d.event_id w.events) }
  where
    joined_lem : (w : World) (o : Option Event) → Keeps w (world (joined d o w))
    joined_lem w none = before.same w
    joined_lem w (some ev) = before.same w

allowed-Keeps : (o : Option Error) (d : Delivery) → Runs Keeps (allowed o d)
unfolding allowed
allowed-Keeps none d = Runs-pure before d
allowed-Keeps (some e) d = Runs-throw before Delivery e

authorised-Keeps :
    (auth : List Membership) (o : Option (Delivery × Event)) → Runs Keeps (authorised auth o)
unfolding authorised
authorised-Keeps auth none = Runs-throw before Delivery no_such_delivery
authorised-Keeps auth (some (d, ev)) = allowed-Keeps _ d

load_for_caller-Keeps : (auth : List Membership) (id : ℕ) → Runs Keeps (load_for_caller auth id)
unfolding load_for_caller
load_for_caller-Keeps auth id =
    Runs->>= before _ (authorised auth)
      (Runs->>= before call _ (Runs-call Keeps-IsQuiet)
        (λ _. record { run = λ w. (Runs-joined (find_row id w.deliveries)).run w }))
      (authorised-Keeps auth)

create_if-Keeps :
    (id new_id now : ℕ) (d : Delivery) (b : Bool)
    → is_replayable d.status ≡ b
    → Runs Keeps (create_replay id new_id now d)
unfolding create_replay
create_if-Keeps id new_id now d true e = rw e (
    Runs->>= before _ _ (Runs-write Keeps-IsQuiet (λ w. true) _ (more_rows _))
      (λ _. Runs->>= before _ _ (publish_delivery-Keeps new_id 1) (λ _. Runs-pure before _)))
create_if-Keeps id new_id now d false e = rw e (Runs-throw before Delivery conflict)

-- Whatever calls fail, a replay changes no row that is there, no event, no endpoint and no attempt
-- of the audit trail: it only adds rows after them and messages.
pub replay-Keeps :
    (auth : List Membership) (id new_id now : ℕ) (w : World)
    → Keeps w (world (replay auth id new_id now w))
unfolding replay
replay-Keeps auth id new_id now w =
    (Runs->>= before _ (create_replay id new_id now) (load_for_caller-Keeps auth id)
        (λ d. create_if-Keeps id new_id now d (is_replayable d.status) refl)).run
      w

create_many-Keeps : (rows : List (ℕ × Delivery)) → Runs Keeps (create_many rows)
unfolding create_many
create_many-Keeps [] = Runs-pure before tt
create_many-Keeps (r ∷ rows) = Runs-write Keeps-IsQuiet (λ w. true) _ (more_rows (r ∷ rows))

-- Whatever calls fail, a bulk replay changes no row that is there, no event, no endpoint and no
-- attempt of the audit trail: it only adds rows after them and messages.
pub bulk_replay-Keeps :
    (matching : World → List (ℕ × Delivery)) (asked : Option ℕ) (most : ℕ) (new_ids : ℕ → ℕ)
    (now : ℕ) (w : World)
    → Keeps w (world (bulk_replay matching asked most new_ids now w))
unfolding bulk_replay
bulk_replay-Keeps matching asked most new_ids now w =
    (Runs->>= before _ _ (Runs-query Keeps-IsQuiet _) (λ originals.
        Runs->>= before _ _ (create_many-Keeps _)
          (λ _. Runs->>= before _ _ (publish_all-Keeps _) (λ _. Runs-pure before _)))).run
      w
