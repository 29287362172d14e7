-- ===== src/Worker/Trail.antt =====
-- What one message may change, under every list of faults (backend/src/worker/handle-delivery.js).
use hook_tracker.Prelude.{
  ℕ, suc, ◌<◌, ◌≡◌, refl, sym, ◌∙◌, ap, ◌≢◌, ◌⊎◌, List, [], ◌∷◌, ◌++◌, append_assoc, append-nil,
  arith, All, All-append,
}
use hook_tracker.Store.{find_row, find_row-modify, Delivery, Endpoint, Attempt}
use hook_tracker.World.{
  World, Message, with_delivery, with_endpoint, with_attempt, with_message, has_endpoint,
}
use hook_tracker.World.Runs.{IsQuiet}

-- A message that the attempt numbered `n` may leave behind: the same attempt again, or the next
-- one where the ladder still has one.
abbrev pub Follows : ℕ → ℕ → ℕ → Message → Type 0
Follows most id n m = (m.delivery_id ≡ id) × ((m.attempt ≡ n) ⊎ ((m.attempt ≡ suc n) × (n < most)))

abbrev pub IsOwn : ℕ → ℕ → Attempt → Type 0
IsOwn id n a = (a.delivery_id ≡ id) × (a.attempt_number ≡ n)

-- Attempt rows and messages are only added, and only for this delivery and attempt; no other
-- delivery and no event changes, and the same endpoints exist.
pub record Extends (most id n : ℕ) (w w' : World) : Type 0 where
  pub rows : List Attempt
  pub rows_own : All (IsOwn id n) rows
  pub attempts_grow : w'.attempts ≡ w.attempts ++ rows
  pub messages : List Message
  pub messages_follow : All (Follows most id n) messages
  pub queue_grows : w'.queue ≡ w.queue ++ messages
  pub others_same : (j : ℕ) → j ≢ id → find_row j w'.deliveries ≡ find_row j w.deliveries
  pub events_same : w'.events ≡ w.events
  pub endpoints_stay : (k : ℕ) → has_endpoint k w' ≡ has_endpoint k w

module _ (most id n : ℕ) where
  pub Extends-same :
      (w w' : World)
      → w'.attempts ≡ w.attempts
      → w'.queue ≡ w.queue
      → w'.deliveries ≡ w.deliveries
      → w'.events ≡ w.events
      → ((k : ℕ) → has_endpoint k w' ≡ has_endpoint k w)
      → Extends most id n w w'
  Extends-same w w' a q d e x = record {
    rows = [];
    rows_own = tt;
    attempts_grow = a ∙ sym (append-nil _);
    messages = [];
    messages_follow = tt;
    queue_grows = q ∙ sym (append-nil _);
    others_same = λ j h. ap (find_row j) d;
    events_same = e;
    endpoints_stay = x;
  }

  pub Extends-trans :
      {u v w : World} → Extends most id n u v → Extends most id n v w → Extends most id n u w
  Extends-trans {u} h k = record {
    rows = h.rows ++ k.rows;
    rows_own = All-append (IsOwn id n) h.rows k.rows h.rows_own k.rows_own;
    attempts_grow =
        k.attempts_grow
        ∙ ap (λ l. l ++ k.rows) h.attempts_grow
        ∙ append_assoc u.attempts h.rows k.rows;
    messages = h.messages ++ k.messages;
    messages_follow =
        All-append (Follows most id n) h.messages k.messages h.messages_follow k.messages_follow;
    queue_grows =
        k.queue_grows
        ∙ ap (λ l. l ++ k.messages) h.queue_grows
        ∙ append_assoc u.queue h.messages k.messages;
    others_same = λ j ne. k.others_same j ne ∙ h.others_same j ne;
    events_same = k.events_same ∙ h.events_same;
    endpoints_stay = λ j. k.endpoints_stay j ∙ h.endpoints_stay j;
  }

  abbrev pub Trail : World → World → Type 0
  Trail = Extends most id n

  pub Trail-IsQuiet : IsQuiet Trail
  Trail-IsQuiet = record {
    preorder = record {
      same = λ w. Extends-same w w refl refl refl refl (λ k. refl);
      after = λ h k. Extends-trans h k;
    };
    on_faults = λ w fs. Extends-same w _ refl refl refl refl (λ k. refl);
    on_emitted = λ w es. Extends-same w _ refl refl refl refl (λ k. refl);
  }

  pub Extends-attempt :
      (w : World) (a : Attempt) → IsOwn id n a → Extends most id n w (with_attempt a w)
  Extends-attempt w a own = record {
    rows = a ∷ [];
    rows_own = (own, tt);
    attempts_grow = refl;
    messages = [];
    messages_follow = tt;
    queue_grows = sym (append-nil _);
    others_same = λ j h. refl;
    events_same = refl;
    endpoints_stay = λ k. refl;
  }

  pub Extends-message :
      (w : World) (m : Message) → Follows most id n m → Extends most id n w (with_message m w)
  Extends-message w m follows = record {
    rows = [];
    rows_own = tt;
    attempts_grow = sym (append-nil _);
    messages = m ∷ [];
    messages_follow = (follows, tt);
    queue_grows = refl;
    others_same = λ j h. refl;
    events_same = refl;
    endpoints_stay = λ k. refl;
  }

  pub Extends-delivery :
      (w : World) (f : Delivery → Delivery) → Extends most id n w (with_delivery id f w)
  Extends-delivery w f = record {
    rows = [];
    rows_own = tt;
    attempts_grow = sym (append-nil _);
    messages = [];
    messages_follow = tt;
    queue_grows = sym (append-nil _);
    others_same = λ j h. ground (arith, find_row-modify id j f w.deliveries);
    events_same = refl;
    endpoints_stay = λ k. refl;
  }

  pub Extends-endpoint :
      (w : World) (k : ℕ) (f : Endpoint → Endpoint) → Extends most id n w (with_endpoint k f w)
  Extends-endpoint w k f =
      Extends-same w _ refl refl refl refl (λ j. ground (arith, find_row-modify k j f w.endpoints))
