-- ===== src/Dashboard/Deliveries/Pending.antt =====
-- The counter of new rows (dashboard/src/stores/deliveries.js).
use hook_tracker.Prelude.{
  ℕ, ◌≡◌, refl, List, [], ◌∷◌, ◌++◌, Bool, true, false, not, ◌&&◌, ◌==◌, keep, any-append, arith,
  if◌then◌else◌, some,
}
use hook_tracker.Dashboard.Requests.{is_current}
use hook_tracker.Dashboard.Deliveries.{
  DeliveryList, Load, More, PageAnswer, success, failure, RealtimeEvent, delivery_succeeded,
  delivery_attempted, delivery_failed, delivery_created, other_event, reset, start_load,
  settle_load, start_more, settle_more, apply_realtime, patch_or_note, note_unknown,
  dismiss_pending, settle_pending, load_answered, more_answered, more_from, includes_id, knows,
  Item,
}

-- No id is counted twice.
abbrev pub are_distinct : List ℕ → Bool
are_distinct [] = true
are_distinct (id ∷ ids) = not (includes_id id ids) && are_distinct ids

abbrev pub CountsOnce : DeliveryList → Type 0
CountsOnce s = are_distinct s.pending_ids ≡ true

-- What the page may do with the store, and the answers that come, in any order and to any calls.
pub data Step : DeliveryList → DeliveryList → Type 0 where
  resetting : (s : DeliveryList) → Step s (reset s)
  loading : (id filters : ℕ) (s : DeliveryList) → Step s (start_load id filters s).0
  load_settling : (l : Load) (a : PageAnswer) (s : DeliveryList) → Step s (settle_load l a s)
  paging : (s t : DeliveryList) (m : More) → start_more s ≡ some (t, m) → Step s t
  page_settling : (m : More) (a : PageAnswer) (s : DeliveryList) → Step s (settle_more m a s)
  hearing : (e : RealtimeEvent) (s : DeliveryList) → Step s (apply_realtime e s)
  dismissing : (s : DeliveryList) → Step s (dismiss_pending s)

pub data Steps (start : DeliveryList) : DeliveryList → Type 0 where
  here : Steps start start
  next : {s t : DeliveryList} → Steps start s → Step s t → Steps start t

includes-keep :
    (id : ℕ) (p : ℕ → Bool) (ids : List ℕ)
    → includes_id id ids ≡ false
    → includes_id id (keep p ids) ≡ false
includes-keep id p [] h = refl
includes-keep id p (x ∷ ids) h = ground (arith, includes-keep id p ids)

distinct-keep :
    (p : ℕ → Bool) (ids : List ℕ) → are_distinct ids ≡ true → are_distinct (keep p ids) ≡ true
distinct-keep p [] h = refl
distinct-keep p (x ∷ ids) h = ground (arith, distinct-keep p ids, includes-keep x p ids)

distinct-append :
    (id : ℕ) (ids : List ℕ)
    → are_distinct ids ≡ true
    → includes_id id ids ≡ false
    → are_distinct (ids ++ id ∷ []) ≡ true
distinct-append id [] h new = refl
distinct-append id (x ∷ ids) h new =
    ground (arith, distinct-append id ids, any-append (λ j. j == x) ids (id ∷ []))

note_unknown-CountsOnce :
    (id : ℕ) (s : DeliveryList) → CountsOnce s → CountsOnce (note_unknown id s)
unfolding note_unknown
note_unknown-CountsOnce id s h = ground (arith, distinct-append id s.pending_ids h)

either-CountsOnce :
    (b : Bool) (s t : DeliveryList) → CountsOnce s → CountsOnce t → CountsOnce (if b then s else t)
either-CountsOnce true s t h k = h
either-CountsOnce false s t h k = k

patch_or_note-CountsOnce :
    (id : ℕ) (f : Item → Item) (s : DeliveryList) → CountsOnce s → CountsOnce (patch_or_note id f s)
unfolding patch_or_note
patch_or_note-CountsOnce id f s h =
    either-CountsOnce (knows id s.items) _ _ h (note_unknown-CountsOnce id s h)

apply_realtime-CountsOnce :
    (e : RealtimeEvent) (s : DeliveryList) → CountsOnce s → CountsOnce (apply_realtime e s)
unfolding apply_realtime
apply_realtime-CountsOnce (delivery_succeeded id n r d t) s h = patch_or_note-CountsOnce id _ s h
apply_realtime-CountsOnce (delivery_attempted id n r d t) s h = patch_or_note-CountsOnce id _ s h
apply_realtime-CountsOnce (delivery_failed id n r c t) s h = patch_or_note-CountsOnce id _ s h
apply_realtime-CountsOnce (delivery_created id) s h = note_unknown-CountsOnce id s h
apply_realtime-CountsOnce other_event s h = h

load_answered-CountsOnce :
    (b : Bool) (counted : List ℕ) (a : PageAnswer) (s : DeliveryList)
    → CountsOnce s
    → CountsOnce (load_answered b counted a s)
unfolding load_answered settle_pending
load_answered-CountsOnce false counted a s h = h
load_answered-CountsOnce true counted (success body) s h = distinct-keep _ s.pending_ids h
load_answered-CountsOnce true counted (failure caught) s h = h

more_answered-same :
    (b : Bool) (a : PageAnswer) (s : DeliveryList)
    → (more_answered b a s).pending_ids ≡ s.pending_ids
unfolding more_answered
more_answered-same false a s = refl
more_answered-same true (success body) s = refl
more_answered-same true (failure caught) s = refl

start_more-same :
    (s t : DeliveryList) (m : More) → start_more s ≡ some (t, m) → t.pending_ids ≡ s.pending_ids
unfolding start_more more_from
start_more-same s t m h = ground arith

Step-CountsOnce : {s t : DeliveryList} → Step s t → CountsOnce s → CountsOnce t
unfolding reset start_load settle_load settle_more dismiss_pending
Step-CountsOnce (resetting s) h = refl
Step-CountsOnce (loading id filters s) h = h
Step-CountsOnce (load_settling l a s) h =
    load_answered-CountsOnce (is_current l.run s.latest) l.counted a s h
Step-CountsOnce (paging s t m e) h = rw (start_more-same s t m e) h
Step-CountsOnce (page_settling m a s) h = rw (more_answered-same (is_current m.run s.latest) a s) h
Step-CountsOnce (hearing e s) h = apply_realtime-CountsOnce e s h
Step-CountsOnce (dismissing s) h = refl

-- In every run of loads, pages, answers, realtime events, resets and dismissals that starts with no
-- id counted twice, no id is counted twice, so the number of new rows is never too high for an
-- event that is heard again.
pub Steps-CountsOnce : {s t : DeliveryList} → Steps s t → CountsOnce s → CountsOnce t
Steps-CountsOnce here h = h
Steps-CountsOnce (next steps step) h = Step-CountsOnce step (Steps-CountsOnce steps h)
