-- ===== src/Dashboard/Deliveries/Reached.antt =====
-- The store after any calls of it, and the numbers that loads claim (dashboard/src/stores/deliveries.js,
-- dashboard/src/composables/use-sequenced-request.js).
use hook_tracker.Prelude.{
  ℕ, Bool-cases, inl, inr, ◌≤◌, ◌≡◌, ◌⊎◌, refl, ◌∙◌, List, [], ◌∷◌, Bool, true, false, ◌==◌, All,
  arith, some,
}
use hook_tracker.Dashboard.Requests.{Run, SequencedRequest, is_current, finish_run}
use hook_tracker.Dashboard.Deliveries.{
  DeliveryList, Load, More, PageAnswer, success, failure, RealtimeEvent, delivery_succeeded,
  delivery_attempted, delivery_failed, delivery_created, other_event, apply_realtime, patch_or_note,
  note_unknown, reset, dismiss_pending, start_load, settle_load, start_more, settle_more,
  load_answered, more_answered, more_from,
}

-- The load is one of the list.
abbrev pub Among : Load → List Load → Type 0
Among l [] = ⊥
Among l (x ∷ ls) = (x ≡ l) ⊎ Among l ls

-- Neither number of the gate and of the list's request changes.
abbrev pub SameNumbers : DeliveryList → DeliveryList → Type 0
SameNumbers s t = (t.latest ≡ s.latest) × (t.list_request.own_seq ≡ s.list_request.own_seq)

answered_numbers :
    (b : Bool) (counted : List ℕ) (a : PageAnswer) (s : DeliveryList)
    → SameNumbers s (load_answered b counted a s)
unfolding load_answered
answered_numbers false counted a s = (refl, refl)
answered_numbers true counted (success body) s = (refl, refl)
answered_numbers true counted (failure caught) s = (refl, refl)

finish_run-own_seq : (run : Run) (r : SequencedRequest) → (finish_run run r).own_seq ≡ r.own_seq
finish_run-own_seq run r = elim (Bool-cases (run.mine == r.own_seq)) [
  | inl e ↦ rw e refl
  | inr e ↦ rw e refl
]

pub same_numbers :
    (l : Load) (a : PageAnswer) (s : DeliveryList) → SameNumbers s (settle_load l a s)
unfolding settle_load
same_numbers l a s =
    let n = answered_numbers (is_current l.run s.latest) l.counted a s in
    (
      n.0,
      finish_run-own_seq l.run
            (load_answered (is_current l.run s.latest) l.counted a s).list_request
          ∙ n.1,
    )

settle_more-numbers :
    (m : More) (a : PageAnswer) (s : DeliveryList) → SameNumbers s (settle_more m a s)
unfolding settle_more more_answered
settle_more-numbers m (success body) s = ground arith
settle_more-numbers m (failure caught) s = ground arith

start_more-numbers : (s t : DeliveryList) (m : More) → start_more s ≡ some (t, m) → SameNumbers s t
unfolding start_more more_from
start_more-numbers s t m h = ground arith

apply_realtime-numbers :
    (event : RealtimeEvent) (s : DeliveryList) → SameNumbers s (apply_realtime event s)
unfolding apply_realtime patch_or_note note_unknown
apply_realtime-numbers (delivery_succeeded id n response duration at_ms) s = ground arith
apply_realtime-numbers (delivery_attempted id n response duration next_at) s = ground arith
apply_realtime-numbers (delivery_failed id n response code at_ms) s = ground arith
apply_realtime-numbers (delivery_created id) s = ground arith
apply_realtime-numbers other_event s = (refl, refl)

-- The store after calls of its functions and answers of the API, in any order, and the loads that
-- were started; an answer comes to one of them, perhaps more than once.
pub data Reached : DeliveryList → List Load → Type 0 where
  opening : (s : DeliveryList) → s.latest ≡ 0 → s.list_request.own_seq ≡ 0 → Reached s []
  loading :
      {s : DeliveryList} {ls : List Load} (id filters : ℕ)
      → Reached s ls
      → Reached (start_load id filters s).0 ((start_load id filters s).1 ∷ ls)
  answering :
      {s : DeliveryList} {ls : List Load} (l : Load) (a : PageAnswer)
      → Among l ls
      → Reached s ls
      → Reached (settle_load l a s) ls
  paging :
      {s : DeliveryList} {ls : List Load} (t : DeliveryList) (m : More)
      → start_more s ≡ some (t, m)
      → Reached s ls
      → Reached t ls
  page_answering :
      {s : DeliveryList} {ls : List Load} (m : More) (a : PageAnswer)
      → Reached s ls
      → Reached (settle_more m a s) ls
  hearing :
      {s : DeliveryList} {ls : List Load} (event : RealtimeEvent)
      → Reached s ls
      → Reached (apply_realtime event s) ls
  resetting : {s : DeliveryList} {ls : List Load} → Reached s ls → Reached (reset s) ls
  dismissing : {s : DeliveryList} {ls : List Load} → Reached s ls → Reached (dismiss_pending s) ls

-- The numbers of the loads that were started are not above those of the store.
abbrev pub IsNumbered : DeliveryList → Load → Type 0
IsNumbered s l = (l.run.seq ≤ s.latest) × (l.run.mine ≤ s.list_request.own_seq)

IsNumbered-on :
    (s t : DeliveryList) (ls : List Load)
    → (s.latest ≤ t.latest) × (s.list_request.own_seq ≤ t.list_request.own_seq)
    → All (IsNumbered s) ls
    → All (IsNumbered t) ls
IsNumbered-on s t [] more h = tt
IsNumbered-on s t (l ∷ ls) more ((seq, mine), h) =
    ((omega (arith, seq, more), omega (arith, mine, more)), IsNumbered-on s t ls more h)

IsNumbered-same :
    (s t : DeliveryList) (ls : List Load)
    → SameNumbers s t
    → All (IsNumbered s) ls
    → All (IsNumbered t) ls
IsNumbered-same s t ls (latest, own) =
    IsNumbered-on s t ls (omega (arith, latest), omega (arith, own))

pub Reached-IsNumbered : {s : DeliveryList} {ls : List Load} → Reached s ls → All (IsNumbered s) ls
unfolding start_load reset dismiss_pending
Reached-IsNumbered (opening s latest own) = tt
Reached-IsNumbered (loading {s} {ls} id filters r) = (
  (omega arith, omega arith),
  IsNumbered-on s (start_load id filters s).0 ls (omega arith, omega arith) (Reached-IsNumbered r),
)
Reached-IsNumbered (answering {s} {ls} l a known r) =
    IsNumbered-same s (settle_load l a s) ls (same_numbers l a s) (Reached-IsNumbered r)
Reached-IsNumbered (paging {s} {ls} t m started r) =
    IsNumbered-same s t ls (start_more-numbers s t m started) (Reached-IsNumbered r)
Reached-IsNumbered (page_answering {s} {ls} m a r) =
    IsNumbered-same s (settle_more m a s) ls (settle_more-numbers m a s) (Reached-IsNumbered r)
Reached-IsNumbered (hearing {s} {ls} event r) =
    IsNumbered-same s (apply_realtime event s) ls (apply_realtime-numbers event s)
      (Reached-IsNumbered r)
Reached-IsNumbered (resetting {s} {ls} r) =
    IsNumbered-same s (reset s) ls (refl, refl) (Reached-IsNumbered r)
Reached-IsNumbered (dismissing {s} {ls} r) =
    IsNumbered-same s (dismiss_pending s) ls (refl, refl) (Reached-IsNumbered r)
