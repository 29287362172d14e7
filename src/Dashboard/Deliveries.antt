-- ===== src/Dashboard/Deliveries.antt =====
-- dashboard/src/stores/deliveries.js: the list of deliveries, its pages, and the realtime events.
-- A call of the store is one step up to its request to the API, and a second one when the answer
-- comes. Texts that the store only passes on are numbers.
pub mod Reached
pub mod Order
pub mod Pending
use hook_tracker.Prelude.{
  ℕ, suc, Bool, true, false, ◌&&◌, ◌||◌, not, List, [], ◌∷◌, ◌++◌, Option, none, some, map, keep,
  any, ◌==◌, if◌then◌else◌, is_some,
}
use hook_tracker.Status.{DeliveryStatus, succeeded, retrying, failed_permanently}
use hook_tracker.Dashboard.Requests.{
  SequencedRequest, Run, idle_request, begin, claim_number, run_of, is_current, finish_run,
  fail_run,
}

-- The fields of a row that the store writes; the others stay with it.
pub record Item : Type 0 where
  pub id : ℕ
  pub status : DeliveryStatus
  pub attempt_count : ℕ
  pub last_response_status : Option ℕ
  pub last_duration_ms : Option ℕ
  pub last_error : Option ℕ
  pub completed_at : Option ℕ
  pub next_attempt_at : Option ℕ

pub record ItemPage : Type 0 where
  pub deliveries : List Item
  pub next_cursor : Option ℕ

pub data PageAnswer : Type 0 where
  success : ItemPage → PageAnswer
  failure : ℕ → PageAnswer

-- What a request asks the API for.
pub record Query : Type 0 where
  pub project_id : ℕ
  pub filters : ℕ
  pub cursor : Option ℕ

pub record DeliveryList : Type 0 where
  pub latest : ℕ
  pub list_request : SequencedRequest
  pub more_request : SequencedRequest
  pub items : List Item
  pub next_cursor : Option ℕ
  pub pending_ids : List ℕ
  pub active_filters : ℕ
  pub project_id : ℕ

abbrev pub includes_id : ℕ → List ℕ → Bool
includes_id id ids = any (λ j. j == id) ids

unfoldable pub reset : DeliveryList → DeliveryList
reset s = record s {
  items = [];
  next_cursor = none;
  list_request = record s.list_request { error = none };
  more_request = record s.more_request { error = none };
  pending_ids = [];
}

unfoldable pub settle_pending : List ℕ → List ℕ → List ℕ
settle_pending counted pending_ids = keep (λ id. not (includes_id id counted)) pending_ids

-- A load that waits for its answer.
pub record Load : Type 0 where
  pub run : Run
  pub counted : List ℕ
  pub query : Query

unfoldable pub start_load : ℕ → ℕ → DeliveryList → DeliveryList × Load
start_load id filters s =
    let request = begin s.list_request in
    let latest = claim_number true s.latest in
    (
      record s {
        latest = latest;
        list_request = request;
        more_request = record s.more_request { error = none };
        active_filters = filters;
        project_id = id;
      },
      record {
        run = run_of request latest;
        counted = s.pending_ids;
        query = record { project_id = id; filters = filters; cursor = none };
      },
    )

load_answered : Bool → List ℕ → PageAnswer → DeliveryList → DeliveryList
unfolding settle_pending
load_answered false counted a s = s
load_answered true counted (success body) s = record s {
  items = body.deliveries;
  next_cursor = body.next_cursor;
  pending_ids = settle_pending counted s.pending_ids;
}
load_answered true counted (failure caught) s = record s {
  list_request = fail_run true caught s.list_request;
  items = [];
  next_cursor = none;
}

unfoldable pub settle_load : Load → PageAnswer → DeliveryList → DeliveryList
unfolding load_answered
settle_load l a s =
    let answered = load_answered (is_current l.run s.latest) l.counted a s in
    record answered { list_request = finish_run l.run answered.list_request }

-- A page that waits for its answer.
pub record More : Type 0 where
  pub run : Run
  pub query : Query

more_from : Option ℕ → DeliveryList → Option (DeliveryList × More)
more_from none s = none
more_from (some cursor) s =
    let request = begin s.more_request in
    some (
      record s { more_request = request },
      record {
        run = run_of request (claim_number false s.latest);
        query = record {
          project_id = s.project_id;
          filters = s.active_filters;
          cursor = some cursor;
        };
      },
    )

-- `none` where `loadMore` returns at once.
unfoldable pub start_more : DeliveryList → Option (DeliveryList × More)
unfolding more_from
start_more s = if s.more_request.loading then none else more_from s.next_cursor s

more_answered : Bool → PageAnswer → DeliveryList → DeliveryList
more_answered false a s = s
more_answered true (success body) s = record s {
  items = s.items ++ body.deliveries;
  next_cursor = body.next_cursor;
}
more_answered true (failure caught) s = record s {
  more_request = fail_run true caught s.more_request;
}

unfoldable pub settle_more : More → PageAnswer → DeliveryList → DeliveryList
unfolding more_answered
settle_more m a s =
    let answered = more_answered (is_current m.run s.latest) a s in
    record answered { more_request = finish_run m.run answered.more_request }

abbrev pub knows : ℕ → List Item → Bool
knows id items = any (λ item. item.id == id) items

unfoldable pub note_unknown : ℕ → DeliveryList → DeliveryList
note_unknown id s =
    if not (knows id s.items) && not (includes_id id s.pending_ids)
    then record s { pending_ids = s.pending_ids ++ id ∷ [] }
    else s

-- `patch`, then `noteUnknown` if no row was there to patch.
unfoldable pub patch_or_note : ℕ → (Item → Item) → DeliveryList → DeliveryList
unfolding note_unknown
patch_or_note id changes s =
    if knows id s.items
    then record s { items = map (λ item. if item.id == id then changes item else item) s.items }
    else note_unknown id s

-- The events with the parts of their payloads that the store reads.
pub data RealtimeEvent : Type 0 where
  delivery_succeeded : ℕ → ℕ → Option ℕ → Option ℕ → ℕ → RealtimeEvent
  delivery_attempted : ℕ → ℕ → Option ℕ → Option ℕ → ℕ → RealtimeEvent
  delivery_failed : ℕ → ℕ → Option ℕ → Option ℕ → ℕ → RealtimeEvent
  delivery_created : ℕ → RealtimeEvent
  other_event : RealtimeEvent

unfoldable pub apply_realtime : RealtimeEvent → DeliveryList → DeliveryList
unfolding patch_or_note note_unknown
apply_realtime (delivery_succeeded id attempt response duration at_ms) s =
    patch_or_note id
      (λ item. record item {
        status = succeeded;
        attempt_count = attempt;
        last_response_status = response;
        last_duration_ms = duration;
        completed_at = some at_ms;
        next_attempt_at = none;
      })
      s
apply_realtime (delivery_attempted id attempt response duration next_at) s =
    patch_or_note id
      (λ item. record item {
        status = retrying;
        attempt_count = attempt;
        last_response_status = response;
        last_duration_ms = duration;
        next_attempt_at = some next_at;
      })
      s
apply_realtime (delivery_failed id attempt response code at_ms) s =
    patch_or_note id
      (λ item. record item {
        status = failed_permanently;
        attempt_count = attempt;
        last_response_status = response;
        last_error = code;
        completed_at = some at_ms;
        next_attempt_at = none;
      })
      s
apply_realtime (delivery_created id) s = note_unknown id s
apply_realtime other_event s = s

unfoldable pub dismiss_pending : DeliveryList → DeliveryList
dismiss_pending s = record s { pending_ids = [] }
