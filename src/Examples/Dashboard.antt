-- ===== src/Examples/Dashboard.antt =====
-- The dashboard at concrete inputs: a command with quotes in its body, and answers of the API that
-- overtake each other (dashboard/src/lib/curl.js, dashboard/src/stores/deliveries.js).
use hook_tracker.Prelude.{◌≡◌, refl, [], ◌∷◌, some, none, codes, ℕ, inl}
use hook_tracker.Status.{pending}
use hook_tracker.Dashboard.Curl.{build_curl, shell_quote}
use hook_tracker.Dashboard.Curl.Words.{words}
use hook_tracker.Dashboard.Curl.Command.{words-build_curl}
use hook_tracker.Dashboard.Requests.{idle_request}
use hook_tracker.Dashboard.Deliveries.{
  DeliveryList, Item, ItemPage, Load, More, success, start_load, settle_load, start_more,
  settle_more, delivery_created, apply_realtime,
}
use hook_tracker.Dashboard.Deliveries.Order.{settle_all, Shows, settle_all-latest, load_more_mixes}
use hook_tracker.Dashboard.Deliveries.Reached.{opening, loading}
use hook_tracker.Dashboard.Deliveries.Pending.{Steps, here, next, hearing}

quote_test : shell_quote (codes "it's") ≡ codes "'it'\\''s'"
unfolding shell_quote
quote_test = refl

words-build_curl_example :
    words (
      build_curl
        (codes "https://a.example/$(id)")
        ((codes "x", codes "1; rm -rf /") ∷ [])
        (some (codes "{'}")))
    ≡ some (
        codes "curl"
        ∷ codes "-X"
        ∷ codes "POST"
        ∷ codes "https://a.example/$(id)"
        ∷ codes "-H"
        ∷ codes "x: 1; rm -rf /"
        ∷ codes "-d"
        ∷ codes "{'}"
        ∷ [])
words-build_curl_example =
    words-build_curl (codes "https://a.example/$(id)") ((codes "x", codes "1; rm -rf /") ∷ [])
      (some (codes "{'}"))

abbrev item : ℕ → Item
item id = record {
  id = id;
  status = pending;
  attempt_count = 0;
  last_response_status = none;
  last_duration_ms = none;
  last_error = none;
  completed_at = none;
  next_attempt_at = none;
}

abbrev shown : DeliveryList
shown = record {
  latest = 0;
  list_request = idle_request;
  more_request = idle_request;
  items = item 1 ∷ [];
  next_cursor = some 50;
  pending_ids = [];
  active_filters = 0;
  project_id = 3;
}

abbrev page : ℕ → ItemPage
page id = record { deliveries = item id ∷ []; next_cursor = none }

abbrev once : DeliveryList × Load
once = start_load 3 1 shown

-- The answer to the first load comes after that to the second.
settle_all-latest_example : Shows (success (page 7)) (
    settle_all
      (((start_load 3 2 once.0).1, success (page 7)) ∷ (once.1, success (page 8)) ∷ [])
      (start_load 3 2 once.0).0)
settle_all-latest_example =
    settle_all-latest 3 2 (success (page 7)) [] ((once.1, success (page 8)) ∷ [])
      (loading 3 1 (opening shown refl refl)) tt (inl refl, tt)

overtaken_test :
    (settle_all
      (((start_load 3 2 once.0).1, success (page 7)) ∷ (once.1, success (page 8)) ∷ [])
      (start_load 3 2 once.0).0).items
    ≡ item 7 ∷ []
unfolding start_load settle_load
overtaken_test = refl

load_more_mixes_example :
    (m : More) × (t : DeliveryList) × (start_more (start_load 3 1 shown).0 ≡ some (t, m))
    × (m.query.cursor ≡ some 50)
    × ((settle_more m
          (success (page 2))
          (settle_load (start_load 3 1 shown).1 (success (page 9)) t)).items
        ≡ item 9 ∷ item 2 ∷ [])
    × ((settle_more m
          (success (page 2))
          (settle_load (start_load 3 1 shown).1 (success (page 9)) t)).next_cursor
        ≡ none)
load_more_mixes_example = load_more_mixes 3 1 50 shown (page 9) (page 2) refl refl

heard :
    Steps shown (apply_realtime (delivery_created 4) (apply_realtime (delivery_created 4) shown))
heard =
    next (next here (hearing (delivery_created 4) shown))
      (hearing (delivery_created 4) (apply_realtime (delivery_created 4) shown))
