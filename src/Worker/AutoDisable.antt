-- ===== src/Worker/AutoDisable.antt =====
-- When a failed delivery disables its endpoint (`finaliseFailure` of
-- backend/src/worker/handle-delivery.js).
use hook_tracker.Prelude.{ℕ, suc, ◌≡◌, [], ◌∷◌, some, true, leb, ◌&&◌, if◌then◌else◌, arith}
use hook_tracker.Status.{disabled, is_active, FailureReason}
use hook_tracker.Store.{find_row, modify, find_row-modify, Delivery, Endpoint, Event, SendResult}
use hook_tracker.World.{World, Alert, call, write, emit, has_delivery}
use hook_tracker.Publisher.{publish_dead_letter}
use hook_tracker.Exchange.{Env}
use hook_tracker.Worker.{finalise_failure, should_disable}
use hook_tracker.Worker.Settled.{Returns}

abbrev pub counted : Endpoint → Endpoint
counted ep = record ep { consecutive_failures = suc ep.consecutive_failures }

abbrev pub alert_of : Event → ℕ → Endpoint → Alert
alert_of ev endpoint_id ep = record {
  project_id = ev.project_id;
  endpoint_id = endpoint_id;
  consecutive_failures = suc ep.consecutive_failures;
}

-- When no call fails, the last attempt of a delivery adds one to the failures that its endpoint
-- has had in a row. Exactly if that brings an active endpoint to the threshold, the endpoint is
-- disabled and one alert is raised; an endpoint that is disabled already raises none.
pub finalise_failure-disables :
    (e : Env) (id m : ℕ) (d : Delivery) (ev : Event) (ep : Endpoint) (r : SendResult)
    (reason : FailureReason) (w : World)
    → w.faults ≡ []
    → has_delivery id w ≡ true
    → find_row d.endpoint_id w.endpoints ≡ some ep
    → let flips =
        is_active ep.status && leb e.config.auto_disable_threshold (suc ep.consecutive_failures) in
      Returns (finalise_failure e id d ev (suc m) r reason) w (λ _ w'.
        (find_row d.endpoint_id w'.endpoints
          ≡ some (if flips then record (counted ep) { status = disabled } else counted ep))
        × (w'.alerts ≡ (if flips then alert_of ev d.endpoint_id ep ∷ w.alerts else w.alerts)))
unfolding finalise_failure write call emit publish_dead_letter should_disable
finalise_failure-disables e id m d ev ep r reason w nf row owner = ground (
  arith,
  find_row-modify d.endpoint_id d.endpoint_id counted w.endpoints,
  find_row-modify d.endpoint_id d.endpoint_id (λ x. record x { status = disabled })
      (modify d.endpoint_id counted w.endpoints),
)
