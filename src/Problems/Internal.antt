-- ===== src/Problems/Internal.antt =====
-- What a client learns of an error (backend/src/api/middleware/error-handler.js).
use hook_tracker.Prelude.{◌≡◌, refl, codes, none, arith, ◌≢◌, true, le→leb}
use hook_tracker.Problems.{
  Text, Raised, AnyError, raised, foreign, Problem, app_error, to_problem, normalise, error_handler,
  validation, unauthorized, forbidden, not_found, conflict, payload_too_large, unprocessable,
  rate_limited, service_unavailable,
}

-- The document that tells nothing but that something failed.
abbrev pub internal_problem : Text → Text → Problem
internal_problem url request_id = record {
  problem_type = codes "urn:hook-tracker:error:internal";
  title = codes "Internal server error";
  status = 500;
  detail = none;
  instance_path = url;
  request_id = request_id;
  errors = none;
}

raised-status : (e : Raised) → (app_error e).status ≢ 500
unfolding app_error
raised-status (validation detail errors) = λ h. omega (arith, h)
raised-status (unauthorized detail) = λ h. omega (arith, h)
raised-status (forbidden detail) = λ h. omega (arith, h)
raised-status (not_found detail) = λ h. omega (arith, h)
raised-status (conflict detail) = λ h. omega (arith, h)
raised-status (payload_too_large detail) = λ h. omega (arith, h)
raised-status (unprocessable detail) = λ h. omega (arith, h)
raised-status (rate_limited detail headers) = λ h. omega (arith, h)
raised-status (service_unavailable detail errors) = λ h. omega (arith, h)

to_problem-internal :
    (f : AnyError) (url request_id : Text)
    → (to_problem f url request_id).status ≡ 500
    → to_problem f url request_id ≡ internal_problem url request_id
unfolding to_problem
to_problem-internal (raised e) url request_id h = elim (raised-status e h) [ ]
to_problem-internal (foreign e) url request_id h = refl

-- Whatever error reaches the handler: an answer with the status 500 holds the same document for every
-- error, with nothing of its message, its type or its fields, and it is one of those that are
-- logged as errors.
pub error_handler-internal :
    (error : AnyError) (url request_id : Text)
    → (error_handler error url request_id).status ≡ 500
    → ((error_handler error url request_id).problem ≡ internal_problem url request_id)
      × ((error_handler error url request_id).logged_as_error ≡ true)
unfolding error_handler
error_handler-internal error url request_id h =
    (to_problem-internal (normalise error) url request_id h, le→leb _ _ (omega (arith, h)))
