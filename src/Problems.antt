-- ===== src/Problems.antt =====
-- backend/src/shared/errors.js and backend/src/api/middleware/error-handler.js: errors as problem
-- documents. Texts are lists of code points.
pub mod Internal
use hook_tracker.Prelude.{
  ℕ, List, [], ◌∷◌, ◌++◌, Option, none, some, codes, text_eq, map, Bool, true, false, leb,
  if◌then◌else◌,
}

abbrev pub Text : Type 0
Text = List ℕ

-- What `new` of each class is given. An issue is its path and its message.
pub record Issue : Type 0 where
  pub path : List Text
  pub message : Text

pub record FieldError : Type 0 where
  pub path : Text
  pub message : Text

pub data Raised : Type 0 where
  validation : Text → Option (List FieldError) → Raised
  unauthorized forbidden not_found conflict payload_too_large unprocessable : Text → Raised
  rate_limited : Text → List (Text × Text) → Raised
  service_unavailable : Text → Option (List FieldError) → Raised

pub record AppError : Type 0 where
  pub status : ℕ
  pub error_type : Text
  pub title : Text
  pub detail : Text
  pub headers : List (Text × Text)
  pub errors : Option (List FieldError)

abbrev type_prefix : Text
type_prefix = codes "urn:hook-tracker:error:"

abbrev plain_error : ℕ → Text → Text → Text → AppError
plain_error status kind title detail = record {
  status = status;
  error_type = type_prefix ++ kind;
  title = title;
  detail = detail;
  headers = [];
  errors = none;
}

unfoldable pub app_error : Raised → AppError
app_error (validation detail errors) =
    record (plain_error 400 (codes "validation-failed") (codes "Validation failed") detail) {
      errors = errors;
    }
app_error (unauthorized detail) =
    plain_error 401 (codes "unauthorized") (codes "Unauthorized") detail
app_error (forbidden detail) = plain_error 403 (codes "forbidden") (codes "Forbidden") detail
app_error (not_found detail) = plain_error 404 (codes "not-found") (codes "Not found") detail
app_error (conflict detail) = plain_error 409 (codes "conflict") (codes "Conflict") detail
app_error (payload_too_large detail) =
    plain_error 413 (codes "payload-too-large") (codes "Payload too large") detail
app_error (unprocessable detail) =
    plain_error 422 (codes "unprocessable") (codes "Unprocessable request") detail
app_error (rate_limited detail headers) =
    record (plain_error 429 (codes "rate-limited") (codes "Rate limit exceeded") detail) {
      headers = headers;
    }
app_error (service_unavailable detail errors) =
    record (plain_error 503 (codes "service-unavailable") (codes "Service unavailable") detail) {
      errors = errors;
    }

-- An error of another class, with the fields that the handler reads.
pub record Foreign : Type 0 where
  pub foreign_type : Option Text
  pub message : Text
  pub headers : List (Text × Text)

pub data AnyError : Type 0 where
  raised : Raised → AnyError
  foreign : Foreign → AnyError

pub record Problem : Type 0 where
  pub problem_type : Text
  pub title : Text
  pub status : ℕ
  pub detail : Option Text
  pub instance_path : Text
  pub request_id : Text
  pub errors : Option (List FieldError)

unfoldable pub to_problem : AnyError → Text → Text → Problem
unfolding app_error
to_problem (raised e) instance_path request_id = record {
  problem_type = (app_error e).error_type;
  title = (app_error e).title;
  status = (app_error e).status;
  detail = some (app_error e).detail;
  instance_path = instance_path;
  request_id = request_id;
  errors = (app_error e).errors;
}
to_problem (foreign e) instance_path request_id = record {
  problem_type = type_prefix ++ codes "internal";
  title = codes "Internal server error";
  status = 500;
  detail = none;
  instance_path = instance_path;
  request_id = request_id;
  errors = none;
}

-- `path.join('.')`
unfoldable pub join_path : List Text → Text
join_path [] = []
join_path (p ∷ []) = p
join_path (p ∷ q ∷ path) = p ++ b'.' ∷ join_path (q ∷ path)

unfoldable pub issues_to_errors : List Issue → List FieldError
unfolding join_path
issues_to_errors issues =
    map (λ issue. record { path = join_path issue.path; message = issue.message }) issues

body_parser_failure : Foreign → Text → AnyError
body_parser_failure e kind =
    if text_eq kind (codes "entity.too.large")
    then raised (payload_too_large (codes "The request body exceeds MAX_PAYLOAD_BYTES"))
    else if text_eq kind (codes "entity.parse.failed")
    then raised (validation (codes "The request body is not valid JSON") none)
    else foreign e

typed_failure : Foreign → Option Text → AnyError
unfolding body_parser_failure
typed_failure e none = foreign e
typed_failure e (some kind) = body_parser_failure e kind

unfoldable pub normalise : AnyError → AnyError
unfolding typed_failure
normalise (raised e) = raised e
normalise (foreign e) = typed_failure e e.foreign_type

abbrev headers_of : AnyError → List (Text × Text)
headers_of (raised e) = (app_error e).headers
headers_of (foreign e) = e.headers

-- The answer, and whether it is logged as an error instead of a warning.
pub record ProblemResponse : Type 0 where
  pub status : ℕ
  pub headers : List (Text × Text)
  pub problem : Problem
  pub logged_as_error : Bool

unfoldable pub error_handler : AnyError → Text → Text → ProblemResponse
unfolding normalise to_problem
error_handler error original_url request_id =
    let problem = to_problem (normalise error) original_url request_id in
    record {
      status = problem.status;
      headers = headers_of (normalise error);
      problem = problem;
      logged_as_error = leb 500 problem.status;
    }

unfoldable pub not_found_handler : Text → Text → AnyError
not_found_handler method path =
    raised (not_found (codes "No route matches " ++ method ++ b' ' ∷ path))
