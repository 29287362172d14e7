-- ===== src/HttpClient.antt =====
-- backend/src/shared/http-client.js: one attempt over HTTP. The client library is an argument: what
-- it answers, and the body as it arrives, chunk by chunk. Texts are lists of code points, a body is
-- a list of bytes. The pinned dispatcher and the timeouts are options of the library.
pub mod Snippet
use hook_tracker.Prelude.{
  ℕ, ◌+◌, ◌-◌, String, Bool, true, false, ◌||◌, List, [], ◌∷◌, ◌++◌, Option, none, some, codes,
  text_eq, any, take, leb, length, if◌then◌else◌,
}

abbrev pub Text : Type 0
Text = List ℕ

pub record TransportError : Type 0 where
  pub name : Text
  pub code : Option Text
  pub cause_code : Option Text
  pub message : Text

abbrev timeout_codes : List Text
timeout_codes =
    codes "UND_ERR_CONNECT_TIMEOUT"
    ∷ codes "UND_ERR_HEADERS_TIMEOUT"
    ∷ codes "UND_ERR_BODY_TIMEOUT"
    ∷ codes "ABORT_ERR"
    ∷ []

abbrev dns_codes : List Text
dns_codes = codes "ENOTFOUND" ∷ codes "EAI_AGAIN" ∷ []

abbrev connection_codes : List Text
connection_codes =
    codes "ECONNREFUSED"
    ∷ codes "ECONNRESET"
    ∷ codes "EHOSTUNREACH"
    ∷ codes "ENETUNREACH"
    ∷ codes "EPIPE"
    ∷ []

-- `set.has(code)`
abbrev has_code : List Text → Option Text → Bool
has_code known none = false
has_code known (some code) = any (text_eq code) known

-- `error?.code ?? error?.cause?.code`
abbrev code_of : Option Text → Option Text → Option Text
code_of none cause = cause
code_of (some code) cause = some code

unfoldable pub classify_transport_error : TransportError → String
classify_transport_error error =
    let code = code_of error.code error.cause_code in
    if text_eq error.name (codes "TimeoutError") || has_code timeout_codes code
    then "TIMEOUT"
    else if has_code dns_codes code
    then "DNS"
    else if has_code connection_codes code
    then "CONNECTION"
    else "REQUEST_FAILED"

-- CAPTURED_RESPONSE_HEADERS
abbrev captured_response_headers : List Text
captured_response_headers =
    codes "content-type"
    ∷ codes "content-length"
    ∷ codes "retry-after"
    ∷ codes "date"
    ∷ codes "x-request-id"
    ∷ []

-- `headers[name]`
abbrev pub header_of : Text → List (Text × Text) → Option Text
header_of name [] = none
header_of name ((n, value) ∷ headers) =
    if text_eq n name then some value else header_of name headers

capture_from : List Text → List (Text × Text) → List (Text × Text)
capture_from [] headers = []
capture_from (name ∷ names) headers = elim (header_of name headers) [
  | none ↦ capture_from names headers
  | some value ↦ (name, value) ∷ capture_from names headers
]

unfoldable pub capture : List (Text × Text) → List (Text × Text)
unfolding capture_from
capture headers = capture_from captured_response_headers headers

-- A body that comes to its end, or breaks off.
pub data Body : Type 0 where
  ended : Body
  chunk : List ℕ → Body → Body
  broken : TransportError → Body

pub data Read : Type 0 where
  read_bytes : List ℕ → Read
  read_throws : TransportError → Read

-- The loop, with the bytes so far; it breaks once they reach the limit.
unfoldable pub read_chunks : ℕ → List ℕ → Body → Read
read_chunks limit_bytes so_far ended = read_bytes so_far
read_chunks limit_bytes so_far (broken error) = read_throws error
read_chunks limit_bytes so_far (chunk bytes rest) =
    let more = read_chunks limit_bytes (so_far ++ bytes) rest in
    if leb limit_bytes (length (so_far ++ bytes)) then read_bytes (so_far ++ bytes) else more

-- `subarray(0, limitBytes)`
abbrev snipped : ℕ → Read → Read
snipped limit_bytes (read_bytes bytes) = read_bytes (take limit_bytes bytes)
snipped limit_bytes (read_throws error) = read_throws error

unfoldable pub read_snippet : ℕ → Body → Read
unfolding read_chunks
read_snippet limit_bytes body = snipped limit_bytes (read_chunks limit_bytes [] body)

pub record HttpResponse : Type 0 where
  pub status_code : ℕ
  pub headers : List (Text × Text)
  pub body : Body

pub data Answered : Type 0 where
  responded : HttpResponse → Answered
  request_throws : TransportError → Answered

-- What `sendWebhook` returns; it does not throw.
pub data Sent : Type 0 where
  received : ℕ → List (Text × Text) → List ℕ → ℕ → Sent
  errored : String → Text → ℕ → Sent

sent_error : ℕ → TransportError → Sent
unfolding classify_transport_error
sent_error duration error = errored (classify_transport_error error) error.message duration

with_snippet : ℕ → HttpResponse → Read → Sent
unfolding sent_error capture
with_snippet duration r (read_bytes bytes) =
    received r.status_code (capture r.headers) bytes duration
with_snippet duration r (read_throws error) = sent_error duration error

-- The duration is given in both cases.
unfoldable pub send_webhook : ℕ → ℕ → Answered → Sent
unfolding with_snippet sent_error read_snippet
send_webhook snippet_bytes duration (responded r) =
    with_snippet duration r (read_snippet snippet_bytes r.body)
send_webhook snippet_bytes duration (request_throws error) = sent_error duration error
