-- ===== src/Examples/Http.antt =====
-- Bodies in chunks and errors as problems (backend/src/shared/http-client.js,
-- backend/src/api/middleware/error-handler.js).
use hook_tracker.Prelude.{◌≡◌, refl, [], ◌∷◌, some, none, codes, arith}
use hook_tracker.HttpClient.{
  Body, chunk, broken, TransportError, read_snippet, capture, classify_transport_error,
  send_webhook, responded, received,
}
use hook_tracker.HttpClient.Snippet.{Snips, read_snippet-Snips}
use hook_tracker.Problems.{Foreign, foreign, error_handler}

abbrev reset : TransportError
reset = record {
  name = codes "Error";
  code = none;
  cause_code = some (codes "ECONNRESET");
  message = codes "reset";
}

classify_test : classify_transport_error reset ≡ "CONNECTION"
unfolding classify_transport_error
classify_test = refl

abbrev body : Body
body = chunk (1 ∷ 2 ∷ []) (chunk (3 ∷ 4 ∷ []) (broken reset))

-- The error after the limit is not noticed, and only known headers are kept.
kept_test :
    send_webhook 3 12 (
      responded (record {
        status_code = 200;
        headers = (codes "server", codes "x") ∷ (codes "date", codes "now") ∷ [];
        body = body;
      }))
    ≡ received 200 ((codes "date", codes "now") ∷ []) (1 ∷ 2 ∷ 3 ∷ []) 12
unfolding send_webhook capture
kept_test = refl

read_snippet-Snips_example : Snips 3 [] body (read_snippet 3 body)
read_snippet-Snips_example = read_snippet-Snips 3 body (omega arith)

abbrev failure : Foreign
failure = record { foreign_type = none; message = codes "password=hunter2"; headers = [] }

foreign_test : (error_handler (foreign failure) (codes "/v1/events") (codes "r1")).status ≡ 500
unfolding error_handler
foreign_test = refl
