-- ===== src/Dashboard/Requests.antt =====
-- dashboard/src/composables/use-sequenced-request.js: a gate that several requests share, and the
-- requests, of which an owner claims the next number of the gate and a follower only reads it.
use hook_tracker.Prelude.{ℕ, suc, Bool, true, false, ◌==◌, if◌then◌else◌, Option, none, some}

-- `loading`, `error` and `ownSeq`. An error is a number that stands for it.
pub record SequencedRequest : Type 0 where
  pub loading : Bool
  pub error : Option ℕ
  pub own_seq : ℕ

abbrev pub idle_request : SequencedRequest
idle_request = record { loading = false; error = none; own_seq = 0 }

-- `mine` and `seq` of a run that waits for its answer.
pub record Run : Type 0 where
  pub mine : ℕ
  pub seq : ℕ

-- The beginning of `run`, up to the call of the fetcher.
abbrev pub begin : SequencedRequest → SequencedRequest
begin r = record { loading = true; error = none; own_seq = suc r.own_seq }

-- `gate.latest`, after an owner claimed it or a follower read it.
abbrev pub claim_number : Bool → ℕ → ℕ
claim_number true latest = suc latest
claim_number false latest = latest

abbrev pub run_of : SequencedRequest → ℕ → Run
run_of r latest = record { mine = r.own_seq; seq = latest }

abbrev pub is_current : Run → ℕ → Bool
is_current run latest = run.seq == latest

-- The `finally`.
abbrev pub finish_run : Run → SequencedRequest → SequencedRequest
finish_run run r = if run.mine == r.own_seq then record r { loading = false } else r

abbrev pub fail_run : Bool → ℕ → SequencedRequest → SequencedRequest
fail_run true caught r = record r { error = some caught }
fail_run false caught r = r
