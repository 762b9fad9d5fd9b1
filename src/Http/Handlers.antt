-- ===== src/Http/Handlers.antt =====
-- `handle_github_webhook`, `get_job_view`, `get_cachegrind_diff` and `get_server_info` of
-- ci-bench-runner/src/lib.rs.
use rustls_bench_app.Base.{ℕ, Bool, true, false, Option, none, some, List, [], ◌∷◌}
use rustls_bench_app.Base.Text.{Text, codes, split}
use rustls_bench_app.Base.Result.{Result, ok, err, panic}
use rustls_bench_app.Db.Schema.{Bytes, Database}
use rustls_bench_app.Db.Comparisons.{cachegrind_diff}
use rustls_bench_app.EventQueue.Views.{JobView}
use rustls_bench_app.EventQueue.Worker.{System, enqueue, job_view}
use rustls_bench_app.Github.Signature.{Crypto, verify_webhook_signature}

pub data StatusCode : Type 0 where
  ok_200 bad_request not_found internal_server_error : StatusCode

-- A header's value; `to_str` succeeds on visible ASCII only.
pub data HeaderValue : Type 0 where
  visible : Text → HeaderValue
  opaque : HeaderValue

-- The two headers that the handler looks for, and the body.
pub record Request : Type 0 where
  pub signature : Option HeaderValue
  pub event : Option HeaderValue
  pub body : Bytes

pub record Config : Type 0 where
  pub webhook_secret : Bytes

abbrev pub answered : Result (Option ℕ) × System → Result StatusCode × System
answered (ok (some event_id), s) = (ok ok_200, s)
answered (ok none, s) = (ok bad_request, s)
answered (err e, s) = (ok internal_server_error, s)
answered (panic, s) = (panic, s)

-- The part behind the check of the signature. A new id and the time are arguments.
unfoldable pub accept_event :
    (id now : ℕ) → Option HeaderValue → Bytes → System → Result StatusCode × System
accept_event id now none body s = (ok bad_request, s)
accept_event id now (some opaque) body s = (ok bad_request, s)
accept_event id now (some (visible event)) body s = answered (enqueue id now event body s)

abbrev pub checked : Result Bool → Result StatusCode × System → System → Result StatusCode × System
checked (ok true) accepted s = accepted
checked (ok false) accepted s = (ok bad_request, s)
checked (err e) accepted s = (err e, s)
checked panic accepted s = (panic, s)

unfoldable pub check_signature :
    Crypto
    → Config
    → (id now : ℕ) → Request
    → Option HeaderValue
    → System
    → Result StatusCode × System
unfolding accept_event
check_signature crypto config id now r none s = (ok bad_request, s)
check_signature crypto config id now r (some opaque) s = (ok bad_request, s)
check_signature crypto config id now r (some (visible signature)) s =
    checked (verify_webhook_signature crypto r.body signature config.webhook_secret)
      (accept_event id now r.event r.body s) s

unfoldable pub handle_github_webhook :
    Crypto → Config → (id now : ℕ) → Request → System → Result StatusCode × System
unfolding check_signature
handle_github_webhook crypto config id now r s =
    check_signature crypto config id now r r.signature s

-- What a handler that reads answers: a document, or an error with a text. An error that is a bare
-- text, such as the one for a failing database, has no status of its own.
pub data Reply (A : Type 0) : Type 0 where
  document : A → Reply A
  status : StatusCode → Reply A
  bare_text : Text → Reply A
  aborted : Reply A

abbrev internal_error : Text
internal_error = codes "internal server error"

unfoldable pub get_job_view : ℕ → System → Reply JobView
unfolding job_view
get_job_view id s = elim (job_view id s) [
  | ok none ↦ status not_found
  | ok (some view) ↦ document view
  | err e ↦ bare_text internal_error
  | panic ↦ aborted
]

-- The three calls of `next` on the parts between colons.
unfoldable pub two_parts : List Text → Option (Text × Text)
two_parts [] = none
two_parts (baseline ∷ []) = none
two_parts (baseline ∷ candidate ∷ []) = some (baseline, candidate)
two_parts (baseline ∷ candidate ∷ extra ∷ rest) = none

unfoldable pub commits_of : Text → Option (Text × Text)
unfolding two_parts split
commits_of compared = two_parts (split b':' compared)

unfoldable pub get_cachegrind_diff : (compared_commits scenario_name : Text) → Database → Reply Text
get_cachegrind_diff compared_commits scenario_name db = elim (commits_of compared_commits) [
  | none ↦ status bad_request
  | some (baseline, candidate) ↦ elim (cachegrind_diff baseline candidate scenario_name db) [
    | none ↦ status not_found
    | some diff ↦ document diff
  ]
]

pub record ServerInfo : Type 0 where
  pub git_commit_sha : Text
  pub git_commit_message : Text
  pub active_job_id : Option ℕ
  pub event_processing_enabled : Bool

-- The commit of the build is an argument.
unfoldable pub get_server_info : (sha message : Text) → System → ServerInfo
get_server_info sha message s = record {
  git_commit_sha = sha;
  git_commit_message = message;
  active_job_id = s.active_job_id;
  event_processing_enabled = s.processing_enabled;
}
