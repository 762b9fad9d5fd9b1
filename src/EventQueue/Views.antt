-- ===== src/EventQueue/Views.antt =====
-- The kinds of events that are processed, and the user's view of a job:
-- `AllowedEvent` and `JobView` of ci-bench-runner/src/event_queue.rs.
use rustls_bench_app.Base.{ℕ, Bool, true, false, Option, none, some, if◌then◌else◌}
use rustls_bench_app.Base.Text.{Text, codes, text_eq}
use rustls_bench_app.Base.Result.{Result, ok, panic}
use rustls_bench_app.Db.Schema.{BenchJob}

pub data AllowedEvent : Type 0 where
  issue_comment pull_request pull_request_review push : AllowedEvent

unfoldable pub from_event_string : Text → Option AllowedEvent
from_event_string event =
    if text_eq event (codes "issue_comment")
    then some issue_comment
    else if text_eq event (codes "push")
    then some push
    else if text_eq event (codes "pull_request")
    then some pull_request
    else if text_eq event (codes "pull_request_review")
    then some pull_request_review
    else none

pub data JobStatus : Type 0 where
  pending success failure : JobStatus

pub record JobView : Type 0 where
  pub created_utc : ℕ
  pub finished_utc : Option ℕ
  pub status : JobStatus

-- The `match` on a job's outcome; the arm that the source calls unreachable panics.
unfoldable pub job_status : Option Bool → Option ℕ → Bool → Result JobStatus
job_status none none true = ok pending
job_status none none false = ok failure
job_status none (some t) active = panic
job_status (some true) finished active = ok success
job_status (some false) finished active = ok failure

abbrev with_status : BenchJob → Result JobStatus → Result JobView
with_status job (ok status) =
    ok (record { created_utc = job.created_utc; finished_utc = job.finished_utc; status = status })
with_status job (Result.err e) = Result.err e
with_status job panic = panic

unfoldable pub from_job : BenchJob → Bool → Result JobView
unfolding job_status
from_job job active = with_status job (job_status job.success job.finished_utc active)
