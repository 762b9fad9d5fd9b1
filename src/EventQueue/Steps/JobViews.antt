-- ===== src/EventQueue/Steps/JobViews.antt =====
-- What users see of a job in a reachable state: `job_view` of ci-bench-runner/src/event_queue.rs.
use rustls_bench_app.Base.{
  ℕ, ◌≡◌, refl, Bool, true, false, not, Option, none, some, is_some, arith, Option-cases, inl, inr,
  ◌↔◌,
}
use rustls_bench_app.Base.Table
use rustls_bench_app.Base.Result.{ok}
use rustls_bench_app.Db.Schema.{BenchJob, job_key}
use rustls_bench_app.Db.Events.{maybe_job}
use rustls_bench_app.EventQueue.Views.{
  JobView, JobStatus, pending, success, failure, from_job, job_status,
}
use rustls_bench_app.EventQueue.Worker.{System, option_eq, job_view}
use rustls_bench_app.EventQueue.Steps.{Reachable}
use rustls_bench_app.EventQueue.Steps.Activity.{runs, has_failed, agrees, Reachable-Inv}

job_status_total :
    (success : Option Bool) (finished : Option ℕ) (active : Bool)
    → (elim finished [ none ↦ not (is_some success) | some t ↦ is_some success ]) ≡ true
    → (status : JobStatus) × (job_status success finished active ≡ ok status)
unfolding job_status
job_status_total none none true h = (pending, refl)
job_status_total none none false h = (failure, refl)
job_status_total none (some t) active h = cc
job_status_total (some true) none active h = (success, refl)
job_status_total (some true) (some t) active h = (success, refl)
job_status_total (some false) none active h = (failure, refl)
job_status_total (some false) (some t) active h = (failure, refl)

from_job_total :
    (job : BenchJob) (active : Bool)
    → agrees (some job) ≡ true
    → (view : JobView) × (from_job job active ≡ ok view)
unfolding from_job
from_job_total job active h =
    let (status, e) = job_status_total job.success job.finished_utc active h in
    (
      record { created_utc = job.created_utc; finished_utc = job.finished_utc; status = status },
      rw e,
    )

-- In every reachable state the view of a job exists exactly when the job does, and asking for it
-- does not panic.
pub job_view_total :
    (s : System) (id : ℕ)
    → Reachable s
    → (view : Option JobView) × (job_view id s ≡ ok view)
      × (is_some view ≡ is_some (maybe_job id s.db))
unfolding job_view maybe_job
job_view_total s id r = elim (Option-cases (Table.find job_key id s.db.jobs)) [
  | inl absent ↦ (none, rw (absent, job_view), rw (absent, maybe_job))
  | inr (job, found) ↦
      let (view, e) =
        from_job_total job (option_eq s.active_job_id id)
          (rw found at ((Reachable-Inv r).outcomes id)) in
      (some view, rw (found, job_view, e), rw (found, maybe_job))
]

-- While the task has not failed, the view of a job says `Pending` exactly when the handler of that
-- job runs.
pub pending_iff_running :
    (s : System) (id : ℕ) (view : JobView)
    → Reachable s
    → has_failed s.phase ≡ false
    → job_view id s ≡ ok (some view)
    → (view.status ≡ pending) ↔ (runs s.phase id ≡ true)
unfolding job_view
pending_iff_running s id view r well h = (
  (λ p. ground (arith, (Reachable-Inv r).truthful id, (Reachable-Inv r).outcomes id)),
  (λ p. ground (arith, (Reachable-Inv r).running id, (Reachable-Inv r).outcomes id)),
)

-- A job whose handler runs has a view.
pub running_job_view :
    (s : System) (id : ℕ)
    → Reachable s
    → runs s.phase id ≡ true
    → (view : JobView) × (job_view id s ≡ ok (some view))
unfolding maybe_job
running_job_view s id r running =
    let (there, shown, same) = job_view_total s id r in
    let open_there = ((Reachable-Inv r).running id running).1 in
    elim (Option-cases there) [
      | inl e ↦ absurd (ground (arith, e, same, open_there))
      | inr (view, e) ↦ (view, cc)
    ]
