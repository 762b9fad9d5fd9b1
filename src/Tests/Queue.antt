-- ===== src/Tests/Queue.antt =====
-- One webhook through the event queue, step by step, and the theorems on reachable states there.
use rustls_bench_app.Base.{
  ℕ, ◌+◌, ◌*◌, ◌<◌, ◌≡◌, ◌↔◌, ◌≤◌, refl, true, Option, none, List, [], ◌∷◌, is_some, length, arith,
}
use rustls_bench_app.Base.Text.{codes, text_eq}
use rustls_bench_app.Base.Table
use rustls_bench_app.Base.Result.{ok}
use rustls_bench_app.Db.Schema.{Database, BenchJob, job_key, empty_db}
use rustls_bench_app.Db.Events.{maybe_job}
use rustls_bench_app.EventQueue.Views
use rustls_bench_app.EventQueue.Views.{JobView, job_status, from_job, from_event_string}
use rustls_bench_app.EventQueue.Worker.{
  waiting, System, init, Turn, work, insert_event, send, job_view,
}
use rustls_bench_app.EventQueue.Steps.{count, works, inserts, sends, Reachable, boot, next}
use rustls_bench_app.EventQueue.Steps.Wakeups.{waiting_means_empty}
use rustls_bench_app.EventQueue.Steps.CrashLoop.{two_jobs_at_most}
use rustls_bench_app.EventQueue.Steps.LifeCycle.{stage, may_follow}
use rustls_bench_app.EventQueue.Steps.Refinement.{Step-refines}
use rustls_bench_app.EventQueue.Steps.Serve.{Surroundings, IsCalm}
use rustls_bench_app.EventQueue.Steps.Drain.{run, serve, queue_drains}
use rustls_bench_app.EventQueue.Steps.Activity.{runs}
use rustls_bench_app.EventQueue.Steps.JobViews.{job_view_total, pending_iff_running}

abbrev turn : Database → Turn
turn db = record { now = 50; new_id = 9; result = ok tt; db_after = db }

abbrev pub step : System → System
step s = work (turn s.db) s

pub step-Reachable : (s : System) → Reachable s → Reachable (step s)
step-Reachable s r = next r (works (turn s.db) (record { same_events = refl; same_jobs = refl }))

-- A push arrives at a task that waits; its handler runs, ends, and the task waits again.
abbrev pub ready : System
ready = step (init empty_db)

abbrev stored : System
stored = (insert_event 7 40 (codes "push") [] ready).1

abbrev announced : System
announced = send stored

abbrev running : System
running = step (step (step (step announced)))

abbrev finished : System
finished = step (step running)

none_started : count 7 ready.started ≡ 0
unfolding work init
none_started = refl

stored-Reachable : Reachable stored
stored-Reachable =
    next (step-Reachable (init empty_db) boot) (inserts 7 40 (codes "push") [] none_started)

announced-Reachable : Reachable announced
announced-Reachable = next stored-Reachable sends

running-Reachable : Reachable running
running-Reachable = step-Reachable (step (step (step announced))) (
    step-Reachable (step (step announced))
      (step-Reachable (step announced) (step-Reachable announced announced-Reachable)))

finished-Reachable : Reachable finished
finished-Reachable = step-Reachable (step running) (step-Reachable running running-Reachable)

abbrev running_view : JobView
running_view = record { created_utc = 50; finished_utc = none; status = Views.pending }

two_jobs_at_most_example : count 7 finished.started ≤ 2
two_jobs_at_most_example = two_jobs_at_most finished 7 finished-Reachable

waiting_means_empty_example : finished.db.event_queue ≡ []
unfolding work init insert_event send from_event_string text_eq Table.insert
waiting_means_empty_example = waiting_means_empty finished finished-Reachable refl refl refl refl

job_view_total_example :
    (view : Option JobView) × (job_view 9 running ≡ ok view)
    × (is_some view ≡ is_some (maybe_job 9 running.db))
job_view_total_example = job_view_total running 9 running-Reachable

pending_iff_running_example : (Views.pending ≡ Views.pending) ↔ (runs running.phase 9 ≡ true)
unfolding work init insert_event send from_event_string text_eq Table.insert job_view
pending_iff_running_example = pending_iff_running running 9 running_view running-Reachable refl refl

Step-refines_example : may_follow (stage 7 stored) (stage 7 announced) ≡ true
Step-refines_example = Step-refines stored announced 7 stored-Reachable sends

-- Surroundings that give every job an id above all others.
abbrev pub total : List BenchJob → ℕ
total [] = 0
total (job ∷ jobs) = job_key job + total jobs

pub absent_above :
    (k : ℕ) (jobs : List BenchJob) → total jobs < k → Table.find job_key k jobs ≡ none
unfolding Table.find
absent_above k [] h = refl
absent_above k (job ∷ jobs) h = ground (arith, absent_above k jobs)

abbrev pub calm : Surroundings
calm s = record { now = 50; new_id = 1 + total s.db.jobs; result = ok tt; db_after = s.db }

pub calm-IsCalm : IsCalm calm
calm-IsCalm = record {
  fresh = λ s. absent_above (1 + total s.db.jobs) s.db.jobs (omega arith);
  ends = λ s h. cc;
  keeps = λ s. record { same_events = refl; same_jobs = refl };
}

queue_drains_example :
    let t = run (6 * length announced.db.event_queue) calm announced in
    (t.phase ≡ waiting)
    × (t.signals ≡ 0)
    × (t.db.event_queue ≡ [])
    × (t.started
        ≡ serve (length announced.db.event_queue) announced.db.event_queue announced.started)
unfolding work init insert_event send Table.insert from_event_string text_eq
queue_drains_example = queue_drains calm calm-IsCalm announced announced-Reachable refl refl refl
