-- ===== src/Db/Writes/Valid.antt =====
-- When the database is well formed: ids are unique, references go to rows that exist, the columns of
-- a job agree, and every stored kind is one that can be read back.
use rustls_bench_app.Base.{ℕ, ◌≡◌, ◌≤◌, true, some, List, All, is_some}
use rustls_bench_app.Base.Table
use rustls_bench_app.Db.Schema.{
  QueuedEvent, BenchJob, BenchRun, ResultRow, DiffRow, ComparisonRun, Database, empty_db, event_key,
  job_key, run_key, comparison_key, comment_key,
}

-- The job of an event is in the table of jobs.
abbrev pub JobExists : List BenchJob → QueuedEvent → Type 0
JobExists jobs e = (j : ℕ) → e.job_id ≡ some j → is_some (Table.find job_key j jobs) ≡ true

-- A job has a time of finishing exactly when it has an outcome.
abbrev pub OutcomeAgrees : BenchJob → Type 0
OutcomeAgrees j = is_some j.finished_utc ≡ is_some j.success

abbrev pub ResultOfRun : List BenchRun → ResultRow → Type 0
ResultOfRun runs r =
    (is_some (Table.find run_key r.bench_run_id runs) ≡ true) × (r.scenario_kind ≤ 2)

abbrev pub DiffOfRun : List ComparisonRun → DiffRow → Type 0
DiffOfRun runs d =
    (is_some (Table.find comparison_key d.comparison_run_id runs) ≡ true) × (d.scenario_kind ≤ 2)

pub record QueueIsValid (event_queue : List QueuedEvent) (jobs : List BenchJob) : Type 0 where
  pub events_unique : Table.Unique event_key event_queue
  pub jobs_unique : Table.Unique job_key jobs
  pub jobs_exist : All (JobExists jobs) event_queue
  pub outcomes_agree : All OutcomeAgrees jobs

pub record RunsAreValid (runs : List BenchRun) (rows : List ResultRow) : Type 0 where
  pub runs_unique : Table.Unique run_key runs
  pub results_of_runs : All (ResultOfRun runs) rows

pub record ComparisonsAreValid (runs : List ComparisonRun) (rows : List DiffRow) : Type 0 where
  pub comparisons_unique : Table.Unique comparison_key runs
  pub diffs_of_runs : All (DiffOfRun runs) rows

pub record IsValid (db : Database) : Type 0 where
  pub queue : QueueIsValid db.event_queue db.jobs
  pub open queue use *
  pub history : RunsAreValid db.bench_runs db.bench_results
  pub open history use *
  pub comparisons : ComparisonsAreValid db.comparison_runs db.scenario_diffs
  pub open comparisons use *
  pub comments : Table.Unique comment_key db.result_comments

pub empty_db-IsValid : IsValid empty_db
empty_db-IsValid = record {
  queue = record { events_unique = tt; jobs_unique = tt; jobs_exist = tt; outcomes_agree = tt };
  history = record { runs_unique = tt; results_of_runs = tt };
  comparisons = record { comparisons_unique = tt; diffs_of_runs = tt };
  comments = tt;
}
