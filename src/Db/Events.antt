-- ===== src/Db/Events.antt =====
-- The queue of events and the jobs: the methods of `Db` in ci-bench-runner/src/db.rs that
-- the event queue calls. A new id and the current time are arguments.
pub mod Order
use rustls_bench_app.Base.{ℕ, Bool, Option, none, some, List, [], ◌∷◌, leb, if◌then◌else◌, length}
use rustls_bench_app.Base.Text.{Text}
use rustls_bench_app.Base.Table
use rustls_bench_app.Base.Result.{
  Result, ok, err, ok_or, unique_constraint, row_not_found, job_not_found,
}
use rustls_bench_app.Base.Action.{Action}
use rustls_bench_app.Db.Schema.{Bytes, QueuedEvent, BenchJob, Database, event_key, job_key}

abbrev pub queued : (id now : ℕ) (event : Text) (payload : Bytes) → QueuedEvent
queued id now event payload = record {
  id = id;
  job_id = none;
  event = event;
  payload = payload;
  created_utc = now;
}

unfoldable pub enqueue_event : (id now : ℕ) (event : Text) (payload : Bytes) → Action Database ℕ
enqueue_event id now event payload db =
    elim (Table.insert event_key (queued id now event payload) db.event_queue) [
      | none ↦ (err unique_constraint, db)
      | some rows ↦ (ok id, record db { event_queue = rows })
    ]

-- `ORDER BY created_utc LIMIT 1`: SQL leaves a tie open, here it goes to the older row.
unfoldable pub earliest : List QueuedEvent → Option QueuedEvent
earliest [] = none
earliest (e ∷ es) = elim (earliest es) [
  | none ↦ some e
  | some m ↦ if leb e.created_utc m.created_utc then some e else some m
]

unfoldable pub next_queued_event : Database → Result QueuedEvent
unfolding earliest
next_queued_event db = ok_or (earliest db.event_queue) row_not_found

unfoldable pub queued_event_count : Database → ℕ
queued_event_count db = length db.event_queue

unfoldable pub delete_event : ℕ → Action Database (Unit {0})
delete_event id db = (ok tt, record db { event_queue = Table.delete event_key id db.event_queue })

abbrev pub new_job : (id event_created_utc now : ℕ) → BenchJob
new_job id event_created_utc now = record {
  id = id;
  event_queued_utc = event_created_utc;
  created_utc = now;
  finished_utc = none;
  success = none;
}

-- One transaction: where the insertion fails, the event is not updated either.
unfoldable pub new_job_for_event : (id now event_id event_created_utc : ℕ) → Action Database ℕ
new_job_for_event id now event_id event_created_utc db =
    elim (Table.insert job_key (new_job id event_created_utc now) db.jobs) [
      | none ↦ (err unique_constraint, db)
      | some rows ↦ (
        ok id,
        record db {
          jobs = rows;
          event_queue =
              Table.update event_key event_id (λ e. record e { job_id = some id }) db.event_queue;
        },
      )
    ]

abbrev pub finish : (finished_utc : ℕ) (success : Bool) → BenchJob → BenchJob
finish finished_utc success j = record j {
  finished_utc = some finished_utc;
  success = some success;
}

unfoldable pub job_finished : (now id : ℕ) (success : Bool) → Action Database (Unit {0})
job_finished now id success db =
    (ok tt, record db { jobs = Table.update job_key id (finish now success) db.jobs })

unfoldable pub maybe_job : ℕ → Database → Option BenchJob
maybe_job id db = Table.find job_key id db.jobs

unfoldable pub job : ℕ → Database → Result BenchJob
unfolding maybe_job
job id db = ok_or (maybe_job id db) job_not_found
