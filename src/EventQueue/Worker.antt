-- ===== src/EventQueue/Worker.antt =====
-- The background task of the event queue, its supervisor and the callers beside it, as steps of one
-- system: `process_queued_events_in_background`, `start_and_supervise_queue_processing`, `enqueue`,
-- `active_job_id` and `job_view` of ci-bench-runner/src/event_queue.rs.
-- A phase is a place where the task awaits, or where it can fail between two writes.
use rustls_bench_app.Base.{
  ℕ, zero, suc, ◌+◌, Bool, true, false, Option, none, some, List, [], ◌∷◌, ◌==◌, is_some,
  if◌then◌else◌,
}
use rustls_bench_app.Base.Text.{Text}
use rustls_bench_app.Base.Result.{Result, ok, err, panic}
use rustls_bench_app.Db.Schema.{Bytes, QueuedEvent, Database}
use rustls_bench_app.Db.Events.{
  enqueue_event, next_queued_event, queued_event_count, delete_event, new_job_for_event,
  job_finished, maybe_job,
}
use rustls_bench_app.EventQueue.Views.{AllowedEvent, from_event_string, JobView, from_job}

pub data Phase : Type 0 where
  -- before the events in the database are counted
  starting : Phase
  -- at `recv`
  waiting : Phase
  -- a message was received: until processing is enabled, then the next event is read
  woken : Phase
  fetched : QueuedEvent → Phase
  -- the event is to be handled, and has no job of this run yet
  creating : QueuedEvent → AllowedEvent → Phase
  -- the handler runs, for the job with this id
  handling : QueuedEvent → AllowedEvent → ℕ → Phase
  -- the job is marked as finished, the event not yet deleted
  closing : QueuedEvent → Phase
  -- the task returned an error, panicked or was cancelled; the supervisor has not reacted
  failed : Phase

pub record System : Type 0 where
  pub db : Database
  -- messages in the channel
  pub signals : ℕ
  -- calls of `enqueue` between the insertion and the message
  pub unsent : ℕ
  pub processing_enabled : Bool
  pub active_job_id : Option ℕ
  pub phase : Phase
  -- the history: the event of every job that was created, latest first
  pub started : List ℕ
  -- the history: calls of `enqueue` dropped after the insertion, before their message, since the
  -- task last counted the events
  pub dropped : ℕ

unfoldable pub init : Database → System
init db = record {
  db = db;
  signals = 0;
  unsent = 0;
  processing_enabled = true;
  active_job_id = none;
  phase = starting;
  started = [];
  dropped = 0;
}

-- What one step of the task takes from outside: the time, a new id, how the handler ended and the
-- database that it left.
pub record Turn : Type 0 where
  pub now : ℕ
  pub new_id : ℕ
  pub result : Result (Unit {0})
  pub db_after : Database

abbrev pub is_ok : Result (Unit {0}) → Bool
is_ok (ok _) = true
is_ok _ = false

-- A message for each event that is already in the database.
unfoldable pub start : System → System
unfolding queued_event_count
start s = record s { signals = s.signals + queued_event_count s.db; phase = waiting; dropped = 0 }

unfoldable pub receive : System → System
receive s = elim s.signals [ zero ↦ s | suc n ↦ record s { signals = n; phase = woken } ]

-- A query that finds no row is an error, which ends the task.
unfoldable pub fetch : System → System
unfolding next_queued_event
fetch s =
    if s.processing_enabled
    then elim (next_queued_event s.db) [
      | ok e ↦ record s { phase = fetched e }
      | err _ ↦ record s { phase = failed }
      | panic ↦ record s { phase = failed }
    ]
    else s

abbrev pub delete : QueuedEvent → System → System
delete e s = record s { db = (delete_event e.id s.db).1 }

-- A forbidden event is discarded. One that has a job was being handled at a crash: it is taken from
-- the queue first, so that a second crash does not bring it back.
unfoldable pub decide : QueuedEvent → System → System
unfolding delete_event
decide e s = elim (from_event_string e.event) [
  | none ↦ record (delete e s) { phase = waiting }
  | some kind ↦
      if is_some e.job_id
      then record (delete e s) { phase = creating e kind }
      else record s { phase = creating e kind }
]

unfoldable pub create : Turn → QueuedEvent → AllowedEvent → System → System
unfolding new_job_for_event
create t e kind s =
    let (r, db) = new_job_for_event t.new_id t.now e.id e.created_utc s.db in
    elim r [
      | ok job_id ↦ record s {
        db = db;
        active_job_id = some job_id;
        phase = handling e kind job_id;
        started = e.id ∷ s.started;
      }
      | err _ ↦ record s { db = db; phase = failed }
      | panic ↦ record s { db = db; phase = failed }
    ]

-- A handler's error is logged and makes the job a failure; its panic ends the task.
unfoldable pub conclude : Turn → QueuedEvent → ℕ → System → System
unfolding job_finished
conclude t e job_id s = elim t.result [
  | panic ↦ record s { db = t.db_after; phase = failed }
  | ok _ ↦ record s { db = (job_finished t.now job_id true t.db_after).1; phase = closing e }
  | err _ ↦ record s { db = (job_finished t.now job_id false t.db_after).1; phase = closing e }
]

unfoldable pub close : QueuedEvent → System → System
unfolding delete_event
close e s = record (delete e s) { phase = waiting }

-- The supervisor: forget the active job, and start the task again.
unfoldable pub restart : System → System
restart s = record s { active_job_id = none; phase = starting }

-- The phase stands apart, so that a clause can match on it.
unfoldable pub work_at : Phase → Turn → System → System
unfolding start receive fetch decide create conclude close restart
work_at starting t s = start s
work_at waiting t s = receive s
work_at woken t s = fetch s
work_at (fetched e) t s = decide e s
work_at (creating e kind) t s = create t e kind s
work_at (handling e kind job_id) t s = conclude t e job_id s
work_at (closing e) t s = close e s
work_at failed t s = restart s

unfoldable pub work : Turn → System → System
unfolding work_at
work t s = work_at s.phase t s

-- `enqueue` in two parts, between which other tasks run: the insertion, whose error is unwrapped,
abbrev inserted : System → Result ℕ × Database → Result (Option ℕ) × System
inserted s (ok event_id, db) = (ok (some event_id), record s { db = db; unsent = s.unsent + 1 })
inserted s (err _, db) = (panic, record s { db = db })
inserted s (panic, db) = (panic, record s { db = db })

unfoldable pub insert_event :
    (id now : ℕ) (event : Text) (body : Bytes) → System → Result (Option ℕ) × System
unfolding enqueue_event
insert_event id now event body s =
    if is_some (from_event_string event)
    then inserted s (enqueue_event id now event body s.db)
    else (ok none, s)

-- and the message.
unfoldable pub send : System → System
send s = elim s.unsent [ zero ↦ s | suc n ↦ record s { unsent = n; signals = s.signals + 1 } ]

-- A call that waits at the insertion is dropped with its request, when the client goes away.
unfoldable pub drop_enqueue : System → System
drop_enqueue s = elim s.unsent [
  | zero ↦ s
  | suc n ↦ record s { unsent = n; dropped = s.dropped + 1 }
]

unfoldable pub enqueue :
    (id now : ℕ) (event : Text) (body : Bytes) → System → Result (Option ℕ) × System
unfolding insert_event send
enqueue id now event body s =
    let (r, t) = insert_event id now event body s in
    elim r [ ok (some event_id) ↦ (ok (some event_id), send t) | other ↦ (other, t) ]

abbrev pub option_eq : Option ℕ → ℕ → Bool
option_eq none b = false
option_eq (some a) b = a == b

unfoldable pub job_view : ℕ → System → Result (Option JobView)
unfolding maybe_job from_job
job_view job_id s = elim (maybe_job job_id s.db) [
  | none ↦ ok none
  | some job ↦ elim (from_job job (option_eq s.active_job_id job_id)) [
    | ok view ↦ ok (some view)
    | err e ↦ err e
    | panic ↦ panic
  ]
]
