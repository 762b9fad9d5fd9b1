-- ===== src/EventQueue/Steps/Activity.antt =====
-- The active job and the outcomes of jobs along the steps of the event queue.
use rustls_bench_app.Base.{
  ℕ, ◌≡◌, refl, Bool, true, false, not, Option, none, some, ◌==◌, is_some, arith, inl, inr,
}
use rustls_bench_app.Base.Text.{Text}
use rustls_bench_app.Base.Table
use rustls_bench_app.Db.Schema.{Bytes, QueuedEvent, BenchJob, empty_db, job_key}
use rustls_bench_app.Db.Events.{queued, new_job, finish}
use rustls_bench_app.EventQueue.Views.{AllowedEvent}
use rustls_bench_app.EventQueue.Worker.{
  Phase, starting, waiting, woken, fetched, creating, handling, closing, failed, System, init, Turn,
  start, receive, fetch, decide, create, conclude, close, restart, work_at, work, insert_event,
  send, drop_enqueue,
}
use rustls_bench_app.EventQueue.Steps.{
  with_event, insert_event-cases, KeepsQueue, Step, works, inserts, sends, drops, toggles, crashes,
  reboots, Reachable, boot, next,
}

-- The handler of this job runs.
abbrev pub runs : Phase → ℕ → Bool
runs (handling e kind job_id) id = job_id == id
runs _ id = false

abbrev pub has_failed : Phase → Bool
has_failed failed = true
has_failed _ = false

abbrev pub open_job : Option BenchJob → Bool
open_job none = false
open_job (some job) = not (is_some job.finished_utc)

-- No job has a time of finishing without an outcome, or the other way round.
abbrev pub agrees : Option BenchJob → Bool
agrees none = true
agrees (some job) = elim job.finished_utc [
  | none ↦ not (is_some job.success)
  | some t ↦ is_some job.success
]

abbrev pub job_of : ℕ → System → Option BenchJob
job_of id s = Table.find job_key id s.db.jobs

-- While a handler runs, its job is the active one, and is in the table and open.
abbrev pub Runs : System → Type 0
Runs s =
    (id : ℕ)
    → runs s.phase id ≡ true
    → (s.active_job_id ≡ some id) × (open_job (job_of id s) ≡ true)

-- The active job has ended, or its handler runs, or the supervisor has not yet noticed a crash.
abbrev pub Truthful : System → Type 0
Truthful s =
    (id : ℕ)
    → s.active_job_id ≡ some id
    → has_failed s.phase ≡ false
    → open_job (job_of id s) ≡ true
    → runs s.phase id ≡ true

abbrev pub Agrees : System → Type 0
Agrees s = (id : ℕ) → agrees (job_of id s) ≡ true

pub record Inv (s : System) : Type 0 where
  pub running : Runs s
  pub truthful : Truthful s
  pub outcomes : Agrees s

module _ (s : System) (v : Inv s) where
  create-Inv :
      (t : Turn) (e : QueuedEvent) (kind : AllowedEvent)
      → s.phase ≡ creating e kind
      → Inv (create t e kind s)
  unfolding create
  create-Inv t e kind p =
      let job = new_job t.new_id e.created_utc t.now in
      record {
        running = λ id. ground (
          arith,
          Table.insert-cases job_key job s.db.jobs,
          Table.find-append job_key id s.db.jobs job,
        );
        truthful = λ id. ground (arith, Table.insert-cases job_key job s.db.jobs);
        outcomes = λ id. ground (
          arith,
          v.outcomes id,
          Table.insert-cases job_key job s.db.jobs,
          Table.find-append job_key id s.db.jobs job,
        );
      }

  conclude-Inv :
      (t : Turn) (e : QueuedEvent) (kind : AllowedEvent) (job_id : ℕ)
      → KeepsQueue s.db t.db_after
      → s.phase ≡ handling e kind job_id
      → Inv (conclude t e job_id s)
  unfolding conclude
  conclude-Inv t e kind job_id keeps p = record {
    running = λ id. ground arith;
    truthful = λ id. ground (
      arith,
      v.running job_id,
      Table.find-update job_key id job_id (finish t.now true) t.db_after.jobs (λ a. refl),
      Table.find-update job_key id job_id (finish t.now false) t.db_after.jobs (λ a. refl),
    );
    outcomes = λ id. ground (
      arith,
      v.outcomes id,
      Table.find-update job_key id job_id (finish t.now true) t.db_after.jobs (λ a. refl),
      Table.find-update job_key id job_id (finish t.now false) t.db_after.jobs (λ a. refl),
    );
  }

  -- Steps that leave the jobs and the active job, and run no handler before or after.
  idle-Inv :
      (t : System)
      → t.db.jobs ≡ s.db.jobs
      → t.active_job_id ≡ s.active_job_id
      → ((id : ℕ) → runs s.phase id ≡ false)
      → ((id : ℕ) → runs t.phase id ≡ false)
      → has_failed s.phase ≡ false
      → Inv t
  idle-Inv t jobs active before after well = record {
    running = λ id. ground (arith, after id);
    truthful = λ id. ground (arith, before id, v.truthful id);
    outcomes = λ id. ground (arith, v.outcomes id);
  }

  -- Steps that leave the phase as well.
  same-Inv :
      (t : System)
      → t.db.jobs ≡ s.db.jobs
      → t.active_job_id ≡ s.active_job_id
      → t.phase ≡ s.phase
      → Inv t
  same-Inv t jobs active phase = record {
    running = λ id. ground (arith, v.running id);
    truthful = λ id. ground (arith, v.truthful id);
    outcomes = λ id. ground (arith, v.outcomes id);
  }

  forgotten-Inv :
      (t : System) → t.db.jobs ≡ s.db.jobs → t.active_job_id ≡ none → t.phase ≡ starting → Inv t
  forgotten-Inv t jobs active phase = record {
    running = λ id. ground arith;
    truthful = λ id. ground arith;
    outcomes = λ id. ground (arith, v.outcomes id);
  }

  crash-Inv : Inv (record s { phase = failed })
  crash-Inv = record {
    running = λ id. ground arith;
    truthful = λ id. ground arith;
    outcomes = v.outcomes;
  }

  receive-Inv : s.phase ≡ waiting → Inv (receive s)
  unfolding receive
  receive-Inv p =
      idle-Inv (receive s) (ground arith) (ground arith) (λ id. ground arith) (λ id. ground arith)
        (ground arith)

  fetch-Inv : s.phase ≡ woken → Inv (fetch s)
  unfolding fetch
  fetch-Inv p =
      idle-Inv (fetch s) (ground arith) (ground arith) (λ id. ground arith) (λ id. ground arith)
        (ground arith)

  decide-Inv : (e : QueuedEvent) → s.phase ≡ fetched e → Inv (decide e s)
  unfolding decide
  decide-Inv e p =
      idle-Inv (decide e s) (ground arith) (ground arith) (λ id. ground arith) (λ id. ground arith)
        (ground arith)

  close-Inv : (e : QueuedEvent) → s.phase ≡ closing e → Inv (close e s)
  unfolding close
  close-Inv e p =
      idle-Inv (close e s) (ground arith) (ground arith) (λ id. ground arith) (λ id. ground arith)
        (ground arith)

  start-Inv : s.phase ≡ starting → Inv (start s)
  unfolding start
  start-Inv p =
      idle-Inv (start s) (ground arith) (ground arith) (λ id. ground arith) (λ id. ground arith)
        (ground arith)

  work_at-Inv :
      (p : Phase) (t : Turn) → s.phase ≡ p → KeepsQueue s.db t.db_after → Inv (work_at p t s)
  unfolding work_at
  work_at-Inv starting t e keeps = start-Inv e
  work_at-Inv waiting t e keeps = receive-Inv e
  work_at-Inv woken t e keeps = fetch-Inv e
  work_at-Inv (fetched ev) t e keeps = decide-Inv ev e
  work_at-Inv (creating ev kind) t e keeps = create-Inv t ev kind e
  work_at-Inv (handling ev kind job_id) t e keeps = conclude-Inv t ev kind job_id keeps e
  work_at-Inv (closing ev) t e keeps = close-Inv ev e
  work_at-Inv failed t e keeps = forgotten-Inv (restart s) refl refl refl

  insert_event-Inv :
      (id now : ℕ) (event : Text) (body : Bytes) → Inv (insert_event id now event body s).1
  insert_event-Inv id now event body = elim (insert_event-cases id now event body s) [
    | inl same ↦ rw same v
    | inr (free, changed) ↦
        rw changed (same-Inv (with_event (queued id now event body) s) refl refl refl)
  ]

  drop_enqueue-Inv : Inv (drop_enqueue s)
  unfolding drop_enqueue
  drop_enqueue-Inv = same-Inv (drop_enqueue s) (ground arith) (ground arith) (ground arith)

  send-Inv : Inv (send s)
  unfolding send
  send-Inv = same-Inv (send s) (ground arith) (ground arith) (ground arith)

  Step-Inv : {t : System} → Step s t → Inv t
  unfolding work
  Step-Inv (works t keeps) = work_at-Inv s.phase t refl keeps
  Step-Inv (inserts id now event body fresh) = insert_event-Inv id now event body
  Step-Inv sends = send-Inv
  Step-Inv drops = drop_enqueue-Inv
  Step-Inv (toggles enabled) = same-Inv _ refl refl refl
  Step-Inv crashes = crash-Inv
  Step-Inv reboots = forgotten-Inv _ refl refl refl

init-Inv : Inv (init empty_db)
unfolding init Table.find
init-Inv = record {
  running = λ id. ground arith;
  truthful = λ id. ground arith;
  outcomes = λ id. refl;
}

pub Reachable-Inv : {s : System} → Reachable s → Inv s
Reachable-Inv boot = init-Inv
Reachable-Inv (next {s} r st) = Step-Inv s (Reachable-Inv r) st
