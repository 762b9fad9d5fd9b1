-- ===== src/EventQueue/Steps.antt =====
-- Everything that can happen to the event queue, in any order: the task works, calls of `enqueue`
-- come in, processing is switched, the task or the whole program crashes.
pub mod Wakeups
pub mod CrashLoop
pub mod LifeCycle
pub mod Refinement
pub mod Serve
pub mod Drain
pub mod Activity
pub mod JobViews
pub mod Restarts
use rustls_bench_app.Base.{
  ℕ, zero, suc, ◌+◌, ◌≡◌, Bool, Option, none, some, List, [], ◌∷◌, ◌==◌, if◌then◌else◌, ◌++◌, ◌⊎◌,
  arith,
}
use rustls_bench_app.Base.Text.{Text}
use rustls_bench_app.Base.Table
use rustls_bench_app.Db.Schema.{Bytes, QueuedEvent, Database, empty_db, event_key}
use rustls_bench_app.Db.Events.{queued}
use rustls_bench_app.EventQueue.Worker.{
  Phase, failed, starting, System, init, Turn, work, insert_event, send, drop_enqueue,
}

abbrev pub count : ℕ → List ℕ → ℕ
count a [] = 0
count a (x ∷ xs) = (if x == a then 1 else 0) + count a xs

-- What the handlers leave alone.
pub record KeepsQueue (db db' : Database) : Type 0 where
  pub same_events : db'.event_queue ≡ db.event_queue
  pub same_jobs : db'.jobs ≡ db.jobs

pub data Step (s : System) : System → Type 0 where
  works : (t : Turn) → KeepsQueue s.db t.db_after → Step s (work t s)
  -- A new event has an id that no job was ever created for.
  inserts :
      (id now : ℕ) (event : Text) (body : Bytes)
      → count id s.started ≡ 0
      → Step s (insert_event id now event body s).1
  sends : Step s (send s)
  drops : Step s (drop_enqueue s)
  toggles : (enabled : Bool) → Step s (record s { processing_enabled = enabled })
  -- The task fails at a call that changed nothing yet, or panics.
  crashes : Step s (record s { phase = failed })
  -- The program is started again: only the database is left.
  reboots :
      Step s
        (record s { signals = 0; unsent = 0; dropped = 0; active_job_id = none; phase = starting })

-- The states that the program reaches from its first start.
pub data Reachable : System → Type 0 where
  boot : Reachable (init empty_db)
  next : {s t : System} → Reachable s → Step s t → Reachable t

-- A system whose queue got one more event.
abbrev pub with_event : QueuedEvent → System → System
with_event row s = record s {
  db = record s.db { event_queue = s.db.event_queue ++ row ∷ [] };
  unsent = s.unsent + 1;
}

pub insert_event-cases :
    (id now : ℕ) (event : Text) (body : Bytes) (s : System)
    → ((insert_event id now event body s).1 ≡ s)
      ⊎ ((Table.find event_key id s.db.event_queue ≡ none)
          × ((insert_event id now event body s).1 ≡ with_event (queued id now event body) s))
unfolding insert_event
insert_event-cases id now event body s =
    ground (arith, Table.insert-cases event_key (queued id now event body) s.db.event_queue)
