-- ===== src/EventQueue/Steps/CrashLoop.antt =====
-- How many jobs are created for one event, with crashes at any place:
-- ci-bench-runner/src/event_queue.rs.
use rustls_bench_app.Base.{
  ℕ, ◌≤◌, ◌≡◌, refl, Bool, false, ◌&&◌, Option, none, some, List, [], ◌∷◌, ◌++◌, ◌==◌, is_some,
  if◌then◌else◌, arith, Option-cases, inl, inr,
}
use rustls_bench_app.Base.Text.{Text}
use rustls_bench_app.Base.Table
use rustls_bench_app.Db.Schema.{Bytes, QueuedEvent, Database, empty_db, event_key, job_key}
use rustls_bench_app.Db.Events.{queued, earliest, new_job}
use rustls_bench_app.Db.Events.Order.{earliest-find_row}
use rustls_bench_app.EventQueue.Views.{AllowedEvent}
use rustls_bench_app.EventQueue.Worker.{
  Phase, starting, waiting, woken, fetched, creating, handling, closing, failed, System, init, Turn,
  receive, fetch, decide, create, conclude, close, work_at, work, insert_event, send, drop_enqueue,
}
use rustls_bench_app.EventQueue.Steps.{
  count, with_event, insert_event-cases, KeepsQueue, Step, works, inserts, sends, drops, toggles,
  crashes, reboots, Reachable, boot, next,
}

-- The event with this id is about to get its second job, and is no longer in the queue.
abbrev pub retried : Phase → ℕ → Bool
retried (creating e kind) id = e.id == id && is_some e.job_id
retried _ id = false

-- How many jobs an event can have had, by its row in the queue and by the phase.
abbrev pub least : Option QueuedEvent → Bool → ℕ
least none again = if again then 1 else 0
least (some row) again = if is_some row.job_id then 1 else 0

abbrev pub most : Option QueuedEvent → Bool → ℕ
most none again = if again then 1 else 2
most (some row) again = if is_some row.job_id then 1 else 0

abbrev pub row_of : ℕ → System → Option QueuedEvent
row_of id s = Table.find event_key id s.db.event_queue

abbrev pub Accounted : System → Type 0
Accounted s =
    (id : ℕ)
    → (least (row_of id s) (retried s.phase id) ≤ count id s.started)
      × (count id s.started ≤ most (row_of id s) (retried s.phase id))

-- The event that the task holds is the one in the queue, unless it was taken out to be retried.
abbrev pub Held : Phase → List QueuedEvent → Type 0
Held (fetched e) q = Table.find event_key e.id q ≡ some e
Held (creating e kind) q = Table.find event_key e.id q ≡ (if is_some e.job_id then none else some e)
Held _ q = Unit

pub record Inv (s : System) : Type 0 where
  pub unique : Table.Unique event_key s.db.event_queue
  pub held : Held s.phase s.db.event_queue
  pub accounted : Accounted s

module _ (s : System) (v : Inv s) where
  fetch-Inv : s.phase ≡ woken → Inv (fetch s)
  unfolding fetch
  fetch-Inv p = elim (Option-cases (earliest s.db.event_queue)) [
    | inl empty ↦ record {
      unique = ground (arith, v.unique);
      held = ground arith;
      accounted = λ id. ground (arith, v.accounted id);
    }
    | inr (r, found) ↦ record {
      unique = ground (arith, v.unique);
      held = ground (arith, earliest-find_row s.db.event_queue r v.unique);
      accounted = λ id. ground (arith, v.accounted id);
    }
  ]

  decide-Inv : (e : QueuedEvent) → s.phase ≡ fetched e → Inv (decide e s)
  unfolding decide
  decide-Inv e p = record {
    unique = ground (arith, Table.delete-Unique event_key e.id s.db.event_queue v.unique);
    held = ground (arith, v.held, Table.find-delete event_key e.id e.id s.db.event_queue);
    accounted = λ id. ground (
      arith,
      v.held,
      v.accounted id,
      v.accounted e.id,
      Table.find-delete event_key id e.id s.db.event_queue,
    );
  }

  create-Inv :
      (t : Turn) (e : QueuedEvent) (kind : AllowedEvent)
      → s.phase ≡ creating e kind
      → Inv (create t e kind s)
  unfolding create
  create-Inv t e kind p =
      let assign = λ (r : QueuedEvent). record r { job_id = some t.new_id } in
      let job = new_job t.new_id e.created_utc t.now in
      record {
        unique = ground (
          arith,
          v.unique,
          Table.insert-cases job_key job s.db.jobs,
          Table.update-Unique event_key e.id assign s.db.event_queue (λ a. refl) v.unique,
        );
        held = ground (arith, Table.insert-cases job_key job s.db.jobs);
        accounted = λ id. ground (
          arith,
          v.held,
          v.accounted id,
          v.accounted e.id,
          Table.insert-cases job_key job s.db.jobs,
          Table.find-update event_key id e.id assign s.db.event_queue (λ a. refl),
        );
      }

  conclude-Inv :
      (t : Turn) (e : QueuedEvent) (kind : AllowedEvent) (job_id : ℕ)
      → KeepsQueue s.db t.db_after
      → s.phase ≡ handling e kind job_id
      → Inv (conclude t e job_id s)
  unfolding conclude
  conclude-Inv t e kind job_id keeps p = record {
    unique = ground (arith, v.unique);
    held = ground arith;
    accounted = λ id. ground (arith, v.accounted id);
  }

  close-Inv : (e : QueuedEvent) → s.phase ≡ closing e → Inv (close e s)
  unfolding close
  close-Inv e p = record {
    unique = Table.delete-Unique event_key e.id s.db.event_queue v.unique;
    held = tt;
    accounted =
        λ id. ground (arith, v.accounted id, Table.find-delete event_key id e.id s.db.event_queue);
  }

  receive-Inv : s.phase ≡ waiting → Inv (receive s)
  unfolding receive
  receive-Inv p = record {
    unique = ground (arith, v.unique);
    held = ground arith;
    accounted = λ id. ground (arith, v.accounted id);
  }

  -- A crash forgets a retry that had not begun.
  reset-Inv :
      (p : Phase) (db : Database) (signals unsent dropped : ℕ) (enabled : Bool) (active : Option ℕ)
      → ((id : ℕ) → retried p id ≡ false)
      → ((q : List QueuedEvent) → Held p q)
      → db ≡ s.db
      → Inv (record {
        db = db;
        signals = signals;
        unsent = unsent;
        processing_enabled = enabled;
        active_job_id = active;
        phase = p;
        started = s.started;
        dropped = dropped;
      })
  reset-Inv p db signals unsent dropped enabled active idle free same = record {
    unique = ground (arith, v.unique);
    held = free db.event_queue;
    accounted = λ id. ground (arith, v.accounted id, idle id);
  }

  Held-append :
      (p : Phase) (row : QueuedEvent)
      → s.phase ≡ p
      → row.job_id ≡ none
      → count row.id s.started ≡ 0
      → Table.find event_key row.id s.db.event_queue ≡ none
      → Held p (s.db.event_queue ++ row ∷ [])
  Held-append starting row e new fresh free = tt
  Held-append waiting row e new fresh free = tt
  Held-append woken row e new fresh free = tt
  Held-append (fetched ev) row e new fresh free =
      ground (arith, v.held, Table.find-append event_key ev.id s.db.event_queue row)
  Held-append (creating ev kind) row e new fresh free =
      ground
        (arith, v.held, v.accounted ev.id, Table.find-append event_key ev.id s.db.event_queue row)
  Held-append (handling ev kind job_id) row e new fresh free = tt
  Held-append (closing ev) row e new fresh free = tt
  Held-append failed row e new fresh free = tt

  with_event-Inv :
      (row : QueuedEvent)
      → row.job_id ≡ none
      → count row.id s.started ≡ 0
      → Table.find event_key row.id s.db.event_queue ≡ none
      → Inv (with_event row s)
  with_event-Inv row new fresh free = record {
    unique = Table.append-Unique event_key s.db.event_queue row v.unique free;
    held = Held-append s.phase row refl new fresh free;
    accounted = λ id. ground (
      arith,
      v.accounted id,
      v.accounted row.id,
      Table.find-append event_key id s.db.event_queue row,
    );
  }

  insert_event-Inv :
      (id now : ℕ) (event : Text) (body : Bytes)
      → count id s.started ≡ 0
      → Inv (insert_event id now event body s).1
  insert_event-Inv id now event body fresh = elim (insert_event-cases id now event body s) [
    | inl same ↦ rw same v
    | inr (free, changed) ↦ rw changed (with_event-Inv (queued id now event body) refl fresh free)
  ]

  drop_enqueue-Inv : Inv (drop_enqueue s)
  unfolding drop_enqueue
  drop_enqueue-Inv = record {
    unique = ground (arith, v.unique);
    held = ground (arith, v.held);
    accounted = λ id. ground (arith, v.accounted id);
  }

  send-Inv : Inv (send s)
  unfolding send
  send-Inv = record {
    unique = ground (arith, v.unique);
    held = ground (arith, v.held);
    accounted = λ id. ground (arith, v.accounted id);
  }

  crash-Inv : Inv (record s { phase = failed })
  crash-Inv = reset-Inv failed s.db _ _ _ _ _ (λ id. refl) (λ q. tt) refl

  work_at-Inv :
      (p : Phase) (t : Turn) → s.phase ≡ p → KeepsQueue s.db t.db_after → Inv (work_at p t s)
  unfolding work_at
  work_at-Inv starting t e keeps = reset-Inv waiting s.db _ _ _ _ _ (λ id. refl) (λ q. tt) refl
  work_at-Inv waiting t e keeps = receive-Inv e
  work_at-Inv woken t e keeps = fetch-Inv e
  work_at-Inv (fetched ev) t e keeps = decide-Inv ev e
  work_at-Inv (creating ev kind) t e keeps = create-Inv t ev kind e
  work_at-Inv (handling ev kind job_id) t e keeps = conclude-Inv t ev kind job_id keeps e
  work_at-Inv (closing ev) t e keeps = close-Inv ev e
  work_at-Inv failed t e keeps = reset-Inv starting s.db _ _ _ _ _ (λ id. refl) (λ q. tt) refl

  Step-Inv : {t : System} → Step s t → Inv t
  unfolding work
  Step-Inv (works t keeps) = work_at-Inv s.phase t refl keeps
  Step-Inv (inserts id now event body fresh) = insert_event-Inv id now event body fresh
  Step-Inv sends = send-Inv
  Step-Inv drops = drop_enqueue-Inv
  Step-Inv (toggles enabled) = record { unique = v.unique; held = v.held; accounted = v.accounted }
  Step-Inv crashes = crash-Inv
  Step-Inv reboots = reset-Inv starting s.db _ _ _ _ _ (λ id. refl) (λ q. tt) refl

init-Inv : Inv (init empty_db)
unfolding init Table.find
init-Inv = record { unique = tt; held = tt; accounted = λ id. (omega arith, omega arith) }

pub Reachable-Inv : {s : System} → Reachable s → Inv s
Reachable-Inv boot = init-Inv
Reachable-Inv (next {s} r st) = Step-Inv s (Reachable-Inv r) st

-- However often the task, its handlers or the whole program crash, and wherever: at most two jobs
-- are created for one event.
pub two_jobs_at_most : (s : System) (id : ℕ) → Reachable s → count id s.started ≤ 2
two_jobs_at_most s id r = ground (arith, (Reachable-Inv r).accounted id)
