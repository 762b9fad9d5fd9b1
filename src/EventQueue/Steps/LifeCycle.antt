-- ===== src/EventQueue/Steps/LifeCycle.antt =====
-- The life of one event as a specification of the event queue, and what the queue keeps for it:
-- ci-bench-runner/src/event_queue.rs.
use rustls_bench_app.Base.{
  ℕ, zero, suc, ◌≤◌, ◌≡◌, refl, Bool, true, false, Option, none, some, List, is_some, inl, inr,
  arith, Option-cases,
}
use rustls_bench_app.Base.Text.{Text}
use rustls_bench_app.Base.Table
use rustls_bench_app.Db.Schema.{Bytes, QueuedEvent, event_key, job_key}
use rustls_bench_app.Db.Events.{queued, new_job}
use rustls_bench_app.EventQueue.Views.{AllowedEvent, from_event_string}
use rustls_bench_app.EventQueue.Worker.{
  Phase, starting, waiting, woken, fetched, creating, handling, closing, failed, System, init, Turn,
  start, receive, fetch, decide, create, conclude, close, restart, work_at, work, insert_event,
  send, drop_enqueue,
}
use rustls_bench_app.EventQueue.Steps.{
  count, KeepsQueue, Step, works, inserts, sends, drops, toggles, crashes, reboots, Reachable, boot,
  next,
}
use rustls_bench_app.EventQueue.Steps.CrashLoop.{row_of, Inv}

-- Not received; stored; stored, with a job; no longer stored, after one job or two.
pub data Stage : Type 0 where
  absent waiting_for_job has_job settled : Stage

abbrev pub stage_of : Option QueuedEvent → ℕ → Stage
stage_of none zero = absent
stage_of none (suc n) = settled
stage_of (some row) zero = waiting_for_job
stage_of (some row) (suc n) = has_job

abbrev pub stage : ℕ → System → Stage
stage id s = stage_of (row_of id s) (count id s.started)

-- The specification: a step leaves an event where it is, or takes it to the next stage.
abbrev pub may_follow : Stage → Stage → Bool
may_follow absent absent = true
may_follow absent waiting_for_job = true
may_follow waiting_for_job waiting_for_job = true
may_follow waiting_for_job has_job = true
may_follow has_job has_job = true
may_follow has_job settled = true
may_follow settled settled = true
may_follow a b = false

-- Only events of an allowed kind are in the queue.
abbrev pub Permitted : System → Type 0
Permitted s =
    (id : ℕ) (e : QueuedEvent) → row_of id s ≡ some e → is_some (from_event_string e.event) ≡ true

module _ (s : System) (v : Inv s) where
  pub decide-advances :
      (id : ℕ) (e : QueuedEvent)
      → Permitted s
      → s.phase ≡ fetched e
      → may_follow (stage id s) (stage id (decide e s)) ≡ true
  unfolding decide
  decide-advances id e permitted p = ground (
    arith,
    v.held,
    v.accounted id,
    permitted e.id e,
    Table.find-delete event_key id e.id s.db.event_queue,
  )

  pub create-advances :
      (id : ℕ) (t : Turn) (e : QueuedEvent) (kind : AllowedEvent)
      → s.phase ≡ creating e kind
      → may_follow (stage id s) (stage id (create t e kind s)) ≡ true
  unfolding create
  create-advances id t e kind p = ground (
    arith,
    v.held,
    v.accounted id,
    Table.insert-cases job_key (new_job t.new_id e.created_utc t.now) s.db.jobs,
    Table.find-update event_key id e.id (λ (r : QueuedEvent). record r { job_id = some t.new_id })
        s.db.event_queue (λ a. refl),
  )

-- An event whose handler runs, or has just ended, has had a job.
abbrev pub Served : Phase → List ℕ → Type 0
Served (handling e kind job_id) ids = 1 ≤ count e.id ids
Served (closing e) ids = 1 ≤ count e.id ids
Served _ ids = Unit

pub record Kept (s : System) : Type 0 where
  pub permitted : Permitted s
  pub served : Served s.phase s.started

module _ (s : System) (k : Kept s) where
  -- The steps that touch neither the queue nor the history.
  same-Kept :
      (t : System)
      → t.db.event_queue ≡ s.db.event_queue
      → t.started ≡ s.started
      → Served t.phase s.started
      → Kept t
  same-Kept t same_queue same_started served = record {
    permitted = λ id e found. k.permitted id e (rw same_queue at found);
    served = rw same_started served;
  }

  decide-Kept : (e : QueuedEvent) → Kept (decide e s)
  unfolding decide
  decide-Kept e = record {
    permitted = λ id r found.
        ground (arith, k.permitted id r, Table.find-delete event_key id e.id s.db.event_queue);
    served = ground arith;
  }

  create-Kept : (t : Turn) (e : QueuedEvent) (kind : AllowedEvent) → Kept (create t e kind s)
  unfolding create
  create-Kept t e kind =
      let assign = λ (r : QueuedEvent). record r { job_id = some t.new_id } in
      record {
        permitted = λ id r found. elim (Option-cases (row_of id s)) [
          | inl gone ↦ ground (
            arith,
            Table.insert-cases job_key (new_job t.new_id e.created_utc t.now) s.db.jobs,
            Table.find-update event_key id e.id assign s.db.event_queue (λ a. refl),
          )
          | inr (old, there) ↦ ground (
            arith,
            k.permitted id old there,
            Table.insert-cases job_key (new_job t.new_id e.created_utc t.now) s.db.jobs,
            Table.find-update event_key id e.id assign s.db.event_queue (λ a. refl),
          )
        ];
        served =
            ground
              (arith, Table.insert-cases job_key (new_job t.new_id e.created_utc t.now) s.db.jobs);
      }

  conclude-Kept :
      (t : Turn) (e : QueuedEvent) (kind : AllowedEvent) (job_id : ℕ)
      → KeepsQueue s.db t.db_after
      → s.phase ≡ handling e kind job_id
      → Kept (conclude t e job_id s)
  unfolding conclude
  conclude-Kept t e kind job_id keeps p = record {
    permitted = λ id r found. ground (arith, k.permitted id r);
    served = ground (arith, k.served);
  }

  close-Kept : (e : QueuedEvent) → Kept (close e s)
  unfolding close
  close-Kept e = record {
    permitted = λ id r found.
        ground (arith, k.permitted id r, Table.find-delete event_key id e.id s.db.event_queue);
    served = tt;
  }

  fetch-Kept : Kept (fetch s)
  unfolding fetch
  fetch-Kept = same-Kept (fetch s) (ground arith) (ground arith) (ground arith)

  receive-Kept : Kept (receive s)
  unfolding receive
  receive-Kept = same-Kept (receive s) (ground arith) (ground arith) (ground (arith, k.served))

  drop_enqueue-Kept : Kept (drop_enqueue s)
  unfolding drop_enqueue
  drop_enqueue-Kept =
      same-Kept (drop_enqueue s) (ground arith) (ground arith) (ground (arith, k.served))

  send-Kept : Kept (send s)
  unfolding send
  send-Kept = same-Kept (send s) (ground arith) (ground arith) (ground (arith, k.served))

  insert_event-Kept :
      (id now : ℕ) (event : Text) (body : Bytes) → Kept (insert_event id now event body s).1
  unfolding insert_event
  insert_event-Kept id now event body = record {
    permitted = λ j e found. ground (
      arith,
      k.permitted j e,
      Table.insert-cases event_key (queued id now event body) s.db.event_queue,
      Table.find-append event_key j s.db.event_queue (queued id now event body),
    );
    served =
        ground (
          arith,
          k.served,
          Table.insert-cases event_key (queued id now event body) s.db.event_queue,
        );
  }

  work_at-Kept :
      (p : Phase) (t : Turn) → s.phase ≡ p → KeepsQueue s.db t.db_after → Kept (work_at p t s)
  unfolding work_at start restart
  work_at-Kept starting t p keeps = same-Kept (start s) refl refl tt
  work_at-Kept waiting t p keeps = receive-Kept
  work_at-Kept woken t p keeps = fetch-Kept
  work_at-Kept (fetched e) t p keeps = decide-Kept e
  work_at-Kept (creating e kind) t p keeps = create-Kept t e kind
  work_at-Kept (handling e kind job_id) t p keeps = conclude-Kept t e kind job_id keeps p
  work_at-Kept (closing e) t p keeps = close-Kept e
  work_at-Kept failed t p keeps = same-Kept (restart s) refl refl tt

  Step-Kept : {t : System} → Step s t → Kept t
  unfolding work
  Step-Kept (works t keeps) = work_at-Kept s.phase t refl keeps
  Step-Kept (inserts id now event body fresh) = insert_event-Kept id now event body
  Step-Kept sends = send-Kept
  Step-Kept drops = drop_enqueue-Kept
  Step-Kept (toggles enabled) = record { permitted = k.permitted; served = k.served }
  Step-Kept crashes = record { permitted = k.permitted; served = tt }
  Step-Kept reboots = record { permitted = k.permitted; served = tt }

pub Reachable-Kept : {s : System} → Reachable s → Kept s
unfolding init Table.find
Reachable-Kept boot = record { permitted = λ id e found. absurd (cc found); served = tt }
Reachable-Kept (next {s} r st) = Step-Kept s (Reachable-Kept r) st
