-- ===== src/EventQueue/Steps/Refinement.antt =====
-- The steps of the event queue as steps in the life of an event:
-- ci-bench-runner/src/event_queue.rs.
use rustls_bench_app.Base.{ℕ, ◌≡◌, refl, true, arith}
use rustls_bench_app.Base.Text.{Text}
use rustls_bench_app.Base.Table
use rustls_bench_app.Db.Schema.{Bytes, QueuedEvent, event_key}
use rustls_bench_app.Db.Events.{queued}
use rustls_bench_app.EventQueue.Worker.{
  Phase, starting, waiting, woken, fetched, creating, handling, closing, failed, System, Turn,
  start, receive, fetch, conclude, close, restart, work_at, work, insert_event, send, drop_enqueue,
}
use rustls_bench_app.EventQueue.Steps.{
  count, KeepsQueue, Step, works, inserts, sends, drops, toggles, crashes, reboots, Reachable,
}
use rustls_bench_app.EventQueue.Steps.CrashLoop.{Inv, Reachable-Inv}
use rustls_bench_app.EventQueue.Steps.LifeCycle.{
  Kept, Reachable-Kept, create-advances, decide-advances, may_follow, stage,
}

module _ (s : System) (v : Inv s) (k : Kept s) (id : ℕ) where
  abbrev Advances : System → Type 0
  Advances t = may_follow (stage id s) (stage id t) ≡ true

  same-Advances :
      (t : System) → t.db.event_queue ≡ s.db.event_queue → t.started ≡ s.started → Advances t
  same-Advances t same_queue same_started = rw (same_queue, same_started) (ground (arith))

  conclude-Advances :
      (t : Turn) (e : QueuedEvent) (job_id : ℕ)
      → KeepsQueue s.db t.db_after
      → Advances (conclude t e job_id s)
  unfolding conclude
  conclude-Advances t e job_id keeps =
      same-Advances (conclude t e job_id s) (ground arith) (ground arith)

  close-Advances : (e : QueuedEvent) → s.phase ≡ closing e → Advances (close e s)
  unfolding close
  close-Advances e p =
      ground (arith, k.served, Table.find-delete event_key id e.id s.db.event_queue)

  work_at-Advances :
      (p : Phase) (t : Turn) → s.phase ≡ p → KeepsQueue s.db t.db_after → Advances (work_at p t s)
  unfolding work_at start restart receive fetch
  work_at-Advances starting t p keeps = same-Advances (start s) refl refl
  work_at-Advances waiting t p keeps = same-Advances (receive s) (ground arith) (ground arith)
  work_at-Advances woken t p keeps = same-Advances (fetch s) (ground arith) (ground arith)
  work_at-Advances (fetched e) t p keeps = decide-advances s v id e k.permitted p
  work_at-Advances (creating e kind) t p keeps = create-advances s v id t e kind p
  work_at-Advances (handling e kind job_id) t p keeps = conclude-Advances t e job_id keeps
  work_at-Advances (closing e) t p keeps = close-Advances e p
  work_at-Advances failed t p keeps = same-Advances (restart s) refl refl

  insert_event-Advances :
      (j now : ℕ) (event : Text) (body : Bytes)
      → count j s.started ≡ 0
      → Advances (insert_event j now event body s).1
  unfolding insert_event
  insert_event-Advances j now event body fresh = ground (
    arith,
    Table.insert-cases event_key (queued j now event body) s.db.event_queue,
    Table.find-append event_key id s.db.event_queue (queued j now event body),
  )

  drop_enqueue-Advances : Advances (drop_enqueue s)
  unfolding drop_enqueue
  drop_enqueue-Advances = same-Advances (drop_enqueue s) (ground arith) (ground arith)

  send-Advances : Advances (send s)
  unfolding send
  send-Advances = same-Advances (send s) (ground arith) (ground arith)

  Step-Advances : {t : System} → Step s t → Advances t
  unfolding work
  Step-Advances (works t keeps) = work_at-Advances s.phase t refl keeps
  Step-Advances (inserts j now event body fresh) = insert_event-Advances j now event body fresh
  Step-Advances sends = send-Advances
  Step-Advances drops = drop_enqueue-Advances
  Step-Advances (toggles enabled) =
      same-Advances (record s { processing_enabled = enabled }) refl refl
  Step-Advances crashes = same-Advances (record s { phase = failed }) refl refl
  Step-Advances reboots = same-Advances s refl refl

-- From a reachable state, every step of the event queue, a crash included, is a step of the specification: it leaves each
-- event where it is, or takes it to the next stage of its life.
pub Step-refines :
    (s t : System) (id : ℕ) → Reachable s → Step s t → may_follow (stage id s) (stage id t) ≡ true
Step-refines s t id r st = Step-Advances s (Reachable-Inv r) (Reachable-Kept r) id st
