-- ===== src/EventQueue/Steps/Wakeups.antt =====
-- The messages in the channel and the events in the queue: ci-bench-runner/src/event_queue.rs.
use rustls_bench_app.Base.{
  ℕ, ◌+◌, ◌≤◌, ◌≡◌, refl, Bool, true, false, some, List, [], ◌∷◌, ◌++◌, is_some, length,
  length-append, if◌then◌else◌, arith, Option-cases, inl, inr,
}
use rustls_bench_app.Base.Text.{Text}
use rustls_bench_app.Base.Table
use rustls_bench_app.Db.Schema.{Bytes, QueuedEvent, event_key, job_key}
use rustls_bench_app.Db.Events.{queued, earliest, new_job}
use rustls_bench_app.Db.Events.Order.{earliest-find}
use rustls_bench_app.EventQueue.Views.{AllowedEvent}
use rustls_bench_app.EventQueue.Worker.{
  Phase, starting, waiting, woken, fetched, creating, handling, closing, failed, System, init, Turn,
  start, receive, fetch, decide, create, conclude, close, work_at, work, insert_event, send,
  drop_enqueue,
}
use rustls_bench_app.EventQueue.Steps.{
  KeepsQueue, Step, works, inserts, sends, drops, toggles, crashes, reboots, Reachable, boot, next,
}

-- One event that the task took a message for, while it is still in the queue.
abbrev in_queue : QueuedEvent → List QueuedEvent → ℕ
in_queue e q = if is_some (Table.find event_key e.id q) then 1 else 0

abbrev taken : Phase → List QueuedEvent → ℕ
taken woken q = 1
taken (fetched e) q = in_queue e q
taken (creating e kind) q = in_queue e q
taken (handling e kind job_id) q = in_queue e q
taken (closing e) q = in_queue e q
taken _ q = 0

-- A task that starts, or will be started, counts the events anew.
abbrev recounts : Phase → Bool
recounts starting = true
recounts failed = true
recounts _ = false

abbrev Announced : System → Type 0
Announced s =
    recounts s.phase ≡ false
    → length s.db.event_queue ≤ s.signals + s.unsent + s.dropped + taken s.phase s.db.event_queue

length-delete-in_queue :
    (e : QueuedEvent) (q : List QueuedEvent)
    → length (Table.delete event_key e.id q) + in_queue e q ≤ length q
length-delete-in_queue e q = elim (Option-cases (Table.find event_key e.id q)) [
  | inl gone ↦ rw gone (omega (arith, Table.length-delete-le event_key e.id q))
  | inr (r, found) ↦ rw found (Table.length-delete event_key e.id q r found)
]

module _ (s : System) (h : Announced s) where
  fetch-Announced : s.phase ≡ woken → Announced (fetch s)
  unfolding fetch
  fetch-Announced e = elim (Option-cases (earliest s.db.event_queue)) [
    | inl empty ↦ ground arith
    | inr (r, found) ↦ ground (arith, earliest-find s.db.event_queue r)
  ]

  decide-Announced : (e : QueuedEvent) → s.phase ≡ fetched e → Announced (decide e s)
  unfolding decide
  decide-Announced e p = ground (arith, length-delete-in_queue e s.db.event_queue)

  close-Announced : (e : QueuedEvent) → s.phase ≡ closing e → Announced (close e s)
  unfolding close
  close-Announced e p = ground (arith, length-delete-in_queue e s.db.event_queue)

  create-Announced :
      (t : Turn) (e : QueuedEvent) (kind : AllowedEvent)
      → s.phase ≡ creating e kind
      → Announced (create t e kind s)
  unfolding create
  create-Announced t e kind p =
      let assign = λ (r : QueuedEvent). record r { job_id = some t.new_id } in
      ground (
        arith,
        Table.insert-cases job_key (new_job t.new_id e.created_utc t.now) s.db.jobs,
        Table.length-update event_key e.id assign s.db.event_queue,
        Table.find-update event_key e.id e.id assign s.db.event_queue (λ a. refl),
      )

  conclude-Announced :
      (t : Turn) (e : QueuedEvent) (kind : AllowedEvent) (job_id : ℕ)
      → KeepsQueue s.db t.db_after
      → s.phase ≡ handling e kind job_id
      → Announced (conclude t e job_id s)
  unfolding conclude
  conclude-Announced t e kind job_id keeps p = ground arith

-- A message for each event, less what was waiting in the channel: none is missing.
start-Announced : (s : System) → Announced (start s)
unfolding start
start-Announced s = omega arith

receive-Announced : (s : System) → Announced s → s.phase ≡ waiting → Announced (receive s)
unfolding receive
receive-Announced s h p = ground arith

work_at-Announced :
    (p : Phase) (t : Turn) (s : System)
    → s.phase ≡ p
    → KeepsQueue s.db t.db_after
    → Announced s
    → Announced (work_at p t s)
unfolding work_at
work_at-Announced starting t s e keeps h = start-Announced s
work_at-Announced waiting t s e keeps h = receive-Announced s h e
work_at-Announced woken t s e keeps h = fetch-Announced s h e
work_at-Announced (fetched ev) t s e keeps h = decide-Announced s h ev e
work_at-Announced (creating ev kind) t s e keeps h = create-Announced s h t ev kind e
work_at-Announced (handling ev kind job_id) t s e keeps h =
    conclude-Announced s h t ev kind job_id keeps e
work_at-Announced (closing ev) t s e keeps h = close-Announced s h ev e
work_at-Announced failed t s e keeps h = λ running. cc

in_queue-append :
    (e r : QueuedEvent) (q : List QueuedEvent) → in_queue e q ≤ in_queue e (q ++ r ∷ [])
in_queue-append e r q = ground (arith, Table.find-append event_key e.id q r)

taken-append :
    (p : Phase) (r : QueuedEvent) (q : List QueuedEvent) → taken p q ≤ taken p (q ++ r ∷ [])
taken-append starting r q = omega arith
taken-append woken r q = omega arith
taken-append (fetched e) r q = in_queue-append e r q
taken-append (creating e kind) r q = in_queue-append e r q
taken-append (handling e kind job_id) r q = in_queue-append e r q
taken-append (closing e) r q = in_queue-append e r q
taken-append _ r q = omega arith

insert_event-Announced :
    (id now : ℕ) (event : Text) (body : Bytes) (s : System)
    → Announced s
    → Announced (insert_event id now event body s).1
unfolding insert_event
insert_event-Announced id now event body s h =
    let row = queued id now event body in
    ground (
      arith,
      Table.insert-cases event_key row s.db.event_queue,
      taken-append s.phase row s.db.event_queue,
      length-append s.db.event_queue (row ∷ []),
    )

send-Announced : (s : System) → Announced s → Announced (send s)
unfolding send
send-Announced s h = ground arith

drop_enqueue-Announced : (s : System) → Announced s → Announced (drop_enqueue s)
unfolding drop_enqueue
drop_enqueue-Announced s h = ground arith

Step-Announced : {s t : System} → Step s t → Announced s → Announced t
unfolding work
Step-Announced {s} (works t keeps) h = work_at-Announced s.phase t s refl keeps h
Step-Announced {s} (inserts id now event body fresh) h =
    insert_event-Announced id now event body s h
Step-Announced {s} sends h = send-Announced s h
Step-Announced {s} drops h = drop_enqueue-Announced s h
Step-Announced {s} (toggles enabled) h = h
Step-Announced {s} crashes h = λ running. cc
Step-Announced {s} reboots h = λ running. cc

Reachable-Announced : {s : System} → Reachable s → Announced s
unfolding init
Reachable-Announced boot = λ running. cc
Reachable-Announced (next r st) = Step-Announced st (Reachable-Announced r)

-- However enqueuing, working, pausing, crashing and restarting are interleaved, and calls of
-- `enqueue` are dropped: when the task waits at the channel, no message is in the channel, no call
-- of `enqueue` is about to send one, and none was dropped between its insertion and its message
-- since the task last counted the events, the queue of events in the database is empty.
pub waiting_means_empty :
    (s : System)
    → Reachable s
    → s.phase ≡ waiting
    → s.signals ≡ 0
    → s.unsent ≡ 0
    → s.dropped ≡ 0
    → s.db.event_queue ≡ []
waiting_means_empty s r p no_signal none_unsent none_dropped =
    length-zero s.db.event_queue (ground (arith, Reachable-Announced r))
  where
    length-zero : (q : List QueuedEvent) → length q ≤ 0 → q ≡ []
    length-zero [] h = refl
    length-zero (x ∷ xs) h = absurd (omega arith)
