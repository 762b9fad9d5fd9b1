-- ===== src/EventQueue/Steps/Drain.antt =====
-- The task left alone with a queue of events: ci-bench-runner/src/event_queue.rs.
use rustls_bench_app.Base.{
  ℕ, zero, suc, ◌+◌, ◌*◌, ◌≡◌, refl, true, none, some, List, [], ◌∷◌, is_some, if◌then◌else◌, inl,
  inr, length, arith, Option-cases,
}
use rustls_bench_app.Base.Table
use rustls_bench_app.Db.Schema.{QueuedEvent, event_key}
use rustls_bench_app.Db.Events.{earliest}
use rustls_bench_app.Db.Events.Order.{earliest-find_row, earliest-cons}
use rustls_bench_app.EventQueue.Views.{AllowedEvent, from_event_string}
use rustls_bench_app.EventQueue.Worker.{waiting, System, work}
use rustls_bench_app.EventQueue.Steps.{works, Reachable, next}
use rustls_bench_app.EventQueue.Steps.CrashLoop.{Reachable-Inv, row_of}
use rustls_bench_app.EventQueue.Steps.LifeCycle.{Reachable-Kept}
use rustls_bench_app.EventQueue.Steps.Serve.{
  Surroundings, IsCalm, Is, delete-update, delete-delete, receive-Is, fetch-Is, decide-Is,
  create-Is, conclude-Is, close-Is,
}

-- So many steps of the task, and nothing else.
unfoldable pub run : ℕ → Surroundings → System → System
run zero o s = s
run (suc n) o s = run n o (work (o s) s)

-- The jobs that a queue leads to, latest first: always for the oldest event that is left.
unfoldable pub serve : ℕ → List QueuedEvent → List ℕ → List ℕ
serve zero q ids = ids
serve (suc n) q ids = elim (earliest q) [
  | none ↦ ids
  | some e ↦ serve n (Table.delete event_key e.id q) (e.id ∷ ids)
]

run-add : (m n : ℕ) (o : Surroundings) (s : System) → run (m + n) o s ≡ run n o (run m o s)
unfolding run
run-add zero n o s = let e : 0 + n ≡ n = omega arith in rw e refl
run-add (suc m) n o s =
    let e : suc m + n ≡ suc (m + n) = omega arith in rw e (run-add m n o (work (o s) s))

length-zero : (q : List QueuedEvent) → length q ≡ 0 → q ≡ []
length-zero [] h = refl
length-zero (x ∷ q) h = absurd (omega arith)

earliest-some :
    (q : List QueuedEvent) (n : ℕ) → length q ≡ suc n → (e : QueuedEvent) × (earliest q ≡ some e)
earliest-some [] n h = absurd (omega arith)
earliest-some (x ∷ q) n h = elim (Option-cases (earliest (x ∷ q))) [
  | inl none_found ↦ absurd (earliest-cons x q none_found)
  | inr found ↦ found
]

length-delete-Unique :
    (k : ℕ) (q : List QueuedEvent) (e : QueuedEvent)
    → Table.Unique event_key q
    → Table.find event_key k q ≡ some e
    → length (Table.delete event_key k q) + 1 ≡ length q
unfolding Table.find Table.delete
length-delete-Unique k [] e u h = absurd (cc h)
length-delete-Unique k (x ∷ q) e u h =
    ground
      (arith, length-delete-Unique k q e u.1, Table.delete_absent event_key (event_key x) q, u.0)

module _ (o : Surroundings) (calm : IsCalm o) where
  -- Six steps serve the oldest event.
  serve_one :
      (s : System) (n : ℕ) (q : List QueuedEvent) (ids : List ℕ) (e : QueuedEvent)
      (kind : AllowedEvent)
      → earliest q ≡ some e
      → from_event_string e.event ≡ some kind
      → Is s waiting (suc n) q ids
      → Is (run 6 o s) waiting n (Table.delete event_key e.id q) (e.id ∷ ids)
  unfolding run
  serve_one s n q ids e kind oldest allowed h =
      let s1 = work (o s) s in
      let h1 = receive-Is (o s) s n q ids h in
      let s2 = work (o s1) s1 in
      let h2 = fetch-Is (o s1) s1 n q ids e oldest h1 in
      let s3 = work (o s2) s2 in
      let h3 = decide-Is (o s2) s2 n q ids e kind allowed h2 in
      let q3 : List QueuedEvent = if is_some e.job_id then Table.delete event_key e.id q else q in
      let s4 = work (o s3) s3 in
      let h4 = create-Is (o s3) s3 n q3 ids e kind (calm.fresh s3) h3 in
      let j = (o s3).new_id in
      let assign = λ (r : QueuedEvent). record r { job_id = some j } in
      let q4 = Table.update event_key e.id assign q3 in
      let s5 = work (o s4) s4 in
      let h5 = conclude-Is (o s4) s4 n q4 (e.id ∷ ids) e kind j (calm.ends s4) (calm.keeps s4) h4 in
      let h6 = close-Is (o s5) s5 n q4 (e.id ∷ ids) e h5 in
      let gone : Table.delete event_key e.id q4 ≡ Table.delete event_key e.id q =
        ground (arith, delete-update e.id assign q3 (λ a. refl), delete-delete e.id q) in
      rw gone at h6

  step-Reachable : (s : System) → Reachable s → Reachable (work (o s) s)
  step-Reachable s r = next r (works (o s) (calm.keeps s))

  run-Reachable : (n : ℕ) (s : System) → Reachable s → Reachable (run n o s)
  unfolding run
  run-Reachable zero s r = r
  run-Reachable (suc n) s r = run-Reachable n (work (o s) s) (step-Reachable s r)

  serve_all :
      (n : ℕ) (s : System) (q : List QueuedEvent) (ids : List ℕ)
      → Reachable s
      → length q ≡ n
      → Is s waiting n q ids
      → Is (run (6 * n) o s) waiting 0 [] (serve n q ids)
  unfolding serve run
  serve_all zero s q ids r e h =
      let nothing : q ≡ [] = length-zero q e in
      let none_left : 6 * 0 ≡ 0 = omega arith in rw (none_left, ← nothing) h
  serve_all (suc n) s q ids r e h =
      let v = Reachable-Inv r in
      let k = Reachable-Kept r in
      let (first, oldest) = earliest-some q n e in
      let unique : Table.Unique event_key q = rw h.queue at v.unique in
      let row = earliest-find_row q first unique oldest in
      let there : row_of first.id s ≡ some first = rw h.queue row in
      elim (Option-cases (from_event_string first.event)) [
        | inl forbidden ↦ absurd (ground (arith, k.permitted first.id first there))
        | inr (kind, allowed) ↦
            let rest = Table.delete event_key first.id q in
            let shorter : length rest ≡ n =
              omega (arith, length-delete-Unique first.id q first unique row) in
            let one = serve_one s n q ids first kind oldest allowed h in
            let all =
              serve_all n (run 6 o s) rest (first.id ∷ ids) (run-Reachable 6 s r) shorter one in
            let more : 6 * suc n ≡ 6 + 6 * n = omega arith in
            rw (more, run-add 6 (6 * n) o s, oldest, serve) all
      ]

  -- In a reachable state, with processing enabled and one message for each queued event, a task that
  -- waits empties the queue in six steps for each event, where the ids of new jobs are new and the
  -- handlers end and leave the queue alone: it creates one job for each event, always for the oldest
  -- that is left, and then waits with no message left.
  pub queue_drains :
      (s : System)
      → Reachable s
      → s.phase ≡ waiting
      → s.processing_enabled ≡ true
      → s.signals ≡ length s.db.event_queue
      → let t = run (6 * length s.db.event_queue) o s in
        (t.phase ≡ waiting)
        × (t.signals ≡ 0)
        × (t.db.event_queue ≡ [])
        × (t.started ≡ serve (length s.db.event_queue) s.db.event_queue s.started)
  queue_drains s r p enabled signals =
      let h = serve_all (length s.db.event_queue) s s.db.event_queue s.started r refl (record {
        phase = p;
        signals = signals;
        queue = refl;
        started = refl;
        enabled = enabled;
      }) in
      (h.phase, h.signals, h.queue, h.started)
