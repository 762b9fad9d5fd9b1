-- ===== src/App/Handled/Halves.antt =====
-- The six steps of the task that serve one event, in two parts: before its handler runs, and from then
-- on. ci-bench-runner/src/event_queue.rs.
use mathlib.Core.Path.{subst}
use rustls_bench_app.Base.{
  ℕ, ◌≡◌, ◌≢◌, ◌∙◌, refl, ap, sym, none, some, List, [], ◌∷◌, ◌++◌, is_some, if◌then◌else◌, arith,
}
use rustls_bench_app.Base.Table
use rustls_bench_app.Base.Result.{Result, panic}
use rustls_bench_app.Db.Schema.{QueuedEvent, BenchJob, event_key, job_key}
use rustls_bench_app.Db.Events.{earliest, new_job, finish}
use rustls_bench_app.EventQueue.Views.{AllowedEvent, from_event_string}
use rustls_bench_app.EventQueue.Worker.{waiting, handling, is_ok}
use rustls_bench_app.EventQueue.Steps.{KeepsQueue}
use rustls_bench_app.EventQueue.Steps.Serve.{
  Is, receive-Is, fetch-Is, decide-Is, create-Is, conclude-Is, close-Is,
}
use rustls_bench_app.Job.World.{World, Env}
use rustls_bench_app.Job.Handlers.Queue.{handler, handler-KeepsQueue}
use rustls_bench_app.App.{Setup, Outside, App, context, outcome, world_of, after, turn, work}
use rustls_bench_app.App.Refines.{outcome-KeepsQueue}
use rustls_bench_app.App.Handled.{
  receive-world, fetch-world, decide-world, create-world, conclude-world, close-world, surroundings,
  runs, world_before, handled, IsServed,
}

update-append :
    (k : ℕ) (f : BenchJob → BenchJob) (jobs : List BenchJob) (job : BenchJob)
    → Table.find job_key k jobs ≡ none
    → job_key job ≡ k
    → Table.update job_key k f (jobs ++ job ∷ []) ≡ jobs ++ f job ∷ []
unfolding Table.find Table.update
update-append k f [] job free h = ground arith
update-append k f (x ∷ jobs) job free h = ground (arith, update-append k f jobs job)

delete_own :
    (e : QueuedEvent) (job_id : ℕ)
    → Table.delete event_key e.id (record e { job_id = some job_id } ∷ []) ≡ []
unfolding Table.delete
delete_own e job_id = ground arith

module _ (setup : Setup) (env : Env) (ids clock : App → ℕ)
    (fresh : (a : App) → Table.find job_key (ids a) a.system.db.jobs ≡ none) where
  abbrev next : App → App
  next a = work setup (surroundings setup env ids clock a) a

  abbrev around : App → Outside
  around = surroundings setup env ids clock

  -- The first four steps: the handler is about to run.
  pub begins :
      (a : App) (e : QueuedEvent) (kind : AllowedEvent)
      → from_event_string e.event ≡ some kind
      → e.job_id ≡ none
      → Is a.system waiting 1 (e ∷ []) a.system.started
      → let b = runs setup env ids clock 4 a in
        (job_id : ℕ) × (created : ℕ) × (Table.find job_key job_id a.system.db.jobs ≡ none)
        × ((q : List QueuedEvent) × Is b.system
              (handling e kind job_id)
              0
              q
              (e.id ∷ a.system.started))
        × (world_of setup b ≡ world_before setup env ids clock a e job_id created)
  unfolding runs work earliest Table.update
  begins a e kind allowed unassigned h =
      let b = next a in
      let c = next b in
      let d = next c in
      let q = e ∷ [] in
      let ids0 = a.system.started in
      let h1 = receive-Is (turn setup (around a) a) a.system 0 q ids0 h in
      let h2 = fetch-Is (turn setup (around b) b) b.system 0 q ids0 e refl h1 in
      let h3 = decide-Is (turn setup (around c) c) c.system 0 q ids0 e kind allowed h2 in
      let q3 = if is_some e.job_id then Table.delete event_key e.id q else q in
      let h4 = create-Is (turn setup (around d) d) d.system 0 q3 ids0 e kind (fresh d) h3 in
      let s1 = receive-world setup (around a) a h.phase in
      let s2 = fetch-world setup (around b) b h1.phase in
      let s3 = decide-world setup (around c) c e kind h2.phase allowed unassigned in
      let s4 = create-world setup (around d) d e kind h3.phase (fresh d) in
      let same : world_of setup d ≡ world_of setup a = s3 ∙ s2 ∙ s1 in
      let jobs : d.system.db.jobs ≡ a.system.db.jobs = ap (λ w. w.db.jobs) same in
      let free : Table.find job_key (ids d) a.system.db.jobs ≡ none =
        subst (λ rows. Table.find job_key (ids d) rows ≡ none) jobs (fresh d) in
      let assign = λ (r : QueuedEvent). record r { job_id = some (ids d) } in
      let made = λ (w : World). record w {
        db = record w.db {
          event_queue = Table.update event_key e.id assign w.db.event_queue;
          jobs = w.db.jobs ++ new_job (ids d) e.created_utc (clock d) ∷ [];
        };
      } in
      let row : Table.update event_key e.id assign a.system.db.event_queue ≡ assign e ∷ [] =
        ap (Table.update event_key e.id assign) h.queue ∙ ground arith in
      (
        ids d,
        clock d,
        free,
        (Table.update event_key e.id assign q3, h4),
        s4
            ∙ ap made same
            ∙ ap
                (λ rows. record (made (world_of setup a)) {
                  db = record (made (world_of setup a)).db { event_queue = rows };
                })
                row,
      )

  -- The last two steps: the handler runs, and the event is deleted.
  pub ends :
      (a c : App) (e : QueuedEvent) (kind : AllowedEvent) (job_id created : ℕ)
      (q : List QueuedEvent)
      → Table.find job_key job_id a.system.db.jobs ≡ none
      → Is c.system (handling e kind job_id) 0 q (e.id ∷ a.system.started)
      → world_of setup c ≡ world_before setup env ids clock a e job_id created
      → (handled setup env ids clock a e kind job_id created).0 ≢ panic
      → IsServed setup env ids clock a e kind (next (next c))
  unfolding work outcome
  ends a c e kind job_id created q free h same safe =
      let d = next c in
      let ctx = context setup e job_id in
      let before = world_before setup env ids clock a e job_id created in
      let out = handled setup env ids clock a e kind job_id created in
      let run : handler env ctx kind (world_of setup c) ≡ out = ap (handler env ctx kind) same in
      let safe' : (handler env ctx kind (world_of setup c)).0 ≢ panic =
        λ p. safe (ap (λ x. x.0) (sym run) ∙ p) in
      let keeps = handler-KeepsQueue env ctx kind before in
      let kept : KeepsQueue c.system.db (after setup (around c) c).1.db =
        outcome-KeepsQueue setup c.system.phase env (world_of setup c) in
      let shown : after setup (around c) c ≡ handler env ctx kind (world_of setup c) =
        rw (h.phase, outcome) refl in
      let fine : (after setup (around c) c).0 ≢ panic =
        λ p. safe' (ap (λ x. x.0) (sym shown) ∙ p) in
      let h1 =
        conclude-Is (turn setup (around c) c) c.system 0 q (e.id ∷ a.system.started) e kind job_id
          fine kept h in
      let h2 = close-Is (turn setup (around d) d) d.system 0 q (e.id ∷ a.system.started) e h1 in
      let done = finish (clock c) (is_ok out.0) in
      let concluded = λ (x : Result (Unit {0}) × World). record x.1 {
        db = record x.1.db {
          jobs = Table.update job_key job_id (finish (clock c) (is_ok x.0)) x.1.db.jobs;
        };
      } in
      let closed = λ (w : World). record w {
        db = record w.db { event_queue = Table.delete event_key e.id w.db.event_queue };
      } in
      let s1 = conclude-world setup (around c) c e kind job_id h.phase safe' ∙ ap concluded run in
      let s2 = close-world setup (around d) d e h1.phase ∙ ap closed s1 in
      let jobs =
        ap (Table.update job_key job_id done) keeps.same_jobs
        ∙ update-append job_id done a.system.db.jobs (new_job job_id e.created_utc created) free
            refl in
      let events : Table.delete event_key e.id out.1.db.event_queue ≡ [] =
        ap (Table.delete event_key e.id) keeps.same_events ∙ delete_own e job_id in
      record {
        waits = h2.phase;
        started = h2.started;
        job_id = job_id;
        created = created;
        finished = clock c;
        db = ap (λ w. w.db) s2 ∙ (λ i. record out.1.db { event_queue = events i; jobs = jobs i });
        calls = ap (λ w. w.calls) s2;
      }
