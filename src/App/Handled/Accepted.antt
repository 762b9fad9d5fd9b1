-- ===== src/App/Handled/Accepted.antt =====
-- A webhook that arrives at the idle program: ci-bench-runner/src/lib.rs, event_queue.rs and job/.
use mathlib.Core.Path.{subst}
use rustls_bench_app.Base.{ℕ, ◌≡◌, ◌≢◌, ◌∙◌, refl, ap, sym, true, none, some, [], ◌∷◌, arith}
use rustls_bench_app.Base.Text.{Text}
use rustls_bench_app.Base.Table
use rustls_bench_app.Base.Result.{ok, panic}
use rustls_bench_app.Db.Schema.{QueuedEvent, job_key}
use rustls_bench_app.Db.Events.{queued}
use rustls_bench_app.EventQueue.Views.{AllowedEvent, from_event_string}
use rustls_bench_app.EventQueue.Worker.{waiting, handling}
use rustls_bench_app.EventQueue.Steps.Wakeups.{waiting_means_empty}
use rustls_bench_app.EventQueue.Steps.Serve.{Is}
use rustls_bench_app.Http.Handlers.{Request, visible, ok_200, handle_github_webhook}
use rustls_bench_app.Http.Webhook.{accepted_is_authentic}
use rustls_bench_app.Job.World.{Env}
use rustls_bench_app.App.{Setup, App, request, Reachable}
use rustls_bench_app.App.Refines.{Reachable-system}
use rustls_bench_app.App.Handled.Halves.{begins, ends}
use rustls_bench_app.App.Handled.{runs, world_before, handled, IsServed}
use rustls_bench_app.App.Handled.Halves.{begins, ends}

module _ (setup : Setup) (env : Env) (ids clock : App → ℕ)
    (fresh : (a : App) → Table.find job_key (ids a) a.system.db.jobs ≡ none) where
  -- An accepted webhook leaves its event and one message, and nothing else.
  accepted :
      (id now : ℕ) (event : Text) (r : Request) (a : App)
      → Reachable setup a
      → a.system.phase ≡ waiting
      → a.system.processing_enabled ≡ true
      → a.system.signals ≡ 0
      → a.system.unsent ≡ 0
      → a.system.dropped ≡ 0
      → (handle_github_webhook setup.crypto setup.webhooks id now r a.system).0 ≡ ok ok_200
      → r.event ≡ some (visible event)
      → let b = request setup id now r a in
        Is b.system waiting 1 (queued id now event r.body ∷ []) a.system.started
        × (b.system.started ≡ a.system.started)
        × (b.system.db.jobs ≡ a.system.db.jobs)
        × ((e : QueuedEvent) (job_id created : ℕ)
            → world_before setup env ids clock b e job_id created
              ≡ world_before setup env ids clock a e job_id created)
  unfolding request
  accepted id now event r a reached p enabled quiet sent none_lost answered named =
      let t = (handle_github_webhook setup.crypto setup.webhooks id now r a.system).1 in
      let (event', (signature, signed, verified, named', allowed), same) =
        accepted_is_authentic setup.crypto setup.webhooks id now r a.system t
          (ap (λ x. (x, t)) answered) in
      let this_event : event' ≡ event = cc in
      let empty =
        waiting_means_empty a.system (Reachable-system setup a reached) p quiet sent none_lost in
      (
        record {
          phase = rw same p;
          signals = rw same (omega (arith, quiet));
          queue = rw (same, empty, this_event) refl;
          started = rw same refl;
          enabled = rw same enabled;
        },
        rw same refl,
        rw same refl,
        (λ e job_id created. rw same refl),
      )

  -- A webhook that is answered by 200 while the program is idle, in a reachable state whose task
  -- waits, with processing enabled, no message in or on its way to the channel, and none dropped
  -- since the task last counted the events, has its handler run exactly once, on its own event and
  -- payload. Where the surroundings stay the same, the ids of new jobs are new, and that run does
  -- not panic, the task waits again six steps later, with what the handler left in the database and
  -- the calls that it made, but for an empty queue and one job more, which is a success exactly
  -- when the handler returned no error.
  pub webhook_runs_handler :
      (id now : ℕ) (event : Text) (kind : AllowedEvent) (r : Request) (a : App)
      → Reachable setup a
      → a.system.phase ≡ waiting
      → a.system.processing_enabled ≡ true
      → a.system.signals ≡ 0
      → a.system.unsent ≡ 0
      → a.system.dropped ≡ 0
      → (handle_github_webhook setup.crypto setup.webhooks id now r a.system).0 ≡ ok ok_200
      → r.event ≡ some (visible event)
      → from_event_string event ≡ some kind
      → ((job_id created : ℕ)
          → (handled setup env ids clock a (queued id now event r.body) kind job_id created).0
            ≢ panic)
      → IsServed setup env ids clock a
          (queued id now event r.body)
          kind
          (runs setup env ids clock 6 (request setup id now r a))
  unfolding runs
  webhook_runs_handler id now event kind r a reached idle enabled quiet sent none_lost answered
        named allowed safe =
      let b = request setup id now r a in
      let e = queued id now event r.body in
      let (h, ids0, jobs, worlds) =
        accepted id now event r a reached idle enabled quiet sent none_lost answered named in
      let h' : Is b.system waiting 1 (e ∷ []) b.system.started =
        subst (Is b.system waiting 1 (e ∷ [])) (sym ids0) h in
      let (job_id, created, free, (q, ready), same) =
        begins setup env ids clock fresh b e kind allowed refl h' in
      ends setup env ids clock fresh a (runs setup env ids clock 4 b) e kind job_id created q
        (subst (λ l. Table.find job_key job_id l ≡ none) jobs free)
        (subst (λ l. Is (runs setup env ids clock 4 b).system (handling e kind job_id) 0 q (id ∷ l))
          ids0 ready)
        (same ∙ worlds e job_id created) (safe job_id created)
