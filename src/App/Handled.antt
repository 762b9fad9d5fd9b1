-- ===== src/App/Handled.antt =====
-- An accepted webhook of any kind, and the run of its handler: ci-bench-runner/src/lib.rs,
-- event_queue.rs and job/.
pub mod Halves
pub mod Accepted
use mathlib.Core.Path.{subst}
use rustls_bench_app.Base.{
  ℕ, zero, suc, ◌+◌, ◌≡◌, ◌≢◌, ◌∙◌, refl, ap, sym, true, none, some, List, [], ◌∷◌, ◌++◌, is_some,
  if◌then◌else◌, arith, inl, inr,
}
use rustls_bench_app.Base.Text.{Text}
use rustls_bench_app.Base.Table
use rustls_bench_app.Base.Result.{Result, ok, err, panic, Result-cases}
use rustls_bench_app.Db.Schema.{Bytes, QueuedEvent, BenchJob, Database, event_key, job_key}
use rustls_bench_app.Db.Events.{
  queued, earliest, new_job, finish, next_queued_event, new_job_for_event, job_finished,
  delete_event,
}
use rustls_bench_app.EventQueue.Views.{AllowedEvent, from_event_string}
use rustls_bench_app.EventQueue.Worker
use rustls_bench_app.EventQueue.Worker.{
  waiting, woken, fetched, creating, handling, closing, System, is_ok, receive, fetch, decide,
  create, conclude, close, work_at,
}
use rustls_bench_app.EventQueue.Steps.{KeepsQueue}
use rustls_bench_app.EventQueue.Steps.Wakeups.{waiting_means_empty}
use rustls_bench_app.EventQueue.Steps.Serve.{
  Is, receive-Is, fetch-Is, decide-Is, create-Is, conclude-Is, close-Is,
}
use rustls_bench_app.Http.Handlers.{Request, visible, ok_200, handle_github_webhook}
use rustls_bench_app.Http.Webhook.{accepted_is_authentic}
use rustls_bench_app.Job.World.{World, Call, Env}
use rustls_bench_app.Job.Handlers.Queue.{handler, handler-KeepsQueue}
use rustls_bench_app.App.{
  Setup, Outside, App, context, outcome, world_of, after, turn, work, request, Reachable,
}
use rustls_bench_app.App.Refines.{Reachable-system, outcome-KeepsQueue}

module _ (setup : Setup) (o : Outside) (a : App) where
  pub receive-world : a.system.phase ≡ waiting → world_of setup (work setup o a) ≡ world_of setup a
  unfolding work Worker.work work_at receive outcome
  receive-world h = ground (arith, h)

  pub fetch-world : a.system.phase ≡ woken → world_of setup (work setup o a) ≡ world_of setup a
  unfolding work Worker.work work_at fetch next_queued_event outcome
  fetch-world h = ground (arith, h)

  -- An event without a job stays in the queue.
  pub decide-world :
      (e : QueuedEvent) (kind : AllowedEvent)
      → a.system.phase ≡ fetched e
      → from_event_string e.event ≡ some kind
      → e.job_id ≡ none
      → world_of setup (work setup o a) ≡ world_of setup a
  unfolding work Worker.work work_at decide outcome
  decide-world e kind h allowed unassigned = ground (arith, h, allowed, unassigned)

  pub create-world :
      (e : QueuedEvent) (kind : AllowedEvent)
      → a.system.phase ≡ creating e kind
      → Table.find job_key o.new_id a.system.db.jobs ≡ none
      → world_of setup (work setup o a) ≡ record {
        db = record a.system.db {
          event_queue =
              Table.update event_key e.id
                (λ r. record r { job_id = some o.new_id })
                a.system.db.event_queue;
          jobs = a.system.db.jobs ++ new_job o.new_id e.created_utc o.now ∷ [];
        };
        calls = a.calls;
      }
  unfolding work Worker.work work_at create new_job_for_event outcome
  create-world e kind h fresh = ground (
    arith,
    h,
    Table.insert-fresh job_key (new_job o.new_id e.created_utc o.now) a.system.db.jobs fresh,
  )

  pub conclude-world :
      (e : QueuedEvent) (kind : AllowedEvent) (job_id : ℕ)
      → a.system.phase ≡ handling e kind job_id
      → (handler o.env (context setup e job_id) kind (world_of setup a)).0 ≢ panic
      → let (r, w) = handler o.env (context setup e job_id) kind (world_of setup a) in
        world_of setup (work setup o a) ≡ record w {
          db = record w.db {
            jobs = Table.update job_key job_id (finish o.now (is_ok r)) w.db.jobs;
          };
        }
  unfolding work Worker.work work_at conclude job_finished outcome
  conclude-world e kind job_id h ends =
      elim (Result-cases (handler o.env (context setup e job_id) kind (world_of setup a)).0) [
        | inl (u, r) ↦ rw (h, outcome, r) refl
        | inr (inl (x, r)) ↦ rw (h, outcome, r) refl
        | inr (inr r) ↦ absurd (ends r)
      ]

  pub close-world :
      (e : QueuedEvent)
      → a.system.phase ≡ closing e
      → world_of setup (work setup o a) ≡ record (world_of setup a) {
        db = record a.system.db {
          event_queue = Table.delete event_key e.id a.system.db.event_queue;
        };
      }
  unfolding work Worker.work work_at close delete_event outcome
  close-world e h = ground (arith, h)

module _ (setup : Setup) (env : Env) (ids clock : App → ℕ) where
  -- The program left alone: only the task works, in unchanging surroundings.
  abbrev pub surroundings : App → Outside
  surroundings a = record { env = env; now = clock a; new_id = ids a }

  unfoldable pub runs : ℕ → App → App
  unfolding work
  runs zero a = a
  runs (suc n) a = runs n (work setup (surroundings a) a)

  -- The world in which the handler of a new event starts.
  abbrev pub world_before : App → QueuedEvent → (job_id created : ℕ) → World
  world_before a e job_id created = record {
    db = record a.system.db {
      event_queue = record e { job_id = some job_id } ∷ [];
      jobs = a.system.db.jobs ++ new_job job_id e.created_utc created ∷ [];
    };
    calls = a.calls;
  }

  abbrev pub handled :
      App → QueuedEvent → AllowedEvent → (job_id created : ℕ) → Result (Unit {0}) × World
  handled a e kind job_id created =
      handler env (context setup e job_id) kind (world_before a e job_id created)

  -- What is left when the event was served: what its handler left, with an empty queue and one job more.
  pub record IsServed (a : App) (e : QueuedEvent) (kind : AllowedEvent) (b : App) : Type 0 where
    pub waits : b.system.phase ≡ waiting
    pub started : b.system.started ≡ e.id ∷ a.system.started
    pub job_id : ℕ
    pub created : ℕ
    pub finished : ℕ
    pub db : b.system.db ≡ record (handled a e kind job_id created).1.db {
      event_queue = [];
      jobs =
          a.system.db.jobs
          ++ record {
            id = job_id;
            event_queued_utc = e.created_utc;
            created_utc = created;
            finished_utc = some finished;
            success = some (is_ok (handled a e kind job_id created).0);
          }
            ∷ [];
    }
    pub calls : b.calls ≡ (handled a e kind job_id created).1.calls
