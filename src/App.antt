-- ===== src/App.antt =====
-- The whole program: the HTTP server, the queue's task with the real handlers, and the switch of
-- processing, as steps of one system. ci-bench-runner/src/event_queue.rs, lib.rs and job/.
pub mod Refines
pub mod Handled
pub mod Push
pub mod Comment
pub mod Startup
pub mod Links
use rustls_bench_app.Base.{ℕ, ◌≡◌, Bool, Option, List, []}
use rustls_bench_app.Base.Text.{Text}
use rustls_bench_app.Base.Result.{Result, ok}
use rustls_bench_app.BencherDev.{BencherDev}
use rustls_bench_app.Db.Schema.{Bytes, QueuedEvent, empty_db}
use rustls_bench_app.EventQueue.Views.{AllowedEvent}
use rustls_bench_app.EventQueue.Worker
use rustls_bench_app.EventQueue.Worker.{
  Phase, starting, waiting, woken, fetched, creating, handling, closing, failed, System, Turn, init,
  insert_event, send, drop_enqueue,
}
use rustls_bench_app.EventQueue.Steps.{count}
use rustls_bench_app.Github.Signature.{Crypto}
use rustls_bench_app.Http.Handlers
use rustls_bench_app.Http.Handlers.{Request, handle_github_webhook}
use rustls_bench_app.Job.World
use rustls_bench_app.Job.World.{World, Call, Env, JobContext}
use rustls_bench_app.Job.Handlers.Queue.{handler}

-- What stays the same while the program runs; `show_id` writes an id as a text.
pub record Setup : Type 0 where
  pub crypto : Crypto
  pub webhooks : Handlers.Config
  pub config : World.Config
  pub bencher_dev : Option BencherDev
  pub show_id : ℕ → Text

-- What a step of the task takes from outside.
pub record Outside : Type 0 where
  pub env : Env
  pub now : ℕ
  pub new_id : ℕ

-- The state, with the calls that the handlers made so far.
pub record App : Type 0 where
  pub system : System
  pub calls : List Call

module _ (setup : Setup) where
  abbrev pub context : QueuedEvent → (job_id : ℕ) → JobContext
  context e job_id = record {
    bencher_dev = setup.bencher_dev;
    event = e.event;
    event_payload = e.payload;
    job_id = setup.show_id job_id;
    config = setup.config;
  }

  -- How the phase goes on outside the queue: only a handler does anything there.
  unfoldable pub outcome : Phase → Env → World → Result (Unit {0}) × World
  outcome starting env w = (ok tt, w)
  outcome waiting env w = (ok tt, w)
  outcome woken env w = (ok tt, w)
  outcome (fetched e) env w = (ok tt, w)
  outcome (creating e kind) env w = (ok tt, w)
  outcome (handling e kind job_id) env w = handler env (context e job_id) kind w
  outcome (closing e) env w = (ok tt, w)
  outcome failed env w = (ok tt, w)

  abbrev pub world_of : App → World
  world_of a = record { db = a.system.db; calls = a.calls }

  abbrev pub after : Outside → App → Result (Unit {0}) × World
  after o a = outcome a.system.phase o.env (world_of a)

  abbrev pub turn : Outside → App → Turn
  turn o a = record {
    now = o.now;
    new_id = o.new_id;
    result = (after o a).0;
    db_after = (after o a).1.db;
  }

  -- One step of the task, the handlers included.
  unfoldable pub work : Outside → App → App
  unfolding outcome
  work o a = record { system = Worker.work (turn o a) a.system; calls = (after o a).1.calls }

  unfoldable pub request : (id now : ℕ) → Request → App → App
  request id now r a = record a {
    system = (handle_github_webhook setup.crypto setup.webhooks id now r a.system).1;
  }

  pub data Step (a : App) : App → Type 0 where
    works : (o : Outside) → Step a (work o a)
    -- The id of an event is new.
    requests :
        (id now : ℕ) (r : Request) → count id a.system.started ≡ 0 → Step a (request id now r a)
    -- A webhook's call of `enqueue` in two parts, where other steps come between its insertion and its
    -- message, or where it is dropped there. The checks of the webhook are left out, which only makes
    -- more states reachable.
    inserts :
        (id now : ℕ) (event : Text) (body : Bytes)
        → count id a.system.started ≡ 0
        → Step a (record a { system = (insert_event id now event body a.system).1 })
    sends : Step a (record a { system = send a.system })
    drops : Step a (record a { system = drop_enqueue a.system })
    toggles :
        (enabled : Bool)
        → Step a (record a { system = record a.system { processing_enabled = enabled } })
    crashes : Step a (record a { system = record a.system { phase = failed } })
    reboots : Step a (record a {
      system = record a.system {
        signals = 0;
        unsent = 0;
        dropped = 0;
        active_job_id = Option.none;
        phase = starting;
      };
    })

  pub data Reachable : App → Type 0 where
    boot : Reachable (record { system = init empty_db; calls = [] })
    next : {a b : App} → Reachable a → Step a b → Reachable b
