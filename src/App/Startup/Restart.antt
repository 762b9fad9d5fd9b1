-- ===== src/App/Startup/Restart.antt =====
-- The program after a start: what `main` of ci-bench-runner/src/main.rs and `server` of lib.rs bring up,
-- on the database of an earlier run.
use mathlib.Core.Path.{subst}
use rustls_bench_app.Base.{
  ℕ, suc, ◌+◌, ◌*◌, ◌≡◌, ◌≤◌, ◌∙◌, refl, ap, sym, Bool, true, not, some, [], ◌++◌, length, arith,
}
use rustls_bench_app.Base.Text.{Text, codes}
use rustls_bench_app.Base.Result.{ok}
use rustls_bench_app.Db.Schema.{Database, empty_db}
use rustls_bench_app.Db.Events.{queued_event_count}
use rustls_bench_app.EventQueue.Toggler
use rustls_bench_app.EventQueue.Worker.{waiting, starting, init, work, work_at, start}
use rustls_bench_app.EventQueue.Steps
use rustls_bench_app.EventQueue.Steps.Serve.{Surroundings, IsCalm}
use rustls_bench_app.EventQueue.Steps.Drain.{run, serve, queue_drains}
use rustls_bench_app.Github.Signature.{Crypto}
use rustls_bench_app.Github.Token
use rustls_bench_app.App.{Setup, App, Reachable, boot, next, toggles, reboots}
use rustls_bench_app.App.Refines.{Reachable-system}
use rustls_bench_app.App.Startup.{Platform, Server, token_config, launch}
use rustls_bench_app.App.Startup.Launched.{launch_lem, new-first_value}

module _ {Key Octocrab : Type 0} (platform : Platform Key Octocrab) (crypto : Crypto)
    (show_id : ℕ → Text) where
  -- What a started program works with from then on.
  abbrev pub setup_of : Server Octocrab → Setup
  setup_of s = record {
    crypto = crypto;
    webhooks = record { webhook_secret = s.config.webhook_secret };
    config = record {
      app_base_url = s.config.app_base_url;
      github_app_id = s.config.github_app_id;
      github_repo_owner = s.config.github_repo_owner;
      github_repo_name = s.config.github_repo_name;
    };
    bencher_dev = s.bencher_dev;
    show_id = show_id;
  }

  -- The state after a start, with the history of the run before.
  abbrev pub resumed : App → Server Octocrab → App
  resumed a s = record { system = record s.system { started = a.system.started }; calls = a.calls }

  -- On the database of an earlier run, whose schema is up to date, the program resumes in a state that
  -- it reaches by a restart.
  restart-Reachable :
      (a : App) (s : Server Octocrab)
      → Reachable (setup_of s) a
      → launch platform ≡ ok s
      → platform.connect (codes "sqlite:" ++ s.config.path_to_db) ≡ some a.system.db
      → platform.run_migrator a.system.db ≡ some a.system.db
      → Reachable (setup_of s) (resumed a s)
  unfolding init
  restart-Reachable a s reached started connected current =
      let (sqlite, connected', good) = launch_lem platform s started in
      let same_file : sqlite ≡ a.system.db = cc in
      let same_rows : good.db ≡ a.system.db = cc (good.migrated) in
      let same : record (init a.system.db) { processing_enabled = good.enabled } ≡ s.system =
        ap (λ db. record (init db) { processing_enabled = good.enabled }) (sym same_rows)
        ∙ sym good.system in
      subst
        (λ t.
          Reachable (setup_of s)
            (record { system = record t { started = a.system.started }; calls = a.calls }))
        same (next (next reached reboots) (toggles good.enabled))

  started_as :
      (a : App) (s : Server Octocrab)
      → launch platform ≡ ok s
      → platform.connect (codes "sqlite:" ++ s.config.path_to_db) ≡ some a.system.db
      → platform.run_migrator a.system.db ≡ some a.system.db
      → (s.system.phase ≡ starting) × (s.system.signals ≡ 0) × (s.system.db ≡ a.system.db)
  unfolding init
  started_as a s started connected current =
      let (sqlite, connected', good) = launch_lem platform s started in
      let same_file : sqlite ≡ a.system.db = cc in
      let same_rows : good.db ≡ a.system.db = cc (good.migrated) in
      (
        ap (λ t. t.phase) good.system,
        ap (λ t. t.signals) good.system,
        ap (λ t. t.db) good.system ∙ same_rows,
      )

  -- A program that is started again, in whatever state its last run was left, works off the events in
  -- its database. Where it finds that run's database with a schema that is up to date, processing is
  -- enabled, the ids of new jobs are new, and the handlers end and leave the queue alone, its task
  -- then waits with an empty queue and no message, after one step and six for each event, and has
  -- created one job for each event, always for the oldest that is left.
  pub restart_serves_queue :
      (a : App) (s : Server Octocrab) (o : Surroundings)
      → IsCalm o
      → Reachable (setup_of s) a
      → launch platform ≡ ok s
      → platform.connect (codes "sqlite:" ++ s.config.path_to_db) ≡ some a.system.db
      → platform.run_migrator a.system.db ≡ some a.system.db
      → s.system.processing_enabled ≡ true
      → let q = a.system.db.event_queue in
        let t = run (suc (6 * length q)) o (resumed a s).system in
        (t.phase ≡ waiting)
        × (t.signals ≡ 0)
        × (t.db.event_queue ≡ [])
        × (t.started ≡ serve (length q) q a.system.started)
  unfolding run work work_at start queued_event_count
  restart_serves_queue a s o calm reached started connected current enabled =
      let b = resumed a s in
      let now = restart-Reachable a s reached started connected current in
      let (phase, signals, same) = started_as a s started connected current in
      let d = start b.system in
      let first : work (o b.system) b.system ≡ d = rw (phase, work_at) refl in
      let d_Reachable : Steps.Reachable d = subst Steps.Reachable first (
        Steps.next (Reachable-system (setup_of s) b now)
          (Steps.works (o b.system) (calm.keeps b.system))) in
      let drained = queue_drains o calm d d_Reachable refl enabled (omega (arith, signals)) in
      let rows : d.db.event_queue ≡ a.system.db.event_queue = ap (λ db. db.event_queue) same in
      subst
        (λ c.
          let t = run (6 * length a.system.db.event_queue) o c in
          (t.phase ≡ waiting)
          × (t.signals ≡ 0)
          × (t.db.event_queue ≡ [])
          × (t.started
              ≡ serve (length a.system.db.event_queue) a.system.db.event_queue a.system.started))
        (sym first)
        (subst
          (λ q.
            let t = run (6 * length q) o d in
            (t.phase ≡ waiting)
            × (t.signals ≡ 0)
            × (t.db.event_queue ≡ [])
            × (t.started ≡ serve (length q) q a.system.started))
          rows drained)

  -- The state after the first start.
  abbrev pub fresh_app : Server Octocrab → App
  fresh_app s = record { system = s.system; calls = [] }

  -- A program that starts on a new database, which the migrations leave with empty tables, begins in
  -- reachable states of all its parts: of the whole program, of the refresh of the token, whose age
  -- then is the time since its request, and of the switch of processing, which is on unless the pause
  -- file is there.
  pub first_start-Reachable :
      (s : Server Octocrab) (sqlite : Database) (present : Bool) (now patience : ℕ)
      → launch platform ≡ ok s
      → platform.connect (codes "sqlite:" ++ s.config.path_to_db) ≡ some sqlite
      → platform.run_migrator sqlite ≡ some empty_db
      → platform.pause_exists ≡ ok present
      → platform.requested ≤ now
      → now ≤ platform.requested + patience
      → Reachable (setup_of s) (fresh_app s)
        × Token.Reachable platform.github patience
            (token_config platform s.config)
            (Token.spawned platform.github now platform.requested s.octocrab)
        × (s.system.processing_enabled ≡ not present)
  unfolding init
  first_start-Reachable s sqlite present now patience started connected migrated there after soon =
      let (sqlite', connected', good) = launch_lem platform s started in
      let same_file : sqlite' ≡ sqlite = cc in
      let fresh : good.db ≡ empty_db = cc (good.migrated) in
      let value =
        new-first_value platform.pause_exists platform.watcher platform.canonical platform.watch
          good.enabled good.toggler in
      let switched : good.enabled ≡ not present = value ∙ ap Toggler.first_value there in
      let same : record (init empty_db) { processing_enabled = good.enabled } ≡ s.system =
        ap (λ db. record (init db) { processing_enabled = good.enabled }) (sym fresh)
        ∙ sym good.system in
      (
        subst (λ t. Reachable (setup_of s) (record { system = t; calls = [] })) same
            (next boot (toggles good.enabled)),
        Token.starts now platform.requested s.octocrab good.token after soon,
        ap (λ t. t.processing_enabled) good.system ∙ switched,
      )
