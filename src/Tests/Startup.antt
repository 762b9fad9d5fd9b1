-- ===== src/Tests/Startup.antt =====
-- The start of the program, on a new database and on that of a run which left an event.
use rustls_bench_app.Base.{ℕ, suc, ◌*◌, ◌≡◌, refl, true, false, some, none, [], ◌∷◌, length, arith}
use rustls_bench_app.Base.Text.{Text, codes}
use rustls_bench_app.Base.Result.{ok}
use rustls_bench_app.Db.Schema.{Database, empty_db}
use rustls_bench_app.EventQueue.Toggler
use rustls_bench_app.EventQueue.Worker.{waiting, init}
use rustls_bench_app.EventQueue.Steps.Drain.{run, serve}
use rustls_bench_app.Github.Token
use rustls_bench_app.App.{App, Reachable, request, boot, next, requests}
use rustls_bench_app.App.Startup.{
  AppConfig, Platform, Server, token_config, event_queue_new, server, launch,
}
use rustls_bench_app.App.Startup.Restart.{
  setup_of, resumed, fresh_app, restart_serves_queue, first_start-Reachable,
}
use rustls_bench_app.Tests.Queue.{calm, calm-IsCalm}
use rustls_bench_app.Tests.Reports.{github, first_cache}
use rustls_bench_app.Tests.Web
use rustls_bench_app.Tests.World.{test_client}

abbrev config : AppConfig
config = record {
  github_api_url_override = none;
  app_base_url = codes "https://bench";
  job_output_dir = codes "out";
  path_to_db = codes "db";
  webhook_secret = codes "key";
  github_app_id = 3;
  github_app_key = codes "key";
  github_repo_owner = codes "rustls";
  github_repo_name = codes "rustls";
  sentry_dsn = codes "dsn";
  port = some 8080;
  bencher = none;
}

-- A machine whose database is the given one, and needs no migration.
abbrev platform_with : Database → Platform (Unit {0}) ℕ
platform_with db = record {
  read = λ path. some (codes "{}");
  from_slice = λ bytes. some config;
  dsn_from_str = λ dsn. some tt;
  build_runtime = some tt;
  connect = λ url. some db;
  run_migrator = λ sqlite. some sqlite;
  github = github;
  requested = 100;
  client = λ token. test_client;
  pause_exists = ok false;
  watcher = ok tt;
  canonical = ok tt;
  watch = ok tt;
  bind = λ port. some port;
  serve = ok tt;
}

abbrev server_with : Database → Server ℕ
server_with db = record {
  config = config;
  system = init db;
  bencher_dev = none;
  octocrab = first_cache;
  port = 8080;
}

launched : (db : Database) → launch (platform_with db) ≡ ok (server_with db)
unfolding launch server event_queue_new init Token.new Toggler.new
launched db = refl

abbrev show_id : ℕ → Text
show_id n = n ∷ []

first_start-Reachable_example :
    Reachable
      (setup_of (platform_with empty_db) Web.crypto show_id (server_with empty_db))
      (fresh_app (platform_with empty_db) Web.crypto show_id (server_with empty_db))
    × Token.Reachable github 5
        (token_config (platform_with empty_db) config)
        (Token.spawned github 102 100 first_cache)
    × ((init empty_db).processing_enabled ≡ true)
first_start-Reachable_example =
    first_start-Reachable (platform_with empty_db) Web.crypto show_id (server_with empty_db)
      empty_db false 102 5 (launched empty_db) refl refl refl (omega arith) (omega arith)

-- A run that crashed right after it had accepted a webhook.
abbrev booted : App
booted = fresh_app (platform_with empty_db) Web.crypto show_id (server_with empty_db)

abbrev left : App
left =
    request (setup_of (platform_with empty_db) Web.crypto show_id (server_with empty_db)) 7 40
      Web.request booted

left-Reachable :
    Reachable (setup_of (platform_with empty_db) Web.crypto show_id (server_with empty_db)) left
unfolding init
left-Reachable = next boot (requests 7 40 Web.request refl)

restart_serves_queue_example :
    let t =
      run
        (suc (6 * length left.system.db.event_queue))
        calm
        (resumed
          (platform_with left.system.db)
          Web.crypto
          show_id
          left
          (server_with left.system.db)).system in
    (t.phase ≡ waiting)
    × (t.signals ≡ 0)
    × (t.db.event_queue ≡ [])
    × (t.started
        ≡ serve (length left.system.db.event_queue) left.system.db.event_queue left.system.started)
unfolding init
restart_serves_queue_example =
    restart_serves_queue (platform_with left.system.db) Web.crypto show_id left
      (server_with left.system.db) calm calm-IsCalm left-Reachable (launched left.system.db) refl
      refl refl
