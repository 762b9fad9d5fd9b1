-- ===== src/App/Startup.antt =====
-- The start of the program: `main` of ci-bench-runner/src/main.rs, `server` of lib.rs, and
-- `EventQueue::new` of event_queue.rs. Logging and Sentry are left out, but for the parse of Sentry's
-- DSN, which can fail.
pub mod Launched
pub mod Restart
use rustls_bench_app.Base.{ℕ, Bool, Option, none, some, List, [], ◌++◌, if◌then◌else◌}
use rustls_bench_app.Base.Text.{Text, codes}
use rustls_bench_app.Base.Result.{
  Result, ok, err, panic, ok_or, unwrap, ◌>>=◌, config_unreadable, config_invalid, dsn_invalid,
  runtime_failed, connect_failed, migration_failed,
}
use rustls_bench_app.BencherDev.{Client, BencherDev}
use rustls_bench_app.Db.Schema.{Bytes, Database}
use rustls_bench_app.EventQueue.Toggler
use rustls_bench_app.EventQueue.Worker.{System, init}
use rustls_bench_app.Github.Signature.{Crypto}
use rustls_bench_app.Github.Token
use rustls_bench_app.Github.Token.{Github, CachedOctocrab}
use rustls_bench_app.App.{Setup}

pub record BencherConfig : Type 0 where
  pub api_token : Text
  pub project_id : Text
  pub testbed_id : Text

pub record AppConfig : Type 0 where
  pub github_api_url_override : Option Text
  pub app_base_url : Text
  pub job_output_dir : Text
  pub path_to_db : Text
  pub webhook_secret : Bytes
  pub github_app_id : ℕ
  pub github_app_key : Text
  pub github_repo_owner : Text
  pub github_repo_name : Text
  pub sentry_dsn : Text
  pub port : Option ℕ
  pub bencher : Option BencherConfig

-- What the start takes from outside. `none` is an error; `bind` gives the port that it took, and
-- panics where it cannot.
pub record Platform (Key Octocrab : Type 0) : Type 0 where
  pub read : (path : Text) → Option Bytes
  pub from_slice : Bytes → Option AppConfig
  pub dsn_from_str : Text → Option (Unit {0})
  pub build_runtime : Option (Unit {0})
  pub connect : (url : Text) → Option Database
  pub run_migrator : Database → Option Database
  pub github : Github Key Octocrab
  pub requested : ℕ
  pub client : (api_token : Text) → Client
  pub pause_exists : Result Bool
  pub watcher : Result (Unit {0})
  pub canonical : Result (Unit {0})
  pub watch : Result (Unit {0})
  pub bind : (port : ℕ) → Option ℕ
  pub serve : Result (Unit {0})

-- The application's state, with what its tasks were given and the address.
pub record Server (Octocrab : Type 0) : Type 0 where
  pub config : AppConfig
  pub system : System
  pub bencher_dev : Option BencherDev
  pub octocrab : CachedOctocrab Octocrab
  pub port : ℕ

module _ {Key Octocrab : Type 0} (platform : Platform Key Octocrab) where
  abbrev pub bencher_of : Option BencherConfig → Option BencherDev
  bencher_of none = none
  bencher_of (some config) = some (record {
    client = platform.client config.api_token;
    testbed_id = config.testbed_id;
    project_id = config.project_id;
  })

  -- `EventQueue::new`: the queue's task is about to start.
  unfoldable pub event_queue_new : AppConfig → Database → Result (System × Option BencherDev)
  unfolding init Toggler.new
  event_queue_new config db = do
    enabled ← Toggler.new platform.pause_exists platform.watcher platform.canonical platform.watch
    ok (record (init db) { processing_enabled = enabled }, bencher_of config.bencher)

  abbrev pub token_config : AppConfig → Token.AppConfig
  token_config config = record {
    github_app_id = config.github_app_id;
    github_app_key = config.github_app_key;
    github_api_url_override = config.github_api_url_override;
    github_repo_owner = config.github_repo_owner;
    github_repo_name = config.github_repo_name;
  }

  abbrev pub unwrap_or : Option ℕ → ℕ → ℕ
  unwrap_or none d = d
  unwrap_or (some n) d = n

  unfoldable pub server : AppConfig → Database → Result (Server Octocrab)
  unfolding event_queue_new Token.new
  server config sqlite = do
    db ← ok_or (platform.run_migrator sqlite) migration_failed
    octocrab ← Token.new platform.github platform.requested (token_config config)
    queue ← event_queue_new config db
    addr ← unwrap (platform.bind (unwrap_or config.port 0))
    ok (record {
      config = config;
      system = queue.0;
      bencher_dev = queue.1;
      octocrab = octocrab;
      port = addr;
    })

  -- `main`, up to the point where it listens.
  unfoldable pub launch : Result (Server Octocrab)
  unfolding server
  launch = do
    config_bytes ← ok_or (platform.read (codes "config.json")) config_unreadable
    config ← ok_or (platform.from_slice config_bytes) config_invalid
    dsn ← ok_or (platform.dsn_from_str config.sentry_dsn) dsn_invalid
    rt ← ok_or platform.build_runtime runtime_failed
    sqlite ← ok_or (platform.connect (codes "sqlite:" ++ config.path_to_db)) connect_failed
    server config sqlite

  unfoldable pub main : Result (Unit {0})
  unfolding launch
  main = do started ← launch; platform.serve
