-- ===== src/App/Startup/Launched.antt =====
-- What a program that has started was made from: `main` of ci-bench-runner/src/main.rs and `server` of
-- lib.rs.
use mathlib.Core.Path.{subst}
use rustls_bench_app.Base.{◌≡◌, refl, sym, Bool, Option, none, some, ◌++◌}
use rustls_bench_app.Base.Text.{codes}
use rustls_bench_app.Base.Result.{
  Result, ok, Error, ok_or, unwrap, >>=-ok, migration_failed, config_unreadable, config_invalid,
  dsn_invalid, runtime_failed, connect_failed,
}
use rustls_bench_app.Db.Schema.{Database}
use rustls_bench_app.EventQueue.Toggler
use rustls_bench_app.EventQueue.Worker.{init}
use rustls_bench_app.Github.Token
use rustls_bench_app.App.Startup.{
  AppConfig, Platform, Server, bencher_of, event_queue_new, token_config, unwrap_or, server, launch,
}

ok_or-ok : {A : Type 0} (o : Option A) (e : Error) (a : A) → ok_or o e ≡ ok a → o ≡ some a
ok_or-ok none e a h = cc
ok_or-ok (some b) e a h = cc

unwrap-ok : {A : Type 0} (o : Option A) (a : A) → unwrap o ≡ ok a → o ≡ some a
unwrap-ok none a h = cc
unwrap-ok (some b) a h = cc

pub new-first_value :
    (exists : Result Bool) (watcher canonical watch : Result (Unit {0})) (enabled : Bool)
    → Toggler.new exists watcher canonical watch ≡ ok enabled
    → enabled ≡ Toggler.first_value exists
unfolding Toggler.new
new-first_value exists watcher canonical watch enabled h =
    let (u, e, h1) = >>=-ok watcher _ enabled h in
    let (v, f, h2) = >>=-ok canonical _ enabled h1 in
    let (w, g, h3) = >>=-ok watch _ enabled h2 in cc

module _ {Key Octocrab : Type 0} (platform : Platform Key Octocrab) where
  -- What a server was made from.
  pub record IsServer (sqlite : Database) (s : Server Octocrab) : Type 0 where
    pub db : Database
    pub migrated : platform.run_migrator sqlite ≡ some db
    pub enabled : Bool
    pub toggler :
        Toggler.new platform.pause_exists platform.watcher platform.canonical platform.watch
        ≡ ok enabled
    pub system : s.system ≡ record (init db) { processing_enabled = enabled }
    pub bencher_dev : s.bencher_dev ≡ bencher_of platform s.config.bencher
    pub token :
        Token.new platform.github platform.requested (token_config platform s.config)
        ≡ ok s.octocrab
    pub bound : platform.bind (unwrap_or platform s.config.port 0) ≡ some s.port

  server_lem :
      (config : AppConfig) (sqlite : Database) (s : Server Octocrab)
      → server platform config sqlite ≡ ok s
      → (s.config ≡ config) × IsServer sqlite s
  unfolding server event_queue_new
  server_lem config sqlite s h =
      let (db, migrated, h1) =
        >>=-ok (ok_or (platform.run_migrator sqlite) migration_failed) _ s h in
      let (octocrab, token, h2) =
        >>=-ok (Token.new platform.github platform.requested (token_config platform config)) _ s
          h1 in
      let ((system, bencher), queue, h3) = >>=-ok (event_queue_new platform config db) _ s h2 in
      let (addr, bound, h4) =
        >>=-ok (unwrap (platform.bind (unwrap_or platform config.port 0))) _ s h3 in
      let (enabled, toggler, h5) =
        >>=-ok
          (Toggler.new platform.pause_exists platform.watcher platform.canonical platform.watch) _
          (system, bencher) queue in
      let made : record {
        config = config;
        system = record (init db) { processing_enabled = enabled };
        bencher_dev = bencher_of platform config.bencher;
        octocrab = octocrab;
        port = addr;
      }
          ≡ s =
        cc in
      subst (λ t. (t.config ≡ config) × IsServer sqlite t) made
        (
          refl,
          record {
            db = db;
            migrated = ok_or-ok _ _ db migrated;
            enabled = enabled;
            toggler = toggler;
            system = refl;
            bencher_dev = refl;
            token = token;
            bound = unwrap-ok _ addr bound;
          },
        )

  -- A program that starts has found the database of its configuration.
  pub launch_lem :
      (s : Server Octocrab)
      → launch platform ≡ ok s
      → (sqlite : Database) × (platform.connect (codes "sqlite:" ++ s.config.path_to_db)
          ≡ some sqlite)
        × IsServer sqlite s
  unfolding launch
  launch_lem s h =
      let (bytes, h1, r1) =
        >>=-ok (ok_or (platform.read (codes "config.json")) config_unreadable) _ s h in
      let (config, h2, r2) = >>=-ok (ok_or (platform.from_slice bytes) config_invalid) _ s r1 in
      let (dsn, h3, r3) =
        >>=-ok (ok_or (platform.dsn_from_str config.sentry_dsn) dsn_invalid) _ s r2 in
      let (rt, h4, r4) = >>=-ok (ok_or platform.build_runtime runtime_failed) _ s r3 in
      let (sqlite, h5, r5) =
        >>=-ok (ok_or (platform.connect (codes "sqlite:" ++ config.path_to_db)) connect_failed) _ s
          r4 in
      let (same, good) = server_lem config sqlite s r5 in
      let connected : platform.connect (codes "sqlite:" ++ s.config.path_to_db) ≡ some sqlite =
        subst (λ c. platform.connect (codes "sqlite:" ++ c.path_to_db) ≡ some sqlite) (sym same)
          (ok_or-ok _ _ sqlite h5) in
      (sqlite, connected, good)
