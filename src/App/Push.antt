-- ===== src/App/Push.antt =====
-- A push, from its webhook to the rows of the database: ci-bench-runner/src/lib.rs, event_queue.rs
-- and job/bench_main.rs.
use rustls_bench_app.Base.{ℕ, ◌≡◌, false, true, some, [], ◌∷◌, ◌++◌, map}
use rustls_bench_app.Base.Text.{codes}
use rustls_bench_app.Base.F64.{F64}
use rustls_bench_app.Base.Map.{Map}
use rustls_bench_app.Base.Table
use rustls_bench_app.Base.Result.{ok}
use rustls_bench_app.BencherDev.{BencherDev}
use rustls_bench_app.BencherDev.Sent.{TakesMeasures}
use rustls_bench_app.Db.Schema.{Bytes}
use rustls_bench_app.Db.Results.{result_row}
use rustls_bench_app.EventQueue.Worker.{waiting}
use rustls_bench_app.Job.World.{CommitIdentifier, PushEvent, runs_benchmarks, Env}
use rustls_bench_app.Job.Files.{
  MemoryDetails, read_icount_results, read_walltime_results, maybe_read_memory_results,
}
use rustls_bench_app.Job.Main.{main_branch, run_results}
use rustls_bench_app.App.{Setup, App}

-- The commit that a push leads to.
abbrev pub pushed : PushEvent → CommitIdentifier
pushed p = record { clone_url = p.clone_url; branch_name = main_branch; commit_sha = p.after }

-- A push to the main branch whose benchmarks run and leave readable files.
pub record RunsThrough (setup : Setup) (env : Env) (body : Bytes) (p : PushEvent)
    (icounts walltimes : Map F64) (mem : Map MemoryDetails) : Type 0 where
  pub parsed : env.parse_push body ≡ some p
  pub kept : p.deleted ≡ false
  pub to_main : p.git_ref ≡ codes "refs/heads/main"
  pub dirs : env.temp_dirs ≡ true
  pub logs : env.logs_written ≡ true
  pub ran : env.run (pushed p) ≡ ok tt
  pub icounts_read : read_icount_results env.fp env.candidate_files.icounts ≡ ok icounts
  pub walltimes_read : read_walltime_results env.fp env.candidate_files.walltimes ≡ ok walltimes
  pub memory_read : maybe_read_memory_results env.candidate_files.memory ≡ ok mem
  pub takes : (b : BencherDev) → setup.bencher_dev ≡ some b → TakesMeasures b.client

-- What a served push leaves, from the stores before it.
pub record IsLeftBehind (setup : Setup) (env : Env) (id now : ℕ) (p : PushEvent)
    (icounts walltimes : Map F64) (mem : Map MemoryDetails) (a b : App) : Type 0 where
  pub waits : b.system.phase ≡ waiting
  pub queue : b.system.db.event_queue ≡ []
  pub started : b.system.started ≡ id ∷ a.system.started
  -- One job more, which was a success,
  pub job_id : ℕ
  pub created : ℕ
  pub finished : ℕ
  pub jobs :
      b.system.db.jobs
      ≡ a.system.db.jobs
        ++ record {
          id = job_id;
          event_queued_utc = now;
          created_utc = created;
          finished_utc = some finished;
          success = some true;
        }
          ∷ []
  -- one run more, whose results are those of the files,
  pub bench_runs :
      b.system.db.bench_runs
      ≡ a.system.db.bench_runs ++ record { id = env.new_id; created_utc = env.now } ∷ []
  pub bench_results :
      b.system.db.bench_results
      ≡ a.system.db.bench_results
        ++ map (result_row env.new_id) (run_results env.fp icounts walltimes mem)
  -- and the benchmarks ran once, for the commit after the push.
  pub calls : b.calls ≡ a.calls ++ runs_benchmarks (pushed p) ∷ []
