-- ===== src/Job/Main.antt =====
-- The benchmarks of a push to the main branch: `bench_main` of
-- ci-bench-runner/src/job/bench_main.rs.
pub mod Laws
use rustls_bench_app.Base.{
  ℕ, Bool, true, false, Option, none, some, List, [], ◌∷◌, ◌++◌, map, if◌then◌else◌, not,
}
use rustls_bench_app.Base.Text.{Text, codes, text_eq}
use rustls_bench_app.Base.F64.{F64, Arith}
use rustls_bench_app.Base.Map.{Map}
use rustls_bench_app.Base.Result.{Result, ok, err, panic, invalid_payload, task_crashed, io_failed}
use rustls_bench_app.Base.Action.{Action, pure, fail, lift, attempt, join, ◌>>=◌, ◌>>◌}
use rustls_bench_app.Db.Schema.{ScenarioKind, icount, walltime, memory}
use rustls_bench_app.Db.Results.{store_run_results}
use rustls_bench_app.Job.Files.{
  MemoryDetails, comparison_basis, read_icount_results, read_walltime_results,
  maybe_read_memory_results,
}
use rustls_bench_app.Job.Compare.{distill_memory}
use rustls_bench_app.BencherDev.{BencherDev, track_results}
use rustls_bench_app.Job.World.{CommitIdentifier, PushEvent, World, Env, JobContext}
use rustls_bench_app.Job.Bench.{require, run_benchmarks, with_db}

abbrev pub main_branch : Text
main_branch = codes "main"

abbrev pub of_kind : ScenarioKind → Text × F64 → Text × ScenarioKind × F64
of_kind kind (scenario, result) = (scenario, kind, result)

-- The chained iterators.
unfoldable pub run_results :
    Arith → Map F64 → Map F64 → Map MemoryDetails → List (Text × ScenarioKind × F64)
unfolding distill_memory
run_results fp icounts walltimes mem =
    map (of_kind icount) icounts
    ++ (map (of_kind walltime) walltimes ++ map (of_kind memory) (distill_memory fp mem))

module _ (env : Env) where
  -- The blocking task: the logs are written also where the run fails.
  unfoldable pub run_main : CommitIdentifier → Action World (Unit {0})
  unfolding run_benchmarks
  run_main commit = do
    require env.temp_dirs io_failed
    result ← attempt (run_benchmarks env commit)
    require env.logs_written io_failed
    lift result

  -- The results of the files are stored as one run.
  unfoldable pub store_main : Action World (Map F64 × Map F64 × Map MemoryDetails)
  unfolding run_results store_run_results
  store_main = do
    icounts ← lift (read_icount_results env.fp env.candidate_files.icounts)
    walltimes ← lift (read_walltime_results env.fp env.candidate_files.walltimes)
    mem ← lift (maybe_read_memory_results env.candidate_files.memory)
    run_id ←
        with_db env
          (store_run_results env.new_id env.now (run_results env.fp icounts walltimes mem))
    pure (icounts, walltimes, mem)

  -- An error is logged, and changes nothing.
  unfoldable pub upload :
      Option BencherDev → (hash : Text) → Map F64 × Map F64 × Map MemoryDetails → Result (Unit {0})
  unfolding track_results
  upload none hash files = ok tt
  upload (some bencher) hash (icounts, walltimes, mem) =
      elim (track_results bencher.client env.fp bencher.testbed_id bencher.project_id main_branch
        hash env.started env.now icounts walltimes mem) [
          | ok u ↦ ok tt
          | err e ↦ ok tt
          | panic ↦ panic
        ]

  unfoldable pub bench_push : JobContext → PushEvent → Action World (Unit {0})
  unfolding run_main store_main upload text_eq
  bench_push ctx payload =
      if payload.deleted
      then pure tt
      else if not (text_eq payload.git_ref (codes "refs/heads/main"))
      then pure tt
      else (do
        ran ← join task_crashed (
            run_main (record {
              clone_url = payload.clone_url;
              branch_name = main_branch;
              commit_sha = payload.after;
            }))
        lift ran
        files ← store_main
        lift (upload ctx.bencher_dev payload.after files))

  unfoldable pub bench_main : JobContext → Action World (Unit {0})
  unfolding bench_push
  bench_main ctx w = elim (env.parse_push ctx.event_payload) [
    | none ↦ (err invalid_payload, w)
    | some payload ↦ bench_push ctx payload w
  ]
