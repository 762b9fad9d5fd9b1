-- ===== src/Job/Bench.antt =====
-- Benchmarking a pull request: `bench_pr`, `try_update_comment`, `bench_pr_and_cache_results` and
-- `compare_refs` of ci-bench-runner/src/job/bench_pr.rs, with `update_commit_status` of
-- ci-bench-runner/src/github.rs.
pub mod Frames
pub mod Laws
pub mod Statuses
use mathlib.Core.Option.{map}
use rustls_bench_app.Base.{
  ℕ, Bool, true, false, Option, none, some, List, [], ◌∷◌, ◌++◌, if◌then◌else◌,
}
use rustls_bench_app.Base.Text.{Text, codes}
use rustls_bench_app.Base.F64.{F64, Arith}
use rustls_bench_app.Base.Map.{Map, lookup}
use rustls_bench_app.Base.Result.{
  Result, ok, err, panic, Error, ok_or, unwrap, io_failed, api_failed, no_comment_registered,
  task_crashed,
}
use rustls_bench_app.Base.Action.{
  Action, pure, fail, lift, gets, modify, attempt, join, ◌>>=◌, ◌>>◌,
}
use rustls_bench_app.Db.Schema.{
  Database, BenchResult, ScenarioKind, icount, walltime, memory, ScenarioDiff, discriminant,
}
use rustls_bench_app.Db.Results.{result_history}
use rustls_bench_app.Db.Comparisons.{ComparisonSubResult, ComparisonResult, store_comparison_result}
use rustls_bench_app.Db.Comments.{store_result_comment_id, result_comment_id}
use rustls_bench_app.Github.Truncation.{maybe_truncate_comment}
use rustls_bench_app.Job.Files.{
  MemoryDetails, read_icount_results, read_walltime_results, maybe_read_memory_results,
}
use rustls_bench_app.Job.Compare.{compare_results, distill_memory}
use rustls_bench_app.Job.Thresholds.{calculate_significance_thresholds}
use rustls_bench_app.Job.Refs.{SignificanceThresholds, all_thresholds, compare_files}
use rustls_bench_app.Job.Split.{from_sub_result}
use rustls_bench_app.Job.World.{
  CommitIdentifier, PrBranches, StatusState, pending, success, Call, creates_status,
  creates_comment, updates_comment, runs_benchmarks, World, Details, Config, ResultFiles, Env,
  JobContext,
}

-- Where the API fails the error is only logged.
unfoldable pub update_commit_status : Text → StatusState → Text → Action World (Unit {0})
update_commit_status sha state job_url w =
    (ok tt, record w { calls = w.calls ++ creates_status sha state job_url ∷ [] })

abbrev pub require : Bool → Error → Action World (Unit {0})
require true e = pure tt
require false e = fail e

abbrev pub diff_url : JobContext → PrBranches → Text
diff_url ctx branches =
    ctx.config.app_base_url
    ++ codes "/comparisons/"
    ++ branches.baseline.commit_sha
    ++ codes ":"
    ++ branches.candidate.commit_sha
    ++ codes "/cachegrind-diff"

abbrev pub bencher_project_id : JobContext → Option Text
bencher_project_id ctx = map (λ b. b.project_id) ctx.bencher_dev

module _ (env : Env) where
  unfoldable pub run_benchmarks : CommitIdentifier → Action World (Unit {0})
  run_benchmarks commit w =
      (env.run commit, record w { calls = w.calls ++ runs_benchmarks commit ∷ [] })

  -- The candidate is run first.
  unfoldable pub compare_refs :
      SignificanceThresholds → PrBranches → Action World (ComparisonResult Details)
  unfolding run_benchmarks
  compare_refs thresholds branches = do
    require env.temp_dirs io_failed
    run_benchmarks branches.candidate
    run_benchmarks branches.baseline
    lift (compare_files env thresholds)

  abbrev pub with_db : {A : Type 0} → Action Database A → Action World A
  with_db m w = let (r, db) = m w.db in (r, record w { db = db })

  -- Only a result that was obtained is stored.
  unfoldable pub cache_result :
      PrBranches → Result (ComparisonResult Details) → Action World (ComparisonResult Details)
  cache_result branches (ok result) = do
    with_db (
        store_comparison_result env.json env.new_id env.now branches.baseline.commit_sha
          branches.candidate.commit_sha result)
    pure result
  cache_result branches (err e) = fail e
  cache_result branches panic = lift panic

  -- A panic of the task of its own ends this at `join`, before the logs are written.
  unfoldable pub bench_pr_and_cache_results : PrBranches → Action World (ComparisonResult Details)
  unfolding compare_refs cache_result
  bench_pr_and_cache_results branches = do
    history ← (λ w. (result_history env.thirty_days_ago w.db, w))
    thresholds ← lift (all_thresholds env.fp history)
    result ← join task_crashed (compare_refs thresholds branches)
    require env.logs_written io_failed
    cache_result branches result

  unfoldable pub update_comment : (comment_id : ℕ) → Text → Action World (Unit {0})
  update_comment comment_id body w = (
    (if env.update_comment comment_id body then ok tt else err api_failed),
    record w { calls = w.calls ++ updates_comment comment_id body ∷ [] },
  )

  unfoldable pub create_comment : (pr_number : ℕ) → Text → Action World ℕ
  create_comment pr_number body w = (
    ok_or (env.create_comment pr_number body) api_failed,
    record w { calls = w.calls ++ creates_comment pr_number body ∷ [] },
  )

  abbrev pub update_if_known : Option ℕ → Text → Action World (Unit {0})
  update_if_known (some comment_id) comment = update_comment comment_id comment
  update_if_known none comment = fail no_comment_registered

  unfoldable pub try_update_comment : (pr_number : ℕ) → Text → Action World (Unit {0})
  unfolding update_comment
  try_update_comment pr_number comment = do
    known ← gets (λ w. result_comment_id pr_number w.db)
    update_if_known known comment

  unfoldable pub markdown_comment :
      PrBranches
      → Result (ComparisonResult Details)
      → (diff_url : Text) → (bencher_project_id : Option Text) → Result Text
  unfolding from_sub_result
  markdown_comment branches (ok r) url project = ok (
      env.success_comment branches (from_sub_result env.fp r.icount)
        (from_sub_result env.fp r.walltime) (from_sub_result env.fp r.memory) url project)
  markdown_comment branches (err e) url project = ok (env.error_comment branches e)
  markdown_comment branches panic url project = panic

  -- A new comment, where the update failed.
  abbrev pub report_new : (pr_number : ℕ) → Text → Result (Unit {0}) → Action World (Unit {0})
  report_new pr_number comment (ok updated) = pure tt
  report_new pr_number comment (err e) = do
    comment_id ← create_comment pr_number comment
    modify (λ w. record w { db = store_result_comment_id pr_number comment_id w.db })
  report_new pr_number comment panic = lift panic

  unfoldable pub report : (pr_number : ℕ) → Text → Action World (Unit {0})
  unfolding try_update_comment create_comment
  report pr_number comment = do
    updated ← attempt (try_update_comment pr_number comment)
    report_new pr_number comment updated

  -- Between the two statuses.
  unfoldable pub bench_and_report :
      JobContext → (pr_number : ℕ) → PrBranches → Action World (Unit {0})
  unfolding bench_pr_and_cache_results markdown_comment maybe_truncate_comment report
  bench_and_report ctx pr_number branches = do
    result ← attempt (bench_pr_and_cache_results branches)
    comment ←
        lift (markdown_comment branches result (diff_url ctx branches) (bencher_project_id ctx))
    truncated ← lift (maybe_truncate_comment comment)
    report pr_number truncated

  unfoldable pub bench_pr : JobContext → (pr_number : ℕ) → PrBranches → Action World (Unit {0})
  unfolding update_commit_status bench_and_report
  bench_pr ctx pr_number branches = do
    let sha = branches.candidate.commit_sha
    let job_url = ctx.config.app_base_url ++ codes "/jobs/" ++ ctx.job_id
    update_commit_status sha pending job_url
    bench_and_report ctx pr_number branches
    update_commit_status sha success job_url
