-- ===== src/Tests/Commented.antt =====
-- A comment that asks for the benchmarks, on a machine without room for temporary directories.
use rustls_bench_app.Base.{ℕ, ◌≡◌, ◌≢◌, refl, false, some, [], ◌∷◌, ◌++◌, if◌then◌else◌, inl, inr}
use rustls_bench_app.Base.Text.{codes, text_eq, contains, byte_len}
use rustls_bench_app.Base.Table
use rustls_bench_app.Base.Result.{ok, panic}
use rustls_bench_app.Db.Events.{queued}
use rustls_bench_app.EventQueue.Views.{issue_comment, from_event_string}
use rustls_bench_app.EventQueue.Worker
use rustls_bench_app.EventQueue.Worker.{waiting, init, enqueue}
use rustls_bench_app.Github.Signature.{verify_webhook_signature}
use rustls_bench_app.Http.Handlers.{Request, visible, handle_github_webhook}
use rustls_bench_app.Job.World.{Env, pending, success}
use rustls_bench_app.Job.Bench.{
  bench_pr, bench_and_report, bench_pr_and_cache_results, compare_refs, cache_result,
  markdown_comment, report, try_update_comment, update_comment, create_comment,
  update_commit_status,
}
use rustls_bench_app.Job.Bench.Frames.{statuses}
use rustls_bench_app.Job.Bench.Laws.{job_url}
use rustls_bench_app.Job.Bench.Statuses.{is_reported}
use rustls_bench_app.Job.Handlers.{
  pr_branches, allowed_author, respond, handle_comment, handle_issue_comment,
}
use rustls_bench_app.Job.Refs.{all_thresholds, of_kind}
use rustls_bench_app.Job.Thresholds.{
  calculate_significance_thresholds, thresholds_of, results_by_name,
}
use rustls_bench_app.Github.Truncation.{maybe_truncate_comment}
use rustls_bench_app.Db.Results.{result_history, runs_since, by_time, rows_of_runs, decode_results}
use rustls_bench_app.Db.Comments.{result_comment_id}
use rustls_bench_app.App.{context, work, request, outcome}
use rustls_bench_app.App.Handled.{runs, world_before, handled}
use rustls_bench_app.App.Comment.{AsksForBenchmarks, comment_sets_statuses}
use rustls_bench_app.Tests.Program.{setup, ids, clock, fresh, idle, idle-Reachable}
use rustls_bench_app.Tests.Web
use rustls_bench_app.Tests.World.{test_env, test_comment, test_pr, test_branches}

abbrev full_disk : Env
full_disk = record test_env { temp_dirs = false }

abbrev comment_request : Request
comment_request = record Web.request { event = some (visible (codes "issue_comment")) }

asks : AsksForBenchmarks setup full_disk comment_request.body test_comment test_pr test_branches
unfolding contains pr_branches
asks = record {
  parsed = refl;
  on_pull_request = refl;
  is_new = refl;
  by_another = λ p. cc;
  trusted = inr (inl refl);
  command = refl;
  known = refl;
  branches = refl;
}

comment_ends :
    (job_id created : ℕ)
    → (handled setup full_disk ids clock idle
        (queued 7 40 (codes "issue_comment") comment_request.body)
        issue_comment
        job_id
        created).0
      ≡ ok tt
unfolding work Worker.work Worker.work_at Worker.start init outcome handle_issue_comment
    handle_comment respond contains pr_branches allowed_author text_eq bench_pr bench_and_report
    bench_pr_and_cache_results compare_refs cache_result markdown_comment maybe_truncate_comment
    byte_len report try_update_comment update_comment create_comment update_commit_status
    result_history runs_since by_time rows_of_runs decode_results all_thresholds of_kind
    calculate_significance_thresholds thresholds_of results_by_name result_comment_id Table.find
comment_ends job_id created = refl

comment_returns :
    (job_id created : ℕ)
    → (handled setup full_disk ids clock idle
        (queued 7 40 (codes "issue_comment") comment_request.body)
        issue_comment
        job_id
        created).0
      ≢ panic
comment_returns job_id created failed = let ended = comment_ends job_id created in cc

comment_sets_statuses_example :
    let e = queued 7 40 (codes "issue_comment") comment_request.body in
    let d = runs setup full_disk ids clock 6 (request setup 7 40 comment_request idle) in
    (job_id : ℕ) × (created : ℕ) × (d.system.phase ≡ waiting)
    × (statuses d.calls
        ≡ statuses []
          ++ (codes "cafe", pending, job_url full_disk (context setup e job_id))
            ∷ (if is_reported full_disk
                  (context setup e job_id)
                  42
                  test_branches
                  (world_before setup full_disk ids clock idle e job_id created)
                then (codes "cafe", success, job_url full_disk (context setup e job_id)) ∷ []
                else []))
unfolding work Worker.work Worker.work_at Worker.start init outcome handle_github_webhook enqueue
    verify_webhook_signature from_event_string text_eq Table.insert
comment_sets_statuses_example =
    comment_sets_statuses setup full_disk ids clock fresh 7 40 comment_request idle test_comment
      test_pr test_branches idle-Reachable refl refl refl refl refl refl refl asks comment_returns
