-- ===== src/Job/Bench/Frames.antt =====
-- What the benchmarking of a pull request leaves alone: the queue and the jobs, and, between its
-- first and its last step, the statuses of commits.
use mathlib.Core.List.{append-nil}
use rustls_bench_app.Base.{
  ℕ, ◌≡◌, refl, Bool, true, false, Option, none, some, List, [], ◌∷◌, ◌++◌, arith, ◌∙◌,
}
use rustls_bench_app.Base.Text.{Text}
use rustls_bench_app.Base.Result.{Result, ok, err, panic, Error, io_failed, task_crashed}
use rustls_bench_app.Base.Action.{Action, pure, gets, lift, modify, attempt, join}
use rustls_bench_app.Base.Action.Frames.{
  Frame, Frame->>=, Frame->>, Frame-attempt, Frame-join, Frame-reads,
}
use rustls_bench_app.Db.Schema.{QueuedEvent, BenchJob}
use rustls_bench_app.Db.Results.{result_history}
use rustls_bench_app.Db.Comparisons.{ComparisonResult, store_comparison_result}
use rustls_bench_app.Db.Comments.{store_result_comment_id, result_comment_id}
use rustls_bench_app.Github.Truncation.{maybe_truncate_comment}
use rustls_bench_app.Job.Refs.{SignificanceThresholds, all_thresholds, compare_files}
use rustls_bench_app.Job.World.{
  CommitIdentifier, PrBranches, StatusState, Call, creates_status, creates_comment, updates_comment,
  runs_benchmarks, World, Details, Env, JobContext,
}
use rustls_bench_app.Job.Bench.{
  require, run_benchmarks, compare_refs, with_db, cache_result, bench_pr_and_cache_results,
  update_comment, create_comment, update_if_known, try_update_comment, markdown_comment, report_new,
  report, diff_url, bencher_project_id, bench_and_report,
}

-- The statuses among the calls, in order, and the queue with the jobs.
abbrev pub statuses : List Call → List (Text × StatusState × Text)
statuses [] = []
statuses (creates_status sha state target ∷ calls) = (sha, state, target) ∷ statuses calls
statuses (creates_comment pr_number body ∷ calls) = statuses calls
statuses (updates_comment comment_id body ∷ calls) = statuses calls
statuses (runs_benchmarks commit ∷ calls) = statuses calls

pub statuses-append :
    (calls more : List Call) → statuses (calls ++ more) ≡ statuses calls ++ statuses more
statuses-append [] more = refl
statuses-append (creates_status sha state target ∷ calls) more = cc (statuses-append calls more)
statuses-append (creates_comment pr_number body ∷ calls) more = statuses-append calls more
statuses-append (updates_comment comment_id body ∷ calls) more = statuses-append calls more
statuses-append (runs_benchmarks commit ∷ calls) more = statuses-append calls more

-- All that stays.
abbrev pub kept : World → List QueuedEvent × List BenchJob × List (Text × StatusState × Text)
kept w = (w.db.event_queue, w.db.jobs, statuses w.calls)

statuses-snoc :
    (calls : List Call) (c : Call)
    → statuses (c ∷ []) ≡ []
    → statuses (calls ++ c ∷ []) ≡ statuses calls
statuses-snoc calls c h = statuses-append calls (c ∷ []) ∙ rw h (append-nil (statuses calls))

module _ (env : Env) where
  abbrev Kept : {A : Type 0} → Action World A → Type 0
  Kept = Frame kept

  require-Kept : (b : Bool) (e : Error) → Kept (require b e)
  require-Kept true e = record { same = λ w. refl }
  require-Kept false e = record { same = λ w. refl }

  run_benchmarks-Kept : (c : CommitIdentifier) → Kept (run_benchmarks env c)
  unfolding run_benchmarks
  run_benchmarks-Kept c = record { same = λ w. cc (statuses-snoc w.calls (runs_benchmarks c) refl) }

  compare_refs-Kept : (t : SignificanceThresholds) (b : PrBranches) → Kept (compare_refs env t b)
  unfolding compare_refs
  compare_refs-Kept t b =
      Frame->> kept (require env.temp_dirs io_failed) _ (require-Kept env.temp_dirs io_failed) (
        Frame->> kept (run_benchmarks env b.candidate) _ (run_benchmarks-Kept b.candidate) (
          Frame->> kept (run_benchmarks env b.baseline) _ (run_benchmarks-Kept b.baseline)
            (Frame-reads kept (λ w. compare_files env t))))

  store-Kept :
      (baseline candidate : Text) (r : ComparisonResult Details)
      → Kept
          (with_db env (store_comparison_result env.json env.new_id env.now baseline candidate r))
  unfolding store_comparison_result
  store-Kept baseline candidate r = record { same = λ w. ground arith }

  cache_result-Kept :
      (b : PrBranches) (r : Result (ComparisonResult Details)) → Kept (cache_result env b r)
  unfolding cache_result
  cache_result-Kept b (ok r) =
      Frame->> kept
        (with_db env (
          store_comparison_result env.json env.new_id env.now b.baseline.commit_sha
            b.candidate.commit_sha r))
        (pure r) (store-Kept b.baseline.commit_sha b.candidate.commit_sha r)
        (Frame-reads kept (λ w. ok r))
  cache_result-Kept b (err e) = Frame-reads kept (λ w. err e)
  cache_result-Kept b panic = Frame-reads kept (λ w. panic)

  bench_pr_and_cache_results-Kept : (b : PrBranches) → Kept (bench_pr_and_cache_results env b)
  unfolding bench_pr_and_cache_results
  bench_pr_and_cache_results-Kept b =
      Frame->>= kept (λ w. (result_history env.thirty_days_ago w.db, w)) _
        (Frame-reads kept (λ w. result_history env.thirty_days_ago w.db))
        (λ history.
          Frame->>= kept (lift (all_thresholds env.fp history)) _
            (Frame-reads kept (λ w. all_thresholds env.fp history))
            (λ thresholds.
              Frame->>= kept (join task_crashed (compare_refs env thresholds b)) _
                (Frame-join kept task_crashed (compare_refs env thresholds b)
                  (compare_refs-Kept thresholds b))
                (λ r.
                  Frame->> kept (require env.logs_written io_failed) (cache_result env b r)
                    (require-Kept env.logs_written io_failed) (cache_result-Kept b r))))

  update_if_known-Kept :
      (known : Option ℕ) (comment : Text) → Kept (update_if_known env known comment)
  unfolding update_comment
  update_if_known-Kept none comment = record { same = λ w. refl }
  update_if_known-Kept (some id) comment = record {
    same = λ w. cc (statuses-snoc w.calls (updates_comment id comment) refl);
  }

  try_update_comment-Kept :
      (pr_number : ℕ) (comment : Text) → Kept (try_update_comment env pr_number comment)
  unfolding try_update_comment
  try_update_comment-Kept pr_number comment =
      Frame->>= kept (gets (λ w. result_comment_id pr_number w.db)) _
        (Frame-reads kept (λ w. ok (result_comment_id pr_number w.db)))
        (λ known. update_if_known-Kept known comment)

  create_comment-Kept : (pr_number : ℕ) (body : Text) → Kept (create_comment env pr_number body)
  unfolding create_comment
  create_comment-Kept pr_number body = record {
    same = λ w. cc (statuses-snoc w.calls (creates_comment pr_number body) refl);
  }

  store_id-Kept :
      (pr_number id : ℕ)
      → Kept (modify (λ w. record w { db = store_result_comment_id pr_number id w.db }))
  unfolding store_result_comment_id
  store_id-Kept pr_number id = record { same = λ w. refl }

  report_new-Kept :
      (pr_number : ℕ) (comment : Text) (r : Result (Unit {0}))
      → Kept (report_new env pr_number comment r)
  report_new-Kept pr_number comment (ok u) = Frame-reads kept (λ w. ok tt)
  report_new-Kept pr_number comment (err e) =
      Frame->>= kept (create_comment env pr_number comment) _
        (create_comment-Kept pr_number comment) (store_id-Kept pr_number)
  report_new-Kept pr_number comment panic = Frame-reads kept (λ w. panic)

  report-Kept : (pr_number : ℕ) (comment : Text) → Kept (report env pr_number comment)
  unfolding report
  report-Kept pr_number comment =
      Frame->>= kept (attempt (try_update_comment env pr_number comment))
        (report_new env pr_number comment)
        (Frame-attempt kept (try_update_comment env pr_number comment)
          (try_update_comment-Kept pr_number comment))
        (report_new-Kept pr_number comment)

  pub bench_and_report-Kept :
      (ctx : JobContext) (pr_number : ℕ) (b : PrBranches)
      → Kept (bench_and_report env ctx pr_number b)
  unfolding bench_and_report
  bench_and_report-Kept ctx pr_number b =
      Frame->>= kept (attempt (bench_pr_and_cache_results env b)) _
        (Frame-attempt kept (bench_pr_and_cache_results env b) (bench_pr_and_cache_results-Kept b))
        (λ result.
          let made = markdown_comment env b result (diff_url ctx b) (bencher_project_id ctx) in
          Frame->>= kept (lift made) _ (Frame-reads kept (λ w. made)) (λ comment.
            let cut = maybe_truncate_comment comment in
            Frame->>= kept (lift cut) (report env pr_number) (Frame-reads kept (λ w. cut))
              (report-Kept pr_number)))
