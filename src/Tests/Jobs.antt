-- ===== src/Tests/Jobs.antt =====
-- The events of a pull request, and the theorems on their handlers.
use rustls_bench_app.Base.{ℕ, ◌≡◌, ◌⊎◌, ◌<◌, ◌^◌, inl, refl, some, [], ◌∷◌, if◌then◌else◌, arith}
use rustls_bench_app.Base.Text.{codes}
use rustls_bench_app.Base.F64.{F64}
use rustls_bench_app.Base.Map.{Map}
use rustls_bench_app.Base.Table
use rustls_bench_app.Base.Result.{ok}
use rustls_bench_app.Db.Comments.{result_comment_id}
use rustls_bench_app.BencherDev.{BencherDev}
use rustls_bench_app.BencherDev.Sent.{TakesMeasures}
use rustls_bench_app.Job.Files.{MemoryDetails}
use rustls_bench_app.Job.World.{
  UpdateAction, PullRequest, PrBranches, PullRequestReviewEvent, CommentEvent, of_pull_request,
  pending, success,
}
use rustls_bench_app.Job.Bench.{report, bench_pr}
use rustls_bench_app.Job.Bench.Frames.{statuses}
use rustls_bench_app.Job.Bench.Laws.{job_url, report_is_known, IsPosted}
use rustls_bench_app.Job.Bench.Statuses.{is_reported, statuses-bench_pr}
use rustls_bench_app.Job.Handlers.{
  pr_branches, handle_issue_comment, handle_pr_review, handle_pr_update,
}
use rustls_bench_app.Job.Handlers.Trust.{IsObeyed, comment-IsObeyed}
use rustls_bench_app.Job.Handlers.Pulls.{
  IsApproval, IsOwnUpdate, review-IsApproval, update_is_own, approval_sets_statuses,
  reviewed_branches,
}
use rustls_bench_app.Tests.World.{
  test_env, test_bencher, test_context, test_world, test_review, test_branches, test_repo,
}

comment-IsObeyed_example :
    (handle_issue_comment test_env test_context test_world ≡ (ok tt, test_world))
    ⊎ ((c : CommentEvent) × (test_env.parse_comment [] ≡ some c) × IsObeyed test_env test_context c)
comment-IsObeyed_example = comment-IsObeyed test_env test_context test_world

review-IsApproval_example :
    (handle_pr_review test_env test_context test_world ≡ (ok tt, test_world))
    ⊎ ((r : PullRequestReviewEvent) × (test_env.parse_review [] ≡ some r)
        × IsApproval test_env test_context r)
review-IsApproval_example = review-IsApproval test_env test_context test_world

update_is_own_example :
    ((handle_pr_update test_env test_context test_world).1 ≡ test_world)
    ⊎ ((action : UpdateAction) × (pr : PullRequest) × (b : PrBranches) × (test_env.parse_update
            (codes "pull_request")
            []
          ≡ some (of_pull_request action pr))
        × IsOwnUpdate test_env test_context action pr b
        × (handle_pr_update test_env test_context test_world
            ≡ bench_pr test_env test_context pr.number b test_world))
update_is_own_example = update_is_own test_env test_context test_world

approval_sets_statuses_example :
    statuses (handle_pr_review test_env test_context test_world).1.calls
    ≡ (codes "f00d", pending, job_url test_env test_context)
      ∷ (if is_reported test_env test_context 42
            (reviewed_branches test_env test_context test_review test_branches)
            test_world
          then (codes "f00d", success, job_url test_env test_context) ∷ []
          else [])
unfolding pr_branches
approval_sets_statuses_example =
    approval_sets_statuses test_env test_context test_review test_branches test_world refl
      ((test_repo, refl, refl), refl, inl refl, refl) refl

statuses-bench_pr_example :
    statuses (bench_pr test_env test_context 42 test_branches test_world).1.calls
    ≡ (codes "cafe", pending, job_url test_env test_context)
      ∷ (if is_reported test_env test_context 42 test_branches test_world
          then (codes "cafe", success, job_url test_env test_context) ∷ []
          else [])
statuses-bench_pr_example = statuses-bench_pr test_env test_context 42 test_branches test_world

new_id_is_small : (id : ℕ) → test_env.create_comment 42 (codes "text") ≡ some id → id < 2 ^ 64
new_id_is_small id e = let same : 1001 ≡ id = cc in omega arith

report_is_known_example :
    (id : ℕ) × (result_comment_id 42 (report test_env 42 (codes "text") test_world).1.db ≡ some id)
    × IsPosted test_env test_context 42
        (codes "text")
        test_world
        (report test_env 42 (codes "text") test_world).1
        id
unfolding report result_comment_id Table.find
report_is_known_example =
    report_is_known test_env test_context 42 (codes "text") test_world (omega arith) new_id_is_small
      refl

abbrev pub one_icount : Map F64
one_icount = (codes "handshake", 1000) ∷ []

abbrev pub one_walltime : Map F64
one_walltime = (codes "handshake", 20) ∷ []

abbrev pub one_memory : Map MemoryDetails
one_memory =
    (
      codes "handshake",
      record {
        heap_total_bytes = 64;
        heap_total_blocks = 2;
        heap_peak_bytes = 32;
        heap_peak_blocks = 1;
      },
    )
    ∷ []

pub bencher-TakesMeasures :
    (b : BencherDev) → test_context.bencher_dev ≡ some b → TakesMeasures b.client
bencher-TakesMeasures b h =
    let same : test_bencher ≡ b = cc in
    rw (← same) (refl, (refl, (refl, (refl, (refl, (refl, tt))))))
