-- ===== src/App/Comment.antt =====
-- A comment with the command to run the benchmarks, from its webhook to the statuses of the commit:
-- ci-bench-runner/src/lib.rs, event_queue.rs and job/bench_pr.rs.
use rustls_bench_app.Base.{
  ℕ, ◌≡◌, ◌≢◌, ◌∙◌, refl, ap, true, none, some, [], ◌∷◌, ◌++◌, if◌then◌else◌,
}
use rustls_bench_app.Base.Text.{codes, text_eq, contains, contains-append}
use rustls_bench_app.Base.Table
use rustls_bench_app.Base.Result.{ok, panic}
use rustls_bench_app.Db.Schema.{Bytes, job_key}
use rustls_bench_app.Db.Events.{queued}
use rustls_bench_app.EventQueue.Views.{issue_comment, from_event_string}
use rustls_bench_app.EventQueue.Worker.{waiting}
use rustls_bench_app.Http.Handlers.{Request, visible, ok_200, handle_github_webhook}
use rustls_bench_app.Job.World.{CommentEvent, PullRequest, PrBranches, pending, success, World, Env}
use rustls_bench_app.Job.Bench.{bench_pr}
use rustls_bench_app.Job.Bench.Frames.{statuses}
use rustls_bench_app.Job.Bench.Laws.{job_url}
use rustls_bench_app.Job.Bench.Statuses.{is_reported, statuses-bench_pr}
use rustls_bench_app.Job.Handlers.{mention, bench_command, pr_branches, handle_issue_comment}
use rustls_bench_app.Job.Handlers.Trust.{IsTrusted, obeyed_comment_runs}
use rustls_bench_app.App.{Setup, App, context, request, Reachable}
use rustls_bench_app.App.Handled.{runs, world_before, handled}
use rustls_bench_app.App.Handled.Accepted.{webhook_runs_handler}

-- A new comment to a pull request, with the command, by a member other than the app itself, where
-- GitHub tells the branches.
pub record AsksForBenchmarks (setup : Setup) (env : Env) (body : Bytes) (c : CommentEvent)
    (pr : PullRequest) (b : PrBranches) : Type 0 where
  pub parsed : env.parse_comment body ≡ some c
  pub on_pull_request : c.issue.has_pull_request ≡ true
  pub is_new : c.action ≡ codes "created"
  pub by_another : c.comment.user_id ≢ setup.config.github_app_id
  pub trusted : IsTrusted c.comment.author_association
  pub command : contains bench_command c.comment.body ≡ true
  pub known : env.get_pr c.issue.number ≡ some pr
  pub branches : pr_branches pr ≡ some b

module _ (setup : Setup) (env : Env) (ids clock : App → ℕ)
    (fresh : (a : App) → Table.find job_key (ids a) a.system.db.jobs ≡ none) where
  comment_runs :
      (id now job_id : ℕ) (r : Request) (c : CommentEvent) (pr : PullRequest) (b : PrBranches)
      (w : World)
      → AsksForBenchmarks setup env r.body c pr b
      → let ctx = context setup (queued id now (codes "issue_comment") r.body) job_id in
        handle_issue_comment env ctx w ≡ bench_pr env ctx pr.number b w
  comment_runs id now job_id r c pr b w asks =
      obeyed_comment_runs env (context setup (queued id now (codes "issue_comment") r.body) job_id)
        c pr b w asks.parsed
        (
          asks.on_pull_request,
          asks.is_new,
          asks.by_another,
          asks.trusted,
          contains-append mention (codes " bench") c.comment.body asks.command,
        )
        asks.command asks.known asks.branches

  -- A webhook of a comment that asks for the benchmarks, answered by 200 while the program is idle,
  -- in a reachable state whose task waits, with processing enabled, no message in or on its way to
  -- the channel, and none dropped since the task last counted the events, sets two statuses of the
  -- candidate's commit, with the link of its job: `Pending`, and then `Success`, the second exactly
  -- where GitHub takes the comment on the benchmarks, as an update of the known comment or as a new
  -- one, be it on their results or on their error. Where the surroundings stay the same, the ids of
  -- new jobs are new, and the handler does not panic, six steps later the task waits again, and no
  -- other status was set.
  pub comment_sets_statuses :
      (id now : ℕ) (r : Request) (a : App) (c : CommentEvent) (pr : PullRequest) (b : PrBranches)
      → Reachable setup a
      → a.system.phase ≡ waiting
      → a.system.processing_enabled ≡ true
      → a.system.signals ≡ 0
      → a.system.unsent ≡ 0
      → a.system.dropped ≡ 0
      → (handle_github_webhook setup.crypto setup.webhooks id now r a.system).0 ≡ ok ok_200
      → r.event ≡ some (visible (codes "issue_comment"))
      → AsksForBenchmarks setup env r.body c pr b
      → ((job_id created : ℕ)
          → (handled setup env ids clock a
              (queued id now (codes "issue_comment") r.body)
              issue_comment
              job_id
              created).0
            ≢ panic)
      → let e = queued id now (codes "issue_comment") r.body in
        let d = runs setup env ids clock 6 (request setup id now r a) in
        (job_id : ℕ) × (created : ℕ) × (d.system.phase ≡ waiting)
        × (statuses d.calls
            ≡ statuses a.calls
              ++ (b.candidate.commit_sha, pending, job_url env (context setup e job_id))
                ∷ (if is_reported env
                      (context setup e job_id)
                      pr.number
                      b
                      (world_before setup env ids clock a e job_id created)
                    then (b.candidate.commit_sha, success, job_url env (context setup e job_id))
                      ∷ []
                    else []))
  unfolding from_event_string text_eq
  comment_sets_statuses id now r a c pr b reached idle enabled quiet sent none_lost answered named
        asks safe =
      let e = queued id now (codes "issue_comment") r.body in
      let served =
        webhook_runs_handler setup env ids clock fresh id now (codes "issue_comment") issue_comment
          r a reached idle enabled quiet sent none_lost answered named refl safe in
      let w = world_before setup env ids clock a e served.job_id served.created in
      let ran = comment_runs id now served.job_id r c pr b w asks in
      (
        served.job_id,
        served.created,
        served.waits,
        ap statuses (served.calls ∙ ap (λ x. x.1.calls) ran)
            ∙ statuses-bench_pr env (context setup e served.job_id) pr.number b w,
      )
