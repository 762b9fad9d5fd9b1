-- ===== src/Job/Handlers/Queue.antt =====
-- The handlers with regard to the event queue and the jobs: ci-bench-runner/src/job/.
use rustls_bench_app.Base.{
  ℕ, ◌≡◌, refl, Bool, List, if◌then◌else◌, ◌==◌, not, Bool-cases, Option-cases, inl, inr, arith, ap,
}
use rustls_bench_app.Base.Text.{Text, codes, text_eq}
use rustls_bench_app.Base.Result.{ok, ok_or, api_failed, no_branch_details, task_crashed}
use rustls_bench_app.Base.Action.{Action, pure, lift, join}
use rustls_bench_app.Base.Action.Frames.{Frame, Frame->>=, Frame->>, Frame-join, Frame-reads}
use rustls_bench_app.Db.Schema.{QueuedEvent, BenchJob}
use rustls_bench_app.EventQueue.Steps.{KeepsQueue}
use rustls_bench_app.EventQueue.Views.{
  AllowedEvent, issue_comment, pull_request, pull_request_review, push,
}
use rustls_bench_app.Db.Results.{store_run_results}
use rustls_bench_app.Job.Main.{run_main, store_main, upload, bench_push, bench_main, main_branch}
use rustls_bench_app.Job.World.{
  CommitIdentifier, PushEvent, PrBranches, PullRequest, PullRequestReviewEvent, CommentEvent,
  UpdateAction, of_pull_request, of_other_kind, World, Env, JobContext,
}
use rustls_bench_app.Job.Bench.{run_benchmarks, create_comment, bench_pr}
use rustls_bench_app.Job.Bench.Laws.{bench_pr_keeps_queue}
use rustls_bench_app.Job.Handlers.{
  allowed_author, unrecognized_command, pr_branches, pr_target_ok, respond, handle_comment,
  handle_issue_comment, at_commit, handle_review, handle_pr_review, handle_update, handle_pr_update,
}

abbrev pub queue : World → List QueuedEvent × List BenchJob
queue w = (w.db.event_queue, w.db.jobs)

module _ {A : Type 0} (b : Bool) (m k : Action World A) where
  if-Frame : Frame queue m → Frame queue k → Frame queue (if b then m else k)
  if-Frame hm hk = elim (Bool-cases b) [ inl e ↦ rw e hm | inr e ↦ rw e hk ]

module _ (env : Env) (ctx : JobContext) where
  bench_pr-Frame : (pr_number : ℕ) (b : PrBranches) → Frame queue (bench_pr env ctx pr_number b)
  bench_pr-Frame pr_number b = record {
    same = λ w. let (e, j) = bench_pr_keeps_queue env ctx pr_number b w in cc;
  }

  create_comment-Frame :
      (pr_number : ℕ) (body : Text) → Frame queue (create_comment env pr_number body)
  unfolding create_comment
  create_comment-Frame pr_number body = record { same = λ w. refl }

  nothing : Frame queue (pure {S = World} {A = Unit {0}} tt)
  nothing = Frame-reads queue (λ w. ok tt)

  respond-Frame : (c : CommentEvent) → Frame queue (respond env ctx c)
  unfolding respond
  respond-Frame c =
      if-Frame _ _ _
        (Frame->>= queue _ _ (Frame-reads queue (λ w. ok_or (env.get_pr c.issue.number) api_failed))
          (λ pr.
            Frame->>= queue _ _ (Frame-reads queue (λ w. ok_or (pr_branches pr) no_branch_details))
              (bench_pr-Frame pr.number)))
        (if-Frame _ _ _
          (Frame->>= queue _ _ (create_comment-Frame c.issue.number unrecognized_command)
            (λ id. nothing))
          nothing)

  handle_comment-Frame : (c : CommentEvent) → Frame queue (handle_comment env ctx c)
  unfolding handle_comment
  handle_comment-Frame c = if-Frame (not c.issue.has_pull_request) _ _ nothing (
      if-Frame (not (text_eq c.action (codes "created"))) _ _ nothing (
        if-Frame (c.comment.user_id == ctx.config.github_app_id) _ _ nothing (
          if-Frame (not (allowed_author c.comment.author_association)) _ _ nothing
            (respond-Frame c))))

  handle_review-Frame : (r : PullRequestReviewEvent) → Frame queue (handle_review env ctx r)
  unfolding handle_review
  handle_review-Frame r =
      if-Frame (not (pr_target_ok r.pull_request.base.repo ctx.config)) _ _ nothing (
        if-Frame (not (text_eq r.action (codes "submitted"))) _ _ nothing (
          if-Frame (not (allowed_author r.review.author_association)) _ _ nothing (
            if-Frame (not (text_eq r.review.state (codes "approved"))) _ _ nothing (
              Frame->>= queue _ _
                (Frame-reads queue (λ w. ok_or (pr_branches r.pull_request) no_branch_details))
                (λ b. bench_pr-Frame r.pull_request.number (at_commit r.review.commit_id b))))))

  handle_update-Frame :
      (action : UpdateAction) (pr : PullRequest) → Frame queue (handle_update env ctx action pr)
  unfolding handle_update
  handle_update-Frame action pr = if-Frame _ _ _ nothing (
      if-Frame _ _ _ nothing (
        Frame->>= queue _ _ (Frame-reads queue (λ w. ok_or (pr_branches pr) no_branch_details))
          (λ b. if-Frame _ _ _ (bench_pr-Frame pr.number b) nothing)))

  -- The four handlers, by the event that they are for.
  abbrev pub handler : AllowedEvent → Action World (Unit {0})
  handler issue_comment = handle_issue_comment env ctx
  handler pull_request = handle_pr_update env ctx
  handler pull_request_review = handle_pr_review env ctx
  handler push = bench_main env ctx

  run_main-Frame : (c : CommitIdentifier) → Frame queue (run_main env c)
  unfolding run_main run_benchmarks
  run_main-Frame c = record { same = λ w. ground arith }

  store_main-Frame : Frame queue (store_main env)
  unfolding store_main store_run_results
  store_main-Frame = record { same = λ w. ground arith }

  bench_push-Frame : (p : PushEvent) → Frame queue (bench_push env ctx p)
  unfolding bench_push
  bench_push-Frame p =
      let commit : CommitIdentifier = record {
        clone_url = p.clone_url;
        branch_name = main_branch;
        commit_sha = p.after;
      } in
      if-Frame p.deleted _ _ nothing (
        if-Frame (not (text_eq p.git_ref (codes "refs/heads/main"))) _ _ nothing (
          Frame->>= queue (join task_crashed (run_main env commit)) _
            (Frame-join queue task_crashed (run_main env commit) (run_main-Frame commit))
            (λ ran. Frame->> queue (lift ran) _ (Frame-reads queue (λ w. ran)) (
              Frame->>= queue (store_main env) _ store_main-Frame
                (λ files. Frame-reads queue (λ w. upload env ctx.bencher_dev p.after files))))))

  handler-Frame : (kind : AllowedEvent) (w : World) → queue (handler kind w).1 ≡ queue w
  unfolding handle_issue_comment handle_pr_review handle_pr_update bench_main
  handler-Frame issue_comment w = elim (Option-cases (env.parse_comment ctx.event_payload)) [
    | inl e ↦ rw (e, handle_issue_comment) refl
    | inr (c, e) ↦ rw (e, handle_issue_comment) ((handle_comment-Frame c).same w)
  ]
  handler-Frame pull_request_review w = elim (Option-cases (env.parse_review ctx.event_payload)) [
    | inl e ↦ rw (e, handle_pr_review) refl
    | inr (r, e) ↦ rw (e, handle_pr_review) ((handle_review-Frame r).same w)
  ]
  handler-Frame pull_request w =
      elim (Option-cases (env.parse_update ctx.event ctx.event_payload)) [
        | inl e ↦ rw (e, handle_pr_update) refl
        | inr (of_other_kind, e) ↦ rw (e, handle_pr_update) refl
        | inr (of_pull_request action pr, e) ↦
            rw (e, handle_pr_update) ((handle_update-Frame action pr).same w)
      ]
  handler-Frame push w = elim (Option-cases (env.parse_push ctx.event_payload)) [
    | inl e ↦ rw (e, bench_main) refl
    | inr (p, e) ↦ rw (e, bench_main) ((bench_push-Frame p).same w)
  ]

  -- Whatever a handler does and however it ends, the event queue and the jobs are as before: what
  -- the steps of the queue's task ask of it.
  pub handler-KeepsQueue : (kind : AllowedEvent) (w : World) → KeepsQueue w.db (handler kind w).1.db
  handler-KeepsQueue kind w = record {
    same_events = ap (λ q. q.0) (handler-Frame kind w);
    same_jobs = ap (λ q. q.1) (handler-Frame kind w);
  }
