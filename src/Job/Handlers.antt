-- ===== src/Job/Handlers.antt =====
-- The handlers of a pull request's events: `handle_issue_comment`, `handle_pr_review` and
-- `handle_pr_update` of ci-bench-runner/src/job/bench_pr.rs.
pub mod Trust
pub mod Pulls
pub mod Queue
use rustls_bench_app.Base.{
  ℕ, ◌≡◌, Bool, true, false, Option, none, some, List, [], ◌∷◌, ◌++◌, ◌==◌, if◌then◌else◌, ◌||◌,
  not,
}
use rustls_bench_app.Base.Text.{Text, codes, text_eq, contains}
use rustls_bench_app.Base.Result.{Result, ok, err, panic, no_branch_details, api_failed, ok_or}
use rustls_bench_app.Base.Action.{Action, pure, lift, ◌>>=◌, ◌>>◌}
use rustls_bench_app.Job.World.{
  CommitIdentifier, PrBranches, Repository, PullRequest, PullRequestReviewEvent, CommentEvent,
  UpdateAction, opened, synchronize, reopened, other_action, UpdatePayload, of_pull_request,
  of_other_kind, World, Config, Env, JobContext,
}
use rustls_bench_app.Job.Bench.{create_comment, bench_pr}

-- `ALLOWED_AUTHOR_ASSOCIATIONS.contains`
unfoldable pub allowed_author : Text → Bool
unfolding text_eq
allowed_author association =
    text_eq association (codes "OWNER")
    || text_eq association (codes "MEMBER")
    || text_eq association (codes "COLLABORATOR")

abbrev pub mention : Text
mention = codes "@rustls-benchmarking"

abbrev pub bench_command : Text
bench_command = codes "@rustls-benchmarking bench"

abbrev pub unrecognized_command : Text
unrecognized_command =
    codes
      "Unrecognized command. Available commands are:\n* `@rustls-benchmarking bench`: runs the instruction count benchmarks and reports the results"

abbrev url_of : Option Repository → Option Text
url_of none = none
url_of (some repo) = repo.clone_url

abbrev branches_at : PullRequest → Option Text → Option Text → Option PrBranches
branches_at pr (some head) (some base) = some (record {
  baseline = record { clone_url = base; branch_name = pr.base.ref_field; commit_sha = pr.base.sha };
  candidate = record {
    clone_url = head;
    branch_name = pr.head.ref_field;
    commit_sha = pr.head.sha;
  };
})
branches_at pr head base = none

unfoldable pub pr_branches : PullRequest → Option PrBranches
pr_branches pr = branches_at pr (url_of pr.head.repo) (url_of pr.base.repo)

abbrev name_ok : Option Text → Text → Bool
name_ok none configured = false
name_ok (some name) configured = text_eq name configured

unfoldable pub pr_target_ok : Option Repository → Config → Bool
pr_target_ok none config = false
pr_target_ok (some repo) config =
    name_ok repo.full_name (config.github_repo_owner ++ codes "/" ++ config.github_repo_name)

-- The commit that was reviewed is the one that is run.
abbrev pub at_commit : Text → PrBranches → PrBranches
at_commit sha b = record b { candidate = record b.candidate { commit_sha = sha } }

abbrev pub allowed_action : UpdateAction → Bool
allowed_action opened = true
allowed_action synchronize = true
allowed_action reopened = true
allowed_action other_action = false

module _ (env : Env) (ctx : JobContext) where
  -- The command of a comment that passed the checks.
  unfoldable pub respond : CommentEvent → Action World (Unit {0})
  unfolding contains pr_branches bench_pr create_comment
  respond payload =
      if contains bench_command payload.comment.body
      then (do
        pr ← lift (ok_or (env.get_pr payload.issue.number) api_failed)
        branches ← lift (ok_or (pr_branches pr) no_branch_details)
        bench_pr env ctx pr.number branches)
      else if contains mention payload.comment.body
      then (do comment_id ← create_comment env payload.issue.number unrecognized_command; pure tt)
      else pure tt

  unfoldable pub handle_comment : CommentEvent → Action World (Unit {0})
  unfolding allowed_author respond text_eq
  handle_comment payload =
      if not payload.issue.has_pull_request
      then pure tt
      else if not (text_eq payload.action (codes "created"))
      then pure tt
      else if payload.comment.user_id == ctx.config.github_app_id
      then pure tt
      else if not (allowed_author payload.comment.author_association)
      then pure tt
      else respond payload

  unfoldable pub handle_issue_comment : Action World (Unit {0})
  unfolding handle_comment
  handle_issue_comment w = elim (env.parse_comment ctx.event_payload) [
    | none ↦ (ok tt, w)
    | some payload ↦ handle_comment payload w
  ]

  unfoldable pub handle_review : PullRequestReviewEvent → Action World (Unit {0})
  unfolding allowed_author pr_branches pr_target_ok bench_pr text_eq
  handle_review payload =
      if not (pr_target_ok payload.pull_request.base.repo ctx.config)
      then pure tt
      else if not (text_eq payload.action (codes "submitted"))
      then pure tt
      else if not (allowed_author payload.review.author_association)
      then pure tt
      else if not (text_eq payload.review.state (codes "approved"))
      then pure tt
      else (do
        branches ← lift (ok_or (pr_branches payload.pull_request) no_branch_details)
        bench_pr env ctx payload.pull_request.number (at_commit payload.review.commit_id branches))

  unfoldable pub handle_pr_review : Action World (Unit {0})
  unfolding handle_review
  handle_pr_review w = elim (env.parse_review ctx.event_payload) [
    | none ↦ (ok tt, w)
    | some payload ↦ handle_review payload w
  ]

  unfoldable pub handle_update : UpdateAction → PullRequest → Action World (Unit {0})
  unfolding pr_branches pr_target_ok bench_pr text_eq
  handle_update action pr =
      if not (pr_target_ok pr.base.repo ctx.config)
      then pure tt
      else if not (allowed_action action)
      then pure tt
      else (do
        branches ← lift (ok_or (pr_branches pr) no_branch_details)
        if text_eq branches.baseline.clone_url branches.candidate.clone_url
            then bench_pr env ctx pr.number branches
            else pure tt)

  unfoldable pub handle_pr_update : Action World (Unit {0})
  unfolding handle_update
  handle_pr_update w = elim (env.parse_update ctx.event ctx.event_payload) [
    | none ↦ (ok tt, w)
    | some of_other_kind ↦ (ok tt, w)
    | some (of_pull_request action pr) ↦ handle_update action pr w
  ]
