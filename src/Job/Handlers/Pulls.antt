-- ===== src/Job/Handlers/Pulls.antt =====
-- Which reviews and updates of pull requests are obeyed.
use rustls_bench_app.Base.{
  ◌≡◌, ◌⊎◌, inl, inr, refl, ap, ◌∙◌, true, Option, none, some, [], ◌∷◌, ◌++◌, if◌then◌else◌, arith,
  Bool-cases, Option-cases,
}
use rustls_bench_app.Base.Text.{codes, text_eq, text_eq_iff}
use rustls_bench_app.Base.Result.{ok}
use rustls_bench_app.Job.World.{
  PrBranches, Repository, PullRequest, PullRequestReviewEvent, UpdateAction, opened, synchronize,
  reopened, other_action, pending, success, of_pull_request, of_other_kind, World, Config, Env,
  JobContext,
}
use rustls_bench_app.Job.Bench.{bench_pr}
use rustls_bench_app.Job.Bench.Frames.{statuses}
use rustls_bench_app.Job.Bench.Laws.{job_url}
use rustls_bench_app.Job.Bench.Statuses.{is_reported, statuses-bench_pr}
use rustls_bench_app.Job.Handlers.{
  pr_branches, pr_target_ok, handle_review, handle_pr_review, handle_update, handle_pr_update,
  allowed_action,
}
use rustls_bench_app.Job.Handlers.Trust.{
  IsTrusted, allowed_author-IsTrusted, IsTrusted-allowed_author,
}

-- The repository of the configuration.
abbrev pub IsOurs : Option Repository → Config → Type 0
IsOurs repo config =
    (r : Repository) × (repo ≡ some r)
    × (r.full_name ≡ some (config.github_repo_owner ++ codes "/" ++ config.github_repo_name))

pub pr_target_ok-IsOurs :
    (repo : Option Repository) (config : Config)
    → pr_target_ok repo config ≡ true
    → IsOurs repo config
unfolding pr_target_ok
pr_target_ok-IsOurs none config h = absurd (cc h)
pr_target_ok-IsOurs (some repo) config h = elim (Option-cases repo.full_name) [
  | inl e ↦ absurd (cc (rw e at h))
  | inr (name, e) ↦
      let same =
        (text_eq_iff name (config.github_repo_owner ++ codes "/" ++ config.github_repo_name)).0
          (rw e at h) in
      (repo, refl, cc)
]

IsOurs-pr_target_ok :
    (repo : Option Repository) (config : Config)
    → IsOurs repo config
    → pr_target_ok repo config ≡ true
unfolding pr_target_ok
IsOurs-pr_target_ok repo config (r, e, name) =
    let same =
      (text_eq_iff (config.github_repo_owner ++ codes "/" ++ config.github_repo_name)
          (config.github_repo_owner ++ codes "/" ++ config.github_repo_name)).1
        refl in
    rw (e, pr_target_ok, name) same

module _ (env : Env) (ctx : JobContext) where
  abbrev pub IsApproval : PullRequestReviewEvent → Type 0
  IsApproval r =
      IsOurs r.pull_request.base.repo ctx.config
      × (r.action ≡ codes "submitted")
      × IsTrusted r.review.author_association
      × (r.review.state ≡ codes "approved")

  handle_review-cases :
      (r : PullRequestReviewEvent) (w : World)
      → (handle_review env ctx r w ≡ (ok tt, w)) ⊎ IsApproval r
  unfolding handle_review
  handle_review-cases r w = ground (
    pr_target_ok-IsOurs r.pull_request.base.repo ctx.config,
    text_eq_iff r.action (codes "submitted"),
    text_eq_iff r.review.state (codes "approved"),
    allowed_author-IsTrusted r.review.author_association,
    arith,
  )

  -- A review changes nothing, unless it is a new approval, by a member of the project, in the
  -- configured repository.
  pub review-IsApproval :
      (w : World)
      → (handle_pr_review env ctx w ≡ (ok tt, w))
        ⊎ ((r : PullRequestReviewEvent) × (env.parse_review ctx.event_payload ≡ some r)
            × IsApproval r)
  unfolding handle_pr_review
  review-IsApproval w = elim (Option-cases (env.parse_review ctx.event_payload)) [
    | inl e ↦ inl (rw (e, handle_pr_review) refl)
    | inr (r, e) ↦ elim (handle_review-cases r w) [
      | inl same ↦ inl (rw (e, handle_pr_review) same)
      | inr approval ↦ inr (r, e, approval)
    ]
  ]

  abbrev pub IsOwnUpdate : UpdateAction → PullRequest → PrBranches → Type 0
  IsOwnUpdate action pr b =
      IsOurs pr.base.repo ctx.config
      × ((action ≡ opened) ⊎ (action ≡ synchronize) ⊎ (action ≡ reopened))
      × (pr_branches pr ≡ some b)
      × (b.baseline.clone_url ≡ b.candidate.clone_url)

  allowed_action-cases :
      (action : UpdateAction)
      → allowed_action action ≡ true
      → (action ≡ opened) ⊎ (action ≡ synchronize) ⊎ (action ≡ reopened)
  allowed_action-cases opened e = inl refl
  allowed_action-cases synchronize e = inr (inl refl)
  allowed_action-cases reopened e = inr (inr refl)
  allowed_action-cases other_action e = absurd (cc e)

  handle_update-cases :
      (action : UpdateAction) (pr : PullRequest) (w : World)
      → ((handle_update env ctx action pr w).1 ≡ w)
        ⊎ ((b : PrBranches) × IsOwnUpdate action pr b
            × (handle_update env ctx action pr w ≡ bench_pr env ctx pr.number b w))
  unfolding handle_update
  handle_update-cases action pr w = elim (Bool-cases (pr_target_ok pr.base.repo ctx.config)) [
    | inr wrong ↦ inl (rw (wrong, handle_update) refl)
    | inl ours ↦ elim (Bool-cases (allowed_action action)) [
      | inr ignored ↦ inl (rw (ours, handle_update, ignored) refl)
      | inl allowed ↦ elim (Option-cases (pr_branches pr)) [
        | inl unknown ↦ inl (rw (ours, handle_update, allowed, unknown) refl)
        | inr (b, known) ↦ elim (Bool-cases (text_eq b.baseline.clone_url b.candidate.clone_url)) [
          | inr fork ↦ inl (rw (ours, handle_update, allowed, known, fork) refl)
          | inl same ↦ inr (
            b,
            (
              pr_target_ok-IsOurs pr.base.repo ctx.config ours,
              allowed_action-cases action allowed,
              known,
              (text_eq_iff b.baseline.clone_url b.candidate.clone_url).0 same,
            ),
            rw (ours, handle_update, allowed, known, same) refl,
          )
        ]
      ]
    ]
  ]

  -- An update of a pull request changes nothing, unless it is opened, reopened or synchronised in
  -- the configured repository, from a branch of the same repository and not of a fork; then its
  -- branches are benchmarked.
  pub update_is_own :
      (w : World)
      → ((handle_pr_update env ctx w).1 ≡ w)
        ⊎ ((action : UpdateAction) × (pr : PullRequest) × (b : PrBranches) × (env.parse_update
                ctx.event ctx.event_payload
              ≡ some (of_pull_request action pr))
            × IsOwnUpdate action pr b
            × (handle_pr_update env ctx w ≡ bench_pr env ctx pr.number b w))
  unfolding handle_pr_update
  update_is_own w = elim (Option-cases (env.parse_update ctx.event ctx.event_payload)) [
    | inl e ↦ inl (rw (e, handle_pr_update) refl)
    | inr (of_other_kind, e) ↦ inl (rw (e, handle_pr_update) refl)
    | inr (of_pull_request action pr, e) ↦ elim (handle_update-cases action pr w) [
      | inl same ↦ inl (rw (e, handle_pr_update) same)
      | inr (b, own, runs) ↦ inr (action, pr, b, e, own, rw (e, handle_pr_update) runs)
    ]
  ]

  -- The branches with the commit that was reviewed in the place of the head of the pull request.
  abbrev pub reviewed_branches : PullRequestReviewEvent → PrBranches → PrBranches
  reviewed_branches r b = record {
    baseline = b.baseline;
    candidate = record {
      clone_url = b.candidate.clone_url;
      branch_name = b.candidate.branch_name;
      commit_sha = r.review.commit_id;
    };
  }

  approval_runs_reviewed_commit :
      (r : PullRequestReviewEvent) (b : PrBranches) (w : World)
      → env.parse_review ctx.event_payload ≡ some r
      → pr_target_ok r.pull_request.base.repo ctx.config ≡ true
      → r.action ≡ codes "submitted"
      → IsTrusted r.review.author_association
      → r.review.state ≡ codes "approved"
      → pr_branches r.pull_request ≡ some b
      → handle_pr_review env ctx w
        ≡ bench_pr env ctx r.pull_request.number (reviewed_branches r b) w
  unfolding handle_pr_review handle_review
  approval_runs_reviewed_commit r b w parsed ours submitted trusted approved branches =
      let is_submitted = (text_eq_iff r.action (codes "submitted")).1 submitted in
      let is_approved = (text_eq_iff r.review.state (codes "approved")).1 approved in
      let is_trusted = IsTrusted-allowed_author r.review.author_association trusted in
      rw
        (
          parsed, handle_pr_review, handle_review, ours, is_submitted, is_trusted, is_approved,
          branches,
        )
        refl

  -- An approval by a member of the project, in the configured repository, sets the statuses of the
  -- commit that was reviewed, whatever the head of the branch is: `Pending`, and then `Success`
  -- exactly when the comment on the benchmarks of that commit is posted. No other status is set.
  pub approval_sets_statuses :
      (r : PullRequestReviewEvent) (b : PrBranches) (w : World)
      → env.parse_review ctx.event_payload ≡ some r
      → IsApproval r
      → pr_branches r.pull_request ≡ some b
      → statuses (handle_pr_review env ctx w).1.calls
        ≡ statuses w.calls
          ++ (r.review.commit_id, pending, job_url env ctx)
            ∷ (if is_reported env ctx r.pull_request.number (reviewed_branches r b) w
                then (r.review.commit_id, success, job_url env ctx) ∷ []
                else [])
  approval_sets_statuses r b w parsed (ours, submitted, trusted, approved) branches =
      ap (λ x. statuses x.1.calls)
        (approval_runs_reviewed_commit r b w parsed
          (IsOurs-pr_target_ok r.pull_request.base.repo ctx.config ours) submitted trusted approved
          branches)
      ∙ statuses-bench_pr env ctx r.pull_request.number (reviewed_branches r b) w
