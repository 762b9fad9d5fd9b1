-- ===== src/Job/Handlers/Trust.antt =====
-- Who is a member of the project, and which comments are obeyed.
use rustls_bench_app.Base.{◌≡◌, ◌≢◌, ◌⊎◌, inl, inr, refl, true, some, arith, Option-cases}
use rustls_bench_app.Base.Text.{Text, codes, text_eq, text_eq_iff, contains, contains-append}
use rustls_bench_app.Base.Result.{ok}
use rustls_bench_app.Job.World.{PrBranches, PullRequest, CommentEvent, World, Env, JobContext}
use rustls_bench_app.Job.Bench.{bench_pr}
use rustls_bench_app.Job.Handlers.{
  allowed_author, mention, bench_command, pr_branches, respond, handle_comment,
  handle_issue_comment,
}

-- A member of the project.
abbrev pub IsTrusted : Text → Type 0
IsTrusted association =
    (association ≡ codes "OWNER")
    ⊎ (association ≡ codes "MEMBER")
    ⊎ (association ≡ codes "COLLABORATOR")

pub allowed_author-IsTrusted : (a : Text) → allowed_author a ≡ true → IsTrusted a
unfolding allowed_author
allowed_author-IsTrusted a h = ground (
  arith,
  text_eq_iff a (codes "OWNER"),
  text_eq_iff a (codes "MEMBER"),
  text_eq_iff a (codes "COLLABORATOR"),
)

pub IsTrusted-allowed_author : (a : Text) → IsTrusted a → allowed_author a ≡ true
unfolding allowed_author
IsTrusted-allowed_author a h = ground (
  arith,
  text_eq_iff a (codes "OWNER"),
  text_eq_iff a (codes "MEMBER"),
  text_eq_iff a (codes "COLLABORATOR"),
)

module _ (env : Env) (ctx : JobContext) where
  -- A comment that is obeyed: a new one, to a pull request, by a member other than the app itself.
  abbrev pub IsObeyed : CommentEvent → Type 0
  IsObeyed c =
      (c.issue.has_pull_request ≡ true)
      × (c.action ≡ codes "created")
      × (c.comment.user_id ≢ ctx.config.github_app_id)
      × IsTrusted c.comment.author_association
      × (contains mention c.comment.body ≡ true)

  handle_comment-guards :
      (c : CommentEvent) (w : World)
      → (handle_comment env ctx c w ≡ (ok tt, w))
        ⊎ ((c.issue.has_pull_request ≡ true)
            × (text_eq c.action (codes "created") ≡ true)
            × (c.comment.user_id ≢ ctx.config.github_app_id)
            × (allowed_author c.comment.author_association ≡ true)
            × (handle_comment env ctx c w ≡ respond env ctx c w))
  unfolding handle_comment
  handle_comment-guards c w = ground arith

  respond-mention :
      (c : CommentEvent) (w : World)
      → (respond env ctx c w ≡ (ok tt, w)) ⊎ (contains mention c.comment.body ≡ true)
  unfolding respond
  respond-mention c w = ground (arith, contains-append mention (codes " bench") c.comment.body)

  handle_comment-cases :
      (c : CommentEvent) (w : World) → (handle_comment env ctx c w ≡ (ok tt, w)) ⊎ IsObeyed c
  handle_comment-cases c w = ground (
    handle_comment-guards c w,
    respond-mention c w,
    text_eq_iff c.action (codes "created"),
    allowed_author-IsTrusted c.comment.author_association,
    arith,
  )

  -- A comment changes nothing, unless it is obeyed: new, to a pull request, by a member of the
  -- project other than the app, and addressed at the app.
  pub comment-IsObeyed :
      (w : World)
      → (handle_issue_comment env ctx w ≡ (ok tt, w))
        ⊎ ((c : CommentEvent) × (env.parse_comment ctx.event_payload ≡ some c) × IsObeyed c)
  unfolding handle_issue_comment
  comment-IsObeyed w = elim (Option-cases (env.parse_comment ctx.event_payload)) [
    | inl e ↦ inl (rw (e, handle_issue_comment) refl)
    | inr (c, e) ↦ elim (handle_comment-cases c w) [
      | inl same ↦ inl (rw (e, handle_issue_comment) same)
      | inr obeyed ↦ inr (c, e, obeyed)
    ]
  ]

  obeyed_is_answered :
      (c : CommentEvent) (w : World) → IsObeyed c → handle_comment env ctx c w ≡ respond env ctx c w
  unfolding handle_comment
  obeyed_is_answered c w (pr, created, other, trusted, addressed) = ground (
    arith,
    text_eq_iff c.action (codes "created"),
    IsTrusted-allowed_author c.comment.author_association trusted,
  )

  -- An obeyed comment with the command runs the benchmarks of its pull request, when GitHub tells
  -- the branches.
  pub obeyed_comment_runs :
      (c : CommentEvent) (pr : PullRequest) (b : PrBranches) (w : World)
      → env.parse_comment ctx.event_payload ≡ some c
      → IsObeyed c
      → contains bench_command c.comment.body ≡ true
      → env.get_pr c.issue.number ≡ some pr
      → pr_branches pr ≡ some b
      → handle_issue_comment env ctx w ≡ bench_pr env ctx pr.number b w
  unfolding handle_issue_comment respond
  obeyed_comment_runs c pr b w parsed obeyed command known branches =
      rw
        (
          parsed,
          handle_issue_comment,
          obeyed_is_answered c w obeyed,
          respond,
          command,
          known,
          branches,
        )
        refl
