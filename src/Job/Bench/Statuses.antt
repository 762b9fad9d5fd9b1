-- ===== src/Job/Bench/Statuses.antt =====
-- The statuses of a commit: `bench_pr` of ci-bench-runner/src/job/bench_pr.rs.
use mathlib.Core.List.{append_assoc}
use rustls_bench_app.Base.{
  ℕ, ◌≡◌, refl, ap, Bool, true, false, Option, none, some, [], ◌∷◌, ◌++◌, inl, inr, arith, ◌∙◌,
  if◌then◌else◌, is_some, Option-cases,
}
use rustls_bench_app.Base.Text.{Text}
use rustls_bench_app.Base.Result.{Result, ok, err, panic, Result-cases}
use rustls_bench_app.Base.Action.{attempt, lift, ◌>>=◌}
use rustls_bench_app.Db.Comments.{result_comment_id}
use rustls_bench_app.Db.Comparisons.{ComparisonResult}
use rustls_bench_app.Github.Truncation.{maybe_truncate_comment}
use rustls_bench_app.Job.World.{
  PrBranches, pending, success, creates_status, World, Details, Env, JobContext,
}
use rustls_bench_app.Job.Bench.{
  update_commit_status, report, bench_and_report, bench_pr, bench_pr_and_cache_results,
  markdown_comment, diff_url, bencher_project_id,
}
use rustls_bench_app.Job.Bench.Frames.{statuses, statuses-append, bench_and_report-Kept}
use rustls_bench_app.Job.Bench.Laws.{job_url, report-reported}

-- Whether there was no error and no panic.
abbrev pub is_ok {ℓ} : {A : Type ℓ} → Result A → Bool
is_ok (ok a) = true
is_ok (err e) = false
is_ok panic = false

module _ (env : Env) (ctx : JobContext) where
  -- GitHub takes the comment: as the new text of the one that is known for the pull request, or else
  -- as a new one.
  abbrev pub is_taken : (pr_number : ℕ) → Option ℕ → Text → Bool
  is_taken pr_number none comment = is_some (env.create_comment pr_number comment)
  is_taken pr_number (some id) comment =
      if env.update_comment id comment then true else is_some (env.create_comment pr_number comment)

  abbrev pub cut_is_taken : (pr_number : ℕ) → Option ℕ → Result Text → Bool
  cut_is_taken pr_number known (ok comment) = is_taken pr_number known comment
  cut_is_taken pr_number known (err e) = false
  cut_is_taken pr_number known panic = false

  -- The comment on the results, or on the error of the benchmarks, is cut to its length and taken.
  abbrev pub made_is_taken : (pr_number : ℕ) → Option ℕ → Result Text → Bool
  made_is_taken pr_number known (ok comment) =
      cut_is_taken pr_number known (maybe_truncate_comment comment)
  made_is_taken pr_number known (err e) = false
  made_is_taken pr_number known panic = false

  abbrev pub is_posted :
      (pr_number : ℕ) → PrBranches → Option ℕ → Result (ComparisonResult Details) → Bool
  is_posted pr_number b known panic = false
  is_posted pr_number b known (err e) =
      cut_is_taken pr_number known (maybe_truncate_comment (env.error_comment b e))
  is_posted pr_number b known (ok r) =
      made_is_taken pr_number known
        (markdown_comment env b (ok r) (diff_url ctx b) (bencher_project_id ctx))

  -- The state after the first status.
  abbrev pub announced : PrBranches → World → World
  announced b w = record w {
    calls = w.calls ++ creates_status b.candidate.commit_sha pending (job_url env ctx) ∷ [];
  }

  -- The comment on the benchmarks of these branches, run in this state, is posted.
  abbrev pub is_reported : (pr_number : ℕ) → PrBranches → World → Bool
  is_reported pr_number b w =
      let (result, after) = bench_pr_and_cache_results env b (announced b w) in
      is_posted pr_number b (result_comment_id pr_number after.db) result

  is_ok-report :
      (pr_number : ℕ) (comment : Text) (w : World)
      → is_ok (report env pr_number comment w).0
        ≡ is_taken pr_number (result_comment_id pr_number w.db) comment
  is_ok-report pr_number comment w =
      rw (report-reported env ctx pr_number comment w)
        (elim (Option-cases (result_comment_id pr_number w.db)) [
          | inl e ↦ rw e (ground arith)
          | inr (id, e) ↦ rw e (ground arith)
        ])

  is_ok-cut :
      (pr_number : ℕ) (w : World) (made : Result Text)
      → is_ok
          ((lift made >>= λ comment. lift (maybe_truncate_comment comment) >>= report env pr_number)
            w).0
        ≡ made_is_taken pr_number (result_comment_id pr_number w.db) made
  is_ok-cut pr_number w (ok comment) = elim (Result-cases (maybe_truncate_comment comment)) [
    | inl (cut, e) ↦ rw e (is_ok-report pr_number cut w)
    | inr (inl (x, e)) ↦ rw e refl
    | inr (inr e) ↦ rw e refl
  ]
  is_ok-cut pr_number w (err e) = refl
  is_ok-cut pr_number w panic = refl

  is_ok-posted :
      (pr_number : ℕ) (b : PrBranches) (r : Result (ComparisonResult Details)) (after w : World)
      → is_ok
          ((attempt (λ s. (r, after)) >>= λ result.
              lift (markdown_comment env b result (diff_url ctx b) (bencher_project_id ctx))
              >>= λ comment. lift (maybe_truncate_comment comment) >>= report env pr_number)
            w).0
        ≡ is_posted pr_number b (result_comment_id pr_number after.db) r
  unfolding markdown_comment
  is_ok-posted pr_number b (ok r) after w =
      is_ok-cut pr_number after
        (markdown_comment env b (ok r) (diff_url ctx b) (bencher_project_id ctx))
  is_ok-posted pr_number b (err e) after w = is_ok-cut pr_number after (ok (env.error_comment b e))
  is_ok-posted pr_number b panic after w = refl

  is_ok-bench_and_report :
      (pr_number : ℕ) (b : PrBranches) (w : World)
      → is_ok (bench_and_report env ctx pr_number b (announced b w)).0 ≡ is_reported pr_number b w
  unfolding bench_and_report
  is_ok-bench_and_report pr_number b w =
      let out = bench_pr_and_cache_results env b (announced b w) in
      is_ok-posted pr_number b out.0 out.1 (announced b w)

  -- The commit of a pull request is set to pending first, and then to success exactly when the
  -- comment on the benchmarks is posted, as an update of the known comment or as a new one: also
  -- where the benchmarks failed and the comment says so. No other status is set.
  pub statuses-bench_pr :
      (pr_number : ℕ) (b : PrBranches) (w : World)
      → statuses (bench_pr env ctx pr_number b w).1.calls
        ≡ statuses w.calls
          ++ (b.candidate.commit_sha, pending, job_url env ctx)
            ∷ (if is_reported pr_number b w
                then (b.candidate.commit_sha, success, job_url env ctx) ∷ []
                else [])
  unfolding bench_pr update_commit_status
  statuses-bench_pr pr_number b w = rw (← is_ok-bench_and_report pr_number b w) (
      let sha = b.candidate.commit_sha in
      let w1 : World = record w {
        calls = w.calls ++ creates_status sha pending (job_url env ctx) ∷ [];
      } in
      let w2 : World = (bench_and_report env ctx pr_number b w1).1 in
      let between : statuses w2.calls ≡ statuses w1.calls =
        ap (λ k. k.2) ((bench_and_report-Kept env ctx pr_number b).same w1) in
      let first = statuses-append w.calls (creates_status sha pending (job_url env ctx) ∷ []) in
      let last = statuses-append w2.calls (creates_status sha success (job_url env ctx) ∷ []) in
      elim (Result-cases (bench_and_report env ctx pr_number b w1).0) [
        | inl (u, e) ↦
            rw (e, ◌>>=◌)
              (last
                ∙ ap (λ c. c ++ (sha, success, job_url env ctx) ∷ []) (between ∙ first)
                ∙ append_assoc (statuses w.calls) ((sha, pending, job_url env ctx) ∷ [])
                    ((sha, success, job_url env ctx) ∷ []))
        | inr (inl (x, e)) ↦ rw (e, ◌>>=◌) (between ∙ first)
        | inr (inr e) ↦ rw (e, ◌>>=◌) (between ∙ first)
      ])
