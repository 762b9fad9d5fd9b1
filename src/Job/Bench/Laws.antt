-- ===== src/Job/Bench/Laws.antt =====
-- The comment and the database that the benchmarking of a pull request leaves behind.
use mathlib.Core.List.{append_assoc}
use rustls_bench_app.Base.{
  ℕ, ◌<◌, ◌^◌, ◌≡◌, refl, ap, true, Option, none, some, List, [], ◌∷◌, ◌++◌, ◌⊎◌, inl, inr, arith,
  Option-cases, if◌then◌else◌, Bool-cases,
}
use rustls_bench_app.Base.Text.{Text, codes}
use rustls_bench_app.Base.Result.{Result, ok, err, Result-cases, api_failed}
use rustls_bench_app.Base.Action.{◌>>=◌}
use rustls_bench_app.Db.Comments.{
  store_result_comment_id, result_comment_id, result_comment_id-store,
}
use rustls_bench_app.Job.World.{
  PrBranches, pending, Call, creates_status, creates_comment, updates_comment, World, Env,
  JobContext,
}
use rustls_bench_app.Job.Bench.{
  update_commit_status, create_comment, try_update_comment, report, bench_and_report, bench_pr,
  update_comment,
}
use rustls_bench_app.Job.Bench.Frames.{bench_and_report-Kept}

module _ (env : Env) (ctx : JobContext) where
  abbrev pub job_url : Text
  job_url = ctx.config.app_base_url ++ codes "/jobs/" ++ ctx.job_id

  -- It touches neither the event queue nor the jobs.
  pub bench_pr_keeps_queue :
      (pr_number : ℕ) (b : PrBranches) (w : World)
      → ((bench_pr env ctx pr_number b w).1.db.event_queue ≡ w.db.event_queue)
        × ((bench_pr env ctx pr_number b w).1.db.jobs ≡ w.db.jobs)
  unfolding bench_pr update_commit_status
  bench_pr_keeps_queue pr_number b w =
      let w1 : World = record w {
        calls = w.calls ++ creates_status b.candidate.commit_sha pending job_url ∷ [];
      } in
      let between = (bench_and_report-Kept env ctx pr_number b).same w1 in
      let events : (bench_and_report env ctx pr_number b w1).1.db.event_queue ≡ w.db.event_queue =
        ap (λ k. k.0) between in
      let jobs : (bench_and_report env ctx pr_number b w1).1.db.jobs ≡ w.db.jobs =
        ap (λ k. k.1) between in
      elim (Result-cases (bench_and_report env ctx pr_number b w1).0) [
        | inl (u, e) ↦ rw (e, ◌>>=◌) (events, jobs)
        | inr (inl (x, e)) ↦ rw (e, ◌>>=◌) (events, jobs)
        | inr (inr e) ↦ rw (e, ◌>>=◌) (events, jobs)
      ]

  -- A world after more calls, and with a comment registered.
  abbrev called : World → List Call → World
  called w calls = record w { calls = w.calls ++ calls }

  abbrev registered : ℕ → ℕ → World → World
  registered pr_number id w = record w { db = store_result_comment_id pr_number id w.db }

  -- What follows a failed attempt, which left the world `w`.
  abbrev pub fallback : ℕ → Text → World → Option ℕ → Result (Unit {0}) × World
  fallback pr_number comment w none =
      (err api_failed, called w (creates_comment pr_number comment ∷ []))
  fallback pr_number comment w (some id) =
      (ok tt, registered pr_number id (called w (creates_comment pr_number comment ∷ [])))

  abbrev pub reported : ℕ → Text → World → Option ℕ → Result (Unit {0}) × World
  reported pr_number comment w none =
      fallback pr_number comment w (env.create_comment pr_number comment)
  reported pr_number comment w (some id) =
      if env.update_comment id comment
      then (ok tt, called w (updates_comment id comment ∷ []))
      else fallback pr_number comment (called w (updates_comment id comment ∷ []))
          (env.create_comment pr_number comment)

  pub report-reported :
      (pr_number : ℕ) (comment : Text) (w : World)
      → report env pr_number comment w
        ≡ reported pr_number comment w (result_comment_id pr_number w.db)
  unfolding report try_update_comment update_comment create_comment
  report-reported pr_number comment w = ground arith

  -- The calls of an attempt to update the comment.
  abbrev pub attempted : Option ℕ → Text → List Call
  attempted none comment = []
  attempted (some id) comment = updates_comment id comment ∷ []

  -- The comment `id` has the text now: it was known and is updated, or it is new.
  abbrev pub IsPosted : ℕ → Text → World → World → ℕ → Type 0
  IsPosted pr_number comment w after id =
      ((result_comment_id pr_number w.db ≡ some id)
        × (env.update_comment id comment ≡ true)
        × (after.calls ≡ w.calls ++ updates_comment id comment ∷ []))
      ⊎ ((env.create_comment pr_number comment ≡ some id)
          × (after.calls
              ≡ w.calls
                ++ (attempted (result_comment_id pr_number w.db) comment
                    ++ creates_comment pr_number comment ∷ [])))

  registered-known :
      (pr_number id : ℕ) (w : World)
      → pr_number < 2 ^ 64
      → id < 2 ^ 64
      → result_comment_id pr_number (registered pr_number id w).db ≡ some id
  registered-known pr_number id w hp hid =
      ground (arith, result_comment_id-store pr_number pr_number id w.db hp hp hid)

  -- A report that goes through is in one comment, updated or new, and the database then knows this
  -- comment for the pull request. Numbers are 64-bit.
  pub report_is_known :
      (pr_number : ℕ) (comment : Text) (w : World)
      → pr_number < 2 ^ 64
      → ((id : ℕ) → env.create_comment pr_number comment ≡ some id → id < 2 ^ 64)
      → (report env pr_number comment w).0 ≡ ok tt
      → (id : ℕ) × (result_comment_id pr_number (report env pr_number comment w).1.db ≡ some id)
        × IsPosted pr_number comment w (report env pr_number comment w).1 id
  report_is_known pr_number comment w hp ids h =
      elim (Option-cases (result_comment_id pr_number w.db)) [
        | inl e ↦ elim (Option-cases (env.create_comment pr_number comment)) [
          | inl e2 ↦
              absurd (cc (rw (report-reported pr_number comment w, e, reported, e2, fallback) at h))
          | inr (id, e2) ↦
              rw (report-reported pr_number comment w, e, e2)
                (id, registered-known pr_number id w hp (ids id e2), inr (refl, refl))
        ]
        | inr (id, e) ↦ elim (Bool-cases (env.update_comment id comment)) [
          | inl up ↦ rw (report-reported pr_number comment w, e, up) (id, e, inl (refl, up, refl))
          | inr down ↦ elim (Option-cases (env.create_comment pr_number comment)) [
            | inl e2 ↦ absurd (
                cc (rw (report-reported pr_number comment w, e, reported, down, e2, fallback) at h))
            | inr (id2, e2) ↦
                rw (report-reported pr_number comment w, e, down, e2)
                  (
                    id2,
                    registered-known pr_number id2 w hp (ids id2 e2),
                    inr (
                      refl,
                      append_assoc w.calls (updates_comment id comment ∷ [])
                          (creates_comment pr_number comment ∷ []),
                    ),
                  )
          ]
        ]
      ]
