-- ===== src/Job/Main/Laws.antt =====
-- Which pushes are benchmarked, and what is stored of the results.
use rustls_bench_app.Base.{
  ◌≡◌, ◌⊎◌, inl, inr, refl, true, false, none, some, [], ◌∷◌, ◌++◌, map, arith, Option-cases,
  Bool-cases,
}
use rustls_bench_app.Base.Text.{Text, codes, text_eq, text_eq_iff}
use rustls_bench_app.Base.F64.{F64}
use rustls_bench_app.Base.Map.{Map}
use rustls_bench_app.Base.Result.{ok}
use rustls_bench_app.Base.Table
use rustls_bench_app.Db.Schema.{BenchRun, run_key}
use rustls_bench_app.Db.Results.{store_run_results, result_row}
use rustls_bench_app.Job.Files.{
  MemoryDetails, read_icount_results, read_walltime_results, maybe_read_memory_results,
}
use rustls_bench_app.Job.World.{
  CommitIdentifier, PushEvent, runs_benchmarks, World, Env, JobContext,
}
use rustls_bench_app.Job.Bench.{run_benchmarks}
use rustls_bench_app.BencherDev.{BencherDev}
use rustls_bench_app.BencherDev.Sent.{TakesMeasures, track_results-ne-panic}
use rustls_bench_app.Job.Main.{
  upload, main_branch, run_results, run_main, store_main, bench_push, bench_main,
}

module _ (env : Env) (ctx : JobContext) where
  abbrev pub IsPushToMain : PushEvent → Type 0
  IsPushToMain p = (p.deleted ≡ false) × (p.git_ref ≡ codes "refs/heads/main")

  -- A push changes nothing, unless it updates the main branch and does not delete it.
  pub push_is_to_main :
      (w : World)
      → ((bench_main env ctx w).1 ≡ w)
        ⊎ ((p : PushEvent) × (env.parse_push ctx.event_payload ≡ some p) × IsPushToMain p)
  unfolding bench_main bench_push
  push_is_to_main w = elim (Option-cases (env.parse_push ctx.event_payload)) [
    | inl e ↦ inl (rw (e, bench_main) refl)
    | inr (p, e) ↦ elim (Bool-cases p.deleted) [
      | inl deleted ↦ inl (rw (e, bench_main, bench_push, deleted) refl)
      | inr kept ↦ elim (Bool-cases (text_eq p.git_ref (codes "refs/heads/main"))) [
        | inl same ↦ inr (p, e, (kept, (text_eq_iff p.git_ref (codes "refs/heads/main")).0 same))
        | inr other ↦ inl (rw (e, bench_main, bench_push, kept, other) refl)
      ]
    ]
  ]

  abbrev pub main_commit : PushEvent → CommitIdentifier
  main_commit p = record {
    clone_url = p.clone_url;
    branch_name = main_branch;
    commit_sha = p.after;
  }

  -- The upload does not panic where the measures can be parsed.
  upload-ok :
      (hash : Text) (files : Map F64 × Map F64 × Map MemoryDetails)
      → ((b : BencherDev) → ctx.bencher_dev ≡ some b → TakesMeasures b.client)
      → upload env ctx.bencher_dev hash files ≡ ok tt
  unfolding upload
  upload-ok hash (icounts, walltimes, mem) takes = elim (Option-cases ctx.bencher_dev) [
    | inl e ↦ rw (e, upload) refl
    | inr (b, e) ↦
        let safe =
          track_results-ne-panic b.client env.fp b.testbed_id b.project_id main_branch hash
            env.started env.now icounts walltimes mem (takes b e) in
        rw (e, upload) (ground (arith, safe))
  ]

  -- A push to main whose run goes through and leaves readable files is stored under a new run: a
  -- row for every instruction count, then for every walltime, then for every memory result. This
  -- holds whether the upload to bencher.dev goes through or not, where the measures can be parsed.
  pub push_to_main_is_stored :
      (p : PushEvent) (icounts walltimes : Map F64) (mem : Map MemoryDetails) (w : World)
      → env.parse_push ctx.event_payload ≡ some p
      → IsPushToMain p
      → env.temp_dirs ≡ true
      → env.logs_written ≡ true
      → env.run (main_commit p) ≡ ok tt
      → read_icount_results env.fp env.candidate_files.icounts ≡ ok icounts
      → read_walltime_results env.fp env.candidate_files.walltimes ≡ ok walltimes
      → maybe_read_memory_results env.candidate_files.memory ≡ ok mem
      → Table.find run_key env.new_id w.db.bench_runs ≡ none
      → ((b : BencherDev) → ctx.bencher_dev ≡ some b → TakesMeasures b.client)
      → ((bench_main env ctx w).0 ≡ ok tt)
        × ((bench_main env ctx w).1.calls ≡ w.calls ++ runs_benchmarks (main_commit p) ∷ [])
        × ((bench_main env ctx w).1.db.bench_runs
            ≡ w.db.bench_runs ++ record { id = env.new_id; created_utc = env.now } ∷ [])
        × ((bench_main env ctx w).1.db.bench_results
            ≡ w.db.bench_results
              ++ map (result_row env.new_id) (run_results env.fp icounts walltimes mem))
  unfolding bench_main bench_push run_main run_benchmarks store_main store_run_results
  push_to_main_is_stored p icounts walltimes mem w parsed (kept, ref) dirs logs ran ei ew em fresh
        takes =
      let to_main = (text_eq_iff p.git_ref (codes "refs/heads/main")).1 ref in
      let new_run : BenchRun = record { id = env.new_id; created_utc = env.now } in
      ground (
        arith,
        to_main,
        Table.insert-fresh run_key new_run w.db.bench_runs fresh,
        upload-ok p.after (icounts, walltimes, mem) takes,
      )
