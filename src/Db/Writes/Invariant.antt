-- ===== src/Db/Writes/Invariant.antt =====
-- The writes and the well-formedness of the database: ci-bench-runner/src/db.rs.
use rustls_bench_app.Base.{
  ℕ, refl, ◌≤◌, List, [], ◌∷◌, ◌++◌, map, All-append, All-imp, All-map, arith, Option-cases, inl,
  inr,
}
use rustls_bench_app.Base.Text.{Text}
use rustls_bench_app.Base.F64.{F64}
use rustls_bench_app.Base.Table
use rustls_bench_app.Db.Schema.{
  CommentRow, ScenarioKind, icount, walltime, memory, discriminant, Database, empty_db, run_key,
  comparison_key, comment_key,
}
use rustls_bench_app.Db.Events.{queued}
use rustls_bench_app.Db.Results.{result_row, new_run, store_run_results}
use rustls_bench_app.Db.Comments.{upsert, store_result_comment_id, as_i64}
use rustls_bench_app.Db.Comparisons.{
  Json, ComparisonResult, diff_row, new_comparison, store_comparison_result,
}
use rustls_bench_app.Db.Writes.{
  Write, enqueues, deletes, creates_job, finishes_job, stores_results, stores_comparison,
  stores_comment, apply, apply_all,
}
use rustls_bench_app.Db.Writes.Valid.{ResultOfRun, DiffOfRun, IsValid, empty_db-IsValid}
use rustls_bench_app.Db.Writes.Queue.{
  enqueue_event-IsValid, delete_event-IsValid, new_job_for_event-IsValid, job_finished-IsValid,
}

discriminant-le : (k : ScenarioKind) → discriminant k ≤ 2
unfolding discriminant
discriminant-le icount = omega arith
discriminant-le walltime = omega arith
discriminant-le memory = omega arith

pub store_run_results-IsValid :
    (id now : ℕ) (results : List (Text × ScenarioKind × F64)) (db : Database)
    → IsValid db
    → IsValid (store_run_results id now results db).1
unfolding store_run_results
store_run_results-IsValid id now results db v =
    let row = new_run id now in
    let rows = db.bench_runs ++ row ∷ [] in
    elim (Table.insert-cases run_key row db.bench_runs) [
      | inl (taken, e) ↦ rw (e, store_run_results) v
      | inr (free, e) ↦
          rw (e, store_run_results)
            (record {
              queue = v.queue;
              comparisons = v.comparisons;
              comments = v.comments;
              history = record {
                runs_unique = Table.append-Unique run_key db.bench_runs row v.runs_unique free;
                results_of_runs =
                    All-append (ResultOfRun rows) db.bench_results (map (result_row id) results)
                      (All-imp (ResultOfRun db.bench_runs) (ResultOfRun rows) db.bench_results
                        (λ r h. (
                          Table.is_some-find-append run_key r.bench_run_id db.bench_runs row h.0,
                          h.1,
                        ))
                        v.results_of_runs)
                      (All-map (ResultOfRun rows) (result_row id) results (λ r.
                        (Table.find-append_self run_key db.bench_runs row, discriminant-le r.1)));
              };
            })
    ]

pub store_comparison_result-IsValid :
    (json : Json) {Details : Type 0} (id now : ℕ) (baseline candidate : Text)
    (r : ComparisonResult Details) (db : Database)
    → IsValid db
    → IsValid (store_comparison_result json id now baseline candidate r db).1
unfolding store_comparison_result
store_comparison_result-IsValid json id now baseline candidate r db v =
    let row = new_comparison json id now baseline candidate r in
    let rows = db.comparison_runs ++ row ∷ [] in
    let new_diffs = r.icount.diffs ++ (r.walltime.diffs ++ r.memory.diffs) in
    elim (Table.insert-cases comparison_key row db.comparison_runs) [
      | inl (taken, e) ↦ rw (e, store_comparison_result) v
      | inr (free, e) ↦
          rw (e, store_comparison_result)
            (record {
              queue = v.queue;
              history = v.history;
              comments = v.comments;
              comparisons = record {
                comparisons_unique =
                    Table.append-Unique comparison_key db.comparison_runs row v.comparisons_unique
                      free;
                diffs_of_runs =
                    All-append (DiffOfRun rows) db.scenario_diffs (map (diff_row id) new_diffs)
                      (All-imp (DiffOfRun db.comparison_runs) (DiffOfRun rows) db.scenario_diffs
                        (λ d h. (
                          Table.is_some-find-append comparison_key d.comparison_run_id
                              db.comparison_runs row h.0,
                          h.1,
                        ))
                        v.diffs_of_runs)
                      (All-map (DiffOfRun rows) (diff_row id) new_diffs (λ d. (
                        Table.find-append_self comparison_key db.comparison_runs row,
                        discriminant-le d.scenario_kind,
                      )));
              };
            })
    ]

upsert-Unique :
    (r : CommentRow) (rows : List CommentRow)
    → Table.Unique comment_key rows
    → Table.Unique comment_key (upsert r rows)
unfolding upsert
upsert-Unique r rows u = elim (Option-cases (Table.find comment_key r.pr_number rows)) [
  | inl e ↦ rw e (Table.append-Unique comment_key rows r u e)
  | inr (old, e) ↦ rw e (Table.update-Unique comment_key r.pr_number _ rows (λ a. refl) u)
]

pub store_result_comment_id-IsValid :
    (pr_number comment_id : ℕ) (db : Database)
    → IsValid db
    → IsValid (store_result_comment_id pr_number comment_id db)
unfolding store_result_comment_id
store_result_comment_id-IsValid pr_number comment_id db v = record {
  queue = v.queue;
  history = v.history;
  comparisons = v.comparisons;
  comments =
      upsert-Unique (record { pr_number = as_i64 pr_number; comment_id = as_i64 comment_id })
        db.result_comments v.comments;
}

module _ (json : Json) {Details : Type 0} where
  pub apply-IsValid : (w : Write Details) (db : Database) → IsValid db → IsValid (apply json w db)
  unfolding apply
  apply-IsValid (enqueues id now event payload) db v =
      enqueue_event-IsValid id now event payload db v
  apply-IsValid (deletes id) db v = delete_event-IsValid id db v
  apply-IsValid (creates_job id now event_id queued) db v =
      new_job_for_event-IsValid id now event_id queued db v
  apply-IsValid (finishes_job now id success) db v = job_finished-IsValid now id success db v
  apply-IsValid (stores_results id now results) db v = store_run_results-IsValid id now results db v
  apply-IsValid (stores_comparison id now b c r) db v =
      store_comparison_result-IsValid json id now b c r db v
  apply-IsValid (stores_comment pr id) db v = store_result_comment_id-IsValid pr id db v

  apply_all-IsValid :
      (ws : List (Write Details)) (db : Database) → IsValid db → IsValid (apply_all json ws db)
  unfolding apply_all
  apply_all-IsValid [] db v = v
  apply_all-IsValid (w ∷ ws) db v = apply_all-IsValid ws (apply json w db) (apply-IsValid w db v)

  -- Whatever is written to a new database, in whatever order and with whatever ids: primary keys
  -- stay unique, the job of a queued event and the run of a result or a diff exist, a job has an
  -- outcome exactly when it has finished, and every stored kind is one that can be read back.
  pub apply_all-empty-IsValid : (ws : List (Write Details)) → IsValid (apply_all json ws empty_db)
  apply_all-empty-IsValid ws = apply_all-IsValid ws empty_db empty_db-IsValid
