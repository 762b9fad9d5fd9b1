-- ===== src/Db/Results/History.antt =====
-- The history after a run was stored: `store_run_results` and `result_history` of
-- ci-bench-runner/src/db.rs.
use mathlib.Core.List.{append-nil}
use rustls_bench_app.Base.{
  ℕ, ◌≡◌, refl, none, List, [], ◌∷◌, ◌++◌, map, ltb, if◌then◌else◌, arith, Bool-cases, inl, inr,
}
use rustls_bench_app.Base.Table
use rustls_bench_app.Base.Result.{ok}
use rustls_bench_app.Db.Schema.{BenchRun, ResultRow, BenchResult, Database, run_key}
use rustls_bench_app.Db.Results.{
  result_row, new_run, store_run_results, runs_since, by_time, rows_of_run, rows_of_runs,
  decode_results, result_history,
}
use rustls_bench_app.Db.Writes.Valid.{RunsAreValid}
use rustls_bench_app.Db.Results.Rows.{
  Stored, bench_result, NoLater, runs_since-append, runs_since-NoLater, by_time-append,
  rows_of_run-append, rows_of_run-map, rows_of_run-absent, rows_of_runs-append, rows_of_runs-last,
  decode_results-stored, decode_results-append, find-runs_since, find-by_time,
}

module _ (id now cutoff : ℕ) (results : List Stored) (db : Database) where
  abbrev fresh_rows : List ResultRow
  fresh_rows = map (result_row id) results

  abbrev recent : List BenchRun
  recent = runs_since cutoff db.bench_runs

  -- The rows of the history, with the new run in the tables.
  history-append :
      RunsAreValid db.bench_runs db.bench_results
      → Table.find run_key id db.bench_runs ≡ none
      → NoLater now db.bench_runs
      → rows_of_runs
          (db.bench_results ++ fresh_rows)
          (by_time (runs_since cutoff (db.bench_runs ++ new_run id now ∷ [])))
        ≡ rows_of_runs db.bench_results (by_time recent)
          ++ (if ltb cutoff now then fresh_rows else [])
  history-append valid fresh latest =
      let none_here = find-by_time id recent (find-runs_since id cutoff db.bench_runs fresh) in
      let old = rows_of_runs-append db.bench_results id results (by_time recent) none_here in
      let last =
        by_time-append recent (new_run id now)
          (runs_since-NoLater cutoff now db.bench_runs latest) in
      let of_run : rows_of_run (db.bench_results ++ fresh_rows) id ≡ fresh_rows = ground (
        arith,
        rows_of_run-append db.bench_results fresh_rows id,
        rows_of_run-absent db.bench_runs db.bench_results id valid.results_of_runs fresh,
        rows_of_run-map id id results,
      ) in
      elim (Bool-cases (ltb cutoff now)) [
        | inl e ↦
            rw
              (
                runs_since-append cutoff db.bench_runs (new_run id now),
                e,
                last,
                rows_of_runs-last (db.bench_results ++ fresh_rows) (by_time recent)
                    (new_run id now),
                old,
                of_run,
              )
              refl
        | inr e ↦
            rw
              (
                runs_since-append cutoff db.bench_runs (new_run id now),
                e,
                old,
                append-nil (rows_of_runs db.bench_results (by_time recent)),
              )
              refl
      ]

-- Storing a run under a new id, no earlier than the runs that are there, in a database whose runs are
-- valid and whose history can be read: the history since any date is then what it was, and at its
-- end, where the run is later than that date, every result of the run, in order and as it was given.
pub result_history-store :
    (id now cutoff : ℕ) (results : List Stored) (db : Database) (old : List BenchResult)
    → RunsAreValid db.bench_runs db.bench_results
    → Table.find run_key id db.bench_runs ≡ none
    → NoLater now db.bench_runs
    → result_history cutoff db ≡ ok old
    → ((store_run_results id now results db).0 ≡ ok id)
      × (result_history cutoff (store_run_results id now results db).1
          ≡ ok (old ++ (if ltb cutoff now then map bench_result results else [])))
unfolding store_run_results result_history
result_history-store id now cutoff results db old valid fresh latest before =
    let inserted = Table.insert-fresh run_key (new_run id now) db.bench_runs fresh in
    let rows = history-append id now cutoff results db valid fresh latest in
    let added : decode_results (if ltb cutoff now then map (result_row id) results else [])
        ≡ ok (if ltb cutoff now then map bench_result results else []) =
      elim (Bool-cases (ltb cutoff now)) [
        | inl e ↦ rw e (decode_results-stored id results)
        | inr e ↦ rw (e, decode_results) refl
      ] in
    rw
      (
        inserted,
        store_run_results,
        result_history,
        rows,
        decode_results-append
            (rows_of_runs db.bench_results (by_time (runs_since cutoff db.bench_runs))) _ _ added,
        before,
      )
      (refl, refl)
