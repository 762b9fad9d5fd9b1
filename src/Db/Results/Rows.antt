-- ===== src/Db/Results/Rows.antt =====
-- The rows of one run among the rows of all, and the runs in the order of time: the query of
-- `result_history`, ci-bench-runner/src/db.rs.
use mathlib.Core.List.{append_assoc, append-nil}
use rustls_bench_app.Base.{
  ℕ, ◌≡◌, ◌≤◌, ◌∙◌, ap, refl, sym, none, List, [], ◌∷◌, ◌++◌, map, ltb, ◌==◌, if◌then◌else◌, All,
  arith, Bool-cases, inl, inr,
}
use rustls_bench_app.Base.Text.{Text}
use rustls_bench_app.Base.F64.{F64}
use rustls_bench_app.Base.Table
use rustls_bench_app.Base.Result.{Result-cases, ok, ◌>>=◌}
use rustls_bench_app.Db.Schema.{
  BenchRun, ResultRow, BenchResult, ScenarioKind, try_from-discriminant, run_key,
}
use rustls_bench_app.Db.Results.{
  result_row, runs_since, insert_by_time, by_time, rows_of_run, rows_of_runs, decode_result,
  decode_results,
}
use rustls_bench_app.Db.Writes.Valid.{ResultOfRun}

abbrev pub Stored : Type 0
Stored = Text × ScenarioKind × F64

abbrev pub bench_result : Stored → BenchResult
bench_result (name, kind, result) = record {
  scenario_name = name;
  scenario_kind = kind;
  result = result;
}

-- No run is later.
abbrev pub NoLater : ℕ → List BenchRun → Type 0
NoLater now runs = All (λ r. r.created_utc ≤ now) runs

pub runs_since-append :
    (cutoff : ℕ) (rs : List BenchRun) (r : BenchRun)
    → runs_since cutoff (rs ++ r ∷ [])
      ≡ (if ltb cutoff r.created_utc then runs_since cutoff rs ++ r ∷ [] else runs_since cutoff rs)
unfolding runs_since
runs_since-append cutoff [] r = refl
runs_since-append cutoff (x ∷ rs) r = ground (arith, runs_since-append cutoff rs r)

pub runs_since-NoLater :
    (cutoff now : ℕ) (rs : List BenchRun) → NoLater now rs → NoLater now (runs_since cutoff rs)
unfolding runs_since
runs_since-NoLater cutoff now [] h = tt
runs_since-NoLater cutoff now (x ∷ rs) (h, hs) = elim (Bool-cases (ltb cutoff x.created_utc)) [
  | inl e ↦ rw e (h, runs_since-NoLater cutoff now rs hs)
  | inr e ↦ rw e (runs_since-NoLater cutoff now rs hs)
]

insert_by_time-append :
    (x : BenchRun) (rs : List BenchRun) (r : BenchRun)
    → x.created_utc ≤ r.created_utc
    → insert_by_time x (rs ++ r ∷ []) ≡ insert_by_time x rs ++ r ∷ []
unfolding insert_by_time
insert_by_time-append x [] r h = ground arith
insert_by_time-append x (y ∷ rs) r h = ground (arith, insert_by_time-append x rs r h)

-- The latest run is the last.
pub by_time-append :
    (rs : List BenchRun) (r : BenchRun)
    → NoLater r.created_utc rs
    → by_time (rs ++ r ∷ []) ≡ by_time rs ++ r ∷ []
unfolding by_time insert_by_time
by_time-append [] r h = refl
by_time-append (x ∷ rs) r (h, hs) =
    ap (insert_by_time x) (by_time-append rs r hs) ∙ insert_by_time-append x (by_time rs) r h

pub rows_of_run-append :
    (xs ys : List ResultRow) (id : ℕ)
    → rows_of_run (xs ++ ys) id ≡ rows_of_run xs id ++ rows_of_run ys id
unfolding rows_of_run
rows_of_run-append [] ys id = refl
rows_of_run-append (x ∷ xs) ys id = ground (arith, rows_of_run-append xs ys id)

-- The rows that a run stores are its own.
pub rows_of_run-map :
    (id j : ℕ) (results : List Stored)
    → rows_of_run (map (result_row id) results) j
      ≡ (if id == j then map (result_row id) results else [])
unfolding rows_of_run
rows_of_run-map id j [] = ground arith
rows_of_run-map id j (x ∷ results) = ground (arith, rows_of_run-map id j results)

pub rows_of_run-absent :
    (runs : List BenchRun) (rows : List ResultRow) (id : ℕ)
    → All (ResultOfRun runs) rows
    → Table.find run_key id runs ≡ none
    → rows_of_run rows id ≡ []
unfolding rows_of_run
rows_of_run-absent runs [] id h e = refl
rows_of_run-absent runs (x ∷ rows) id (h, hs) e =
    ground (arith, rows_of_run-absent runs rows id hs e)

-- Where a run is new, the rows of the others stay as they are.
pub rows_of_runs-append :
    (rows : List ResultRow) (id : ℕ) (results : List Stored) (runs : List BenchRun)
    → Table.find run_key id runs ≡ none
    → rows_of_runs (rows ++ map (result_row id) results) runs ≡ rows_of_runs rows runs
unfolding rows_of_runs Table.find
rows_of_runs-append rows id results [] h = refl
rows_of_runs-append rows id results (r ∷ runs) h = ground (
  arith,
  rows_of_run-append rows (map (result_row id) results) r.id,
  rows_of_run-map id r.id results,
  append-nil (rows_of_run rows r.id),
  rows_of_runs-append rows id results runs,
)

pub rows_of_runs-last :
    (rows : List ResultRow) (runs : List BenchRun) (r : BenchRun)
    → rows_of_runs rows (runs ++ r ∷ []) ≡ rows_of_runs rows runs ++ rows_of_run rows r.id
unfolding rows_of_runs
rows_of_runs-last rows [] r = append-nil (rows_of_run rows r.id)
rows_of_runs-last rows (x ∷ runs) r =
    ap (λ l. rows_of_run rows x.id ++ l) (rows_of_runs-last rows runs r)
    ∙ sym (append_assoc (rows_of_run rows x.id) (rows_of_runs rows runs) (rows_of_run rows r.id))

pub decode_results-stored :
    (id : ℕ) (results : List Stored)
    → decode_results (map (result_row id) results) ≡ ok (map bench_result results)
unfolding decode_results decode_result
decode_results-stored id [] = refl
decode_results-stored id ((name, kind, v) ∷ results) =
    rw (try_from-discriminant kind, decode_results-stored id results) refl

pub decode_results-append :
    (xs ys : List ResultRow) (b : List BenchResult)
    → decode_results ys ≡ ok b
    → decode_results (xs ++ ys) ≡ (decode_results xs >>= λ a. ok (a ++ b))
unfolding decode_results
decode_results-append [] ys b k = k
decode_results-append (x ∷ xs) ys b k =
    let rest = decode_results-append xs ys b k in
    elim (Result-cases (decode_result x)) [
      | inl (r, e) ↦ elim (Result-cases (decode_results xs)) [
        | inl (a, f) ↦ rw (e, rest, f) refl
        | inr (inl (er, f)) ↦ rw (e, rest, f) refl
        | inr (inr f) ↦ rw (e, rest, f) refl
      ]
      | inr (inl (er, e)) ↦ rw e refl
      | inr (inr e) ↦ rw e refl
    ]

pub find-runs_since :
    (id cutoff : ℕ) (rs : List BenchRun)
    → Table.find run_key id rs ≡ none
    → Table.find run_key id (runs_since cutoff rs) ≡ none
unfolding runs_since Table.find
find-runs_since id cutoff [] h = refl
find-runs_since id cutoff (r ∷ rs) h = ground (arith, find-runs_since id cutoff rs)

find-insert_by_time :
    (id : ℕ) (r : BenchRun) (rs : List BenchRun)
    → Table.find run_key id (r ∷ rs) ≡ none
    → Table.find run_key id (insert_by_time r rs) ≡ none
unfolding insert_by_time Table.find
find-insert_by_time id r [] h = h
find-insert_by_time id r (x ∷ rs) h = ground (arith, find-insert_by_time id r rs)

pub find-by_time :
    (id : ℕ) (rs : List BenchRun)
    → Table.find run_key id rs ≡ none
    → Table.find run_key id (by_time rs) ≡ none
unfolding by_time Table.find
find-by_time id [] h = refl
find-by_time id (r ∷ rs) h =
    ground (arith, find-by_time id rs, find-insert_by_time id r (by_time rs))
