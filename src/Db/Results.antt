-- ===== src/Db/Results.antt =====
-- The results of benchmark runs on main, and their history: `store_run_results` and
-- `result_history` of ci-bench-runner/src/db.rs.
pub mod Rows
pub mod History
use rustls_bench_app.Base.{ℕ, none, some, List, [], ◌∷◌, ◌++◌, map, ltb, leb, ◌==◌, if◌then◌else◌}
use rustls_bench_app.Base.Text.{Text}
use rustls_bench_app.Base.F64.{F64}
use rustls_bench_app.Base.Table
use rustls_bench_app.Base.Result.{Result, ok, err, ◌>>=◌, unique_constraint}
use rustls_bench_app.Base.Action.{Action}
use rustls_bench_app.Db.Schema.{
  BenchRun, ResultRow, BenchResult, ScenarioKind, discriminant, try_from, Database, run_key,
}

abbrev pub result_row : ℕ → Text × ScenarioKind × F64 → ResultRow
result_row run_id (name, kind, result) = record {
  bench_run_id = run_id;
  scenario_name = name;
  scenario_kind = discriminant kind;
  result = result;
}

abbrev pub new_run : (id now : ℕ) → BenchRun
new_run id now = record { id = id; created_utc = now }

-- One transaction: the run, then a row for each result.
unfoldable pub store_run_results :
    (id now : ℕ) (results : List (Text × ScenarioKind × F64)) → Action Database ℕ
store_run_results id now results db = elim (Table.insert run_key (new_run id now) db.bench_runs) [
  | none ↦ (err unique_constraint, db)
  | some runs ↦ (
    ok id,
    record db {
      bench_runs = runs;
      bench_results = db.bench_results ++ map (result_row id) results;
    },
  )
]

-- `WHERE created_utc > cutoff`
unfoldable pub runs_since : ℕ → List BenchRun → List BenchRun
runs_since cutoff [] = []
runs_since cutoff (r ∷ rs) =
    if ltb cutoff r.created_utc then r ∷ runs_since cutoff rs else runs_since cutoff rs

-- `ORDER BY created_utc`
unfoldable pub insert_by_time : BenchRun → List BenchRun → List BenchRun
insert_by_time r [] = r ∷ []
insert_by_time r (s ∷ rs) =
    if leb r.created_utc s.created_utc then r ∷ s ∷ rs else s ∷ insert_by_time r rs

unfoldable pub by_time : List BenchRun → List BenchRun
unfolding insert_by_time
by_time [] = []
by_time (r ∷ rs) = insert_by_time r (by_time rs)

-- `ON id = bench_run_id`
unfoldable pub rows_of_run : List ResultRow → ℕ → List ResultRow
rows_of_run [] id = []
rows_of_run (x ∷ xs) id = if x.bench_run_id == id then x ∷ rows_of_run xs id else rows_of_run xs id

unfoldable pub rows_of_runs : List ResultRow → List BenchRun → List ResultRow
unfolding rows_of_run
rows_of_runs rows [] = []
rows_of_runs rows (r ∷ rs) = rows_of_run rows r.id ++ rows_of_runs rows rs

-- `FromRow` of `BenchResult`, row by row: an unknown kind is an error.
unfoldable pub decode_result : ResultRow → Result BenchResult
unfolding try_from
decode_result x = do
  kind ← try_from x.scenario_kind
  ok (record { scenario_name = x.scenario_name; scenario_kind = kind; result = x.result })

unfoldable pub decode_results : List ResultRow → Result (List BenchResult)
decode_results [] = ok []
decode_results (x ∷ xs) = do r ← decode_result x; rest ← decode_results xs; ok (r ∷ rest)

-- The rows come in the order that the subquery asks for.
unfoldable pub result_history : (cutoff : ℕ) → Database → Result (List BenchResult)
unfolding runs_since by_time rows_of_runs decode_results
result_history cutoff db =
    decode_results (rows_of_runs db.bench_results (by_time (runs_since cutoff db.bench_runs)))
