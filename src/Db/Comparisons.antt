-- ===== src/Db/Comparisons.antt =====
-- Comparison results: `store_comparison_result`, `comparison_result` and `cachegrind_diff` of
-- ci-bench-runner/src/db.rs. JSON is a parameter: how a list of texts is written and read.
pub mod RoundTrip
pub mod Diffs
use rustls_bench_app.Base.{
  ℕ, ◌≡◌, Bool, true, false, ◌&&◌, Option, none, some, List, [], ◌∷◌, ◌++◌, map, ◌==◌,
  if◌then◌else◌,
}
use rustls_bench_app.Base.Text.{Text, text_eq}
use rustls_bench_app.Base.Table
use rustls_bench_app.Base.Result.{
  Result, ok, err, panic, ◌>>=◌, ok_or, unique_constraint, invalid_json_in_db,
}
use rustls_bench_app.Base.Action.{Action}
use rustls_bench_app.Db.Schema.{
  ScenarioKind, icount, walltime, memory, ScenarioDiff, discriminant, try_from, ComparisonRun,
  DiffRow, Database, comparison_key,
}

-- `serde_json` on lists of texts.
pub record Json : Type 0 where
  pub to_string : List Text → Text
  pub from_str : Text → Option (List Text)
  -- What was written is read back.
  pub round_trip : (l : List Text) → from_str (to_string l) ≡ some l

pub record ComparisonSubResult (Details : Type 0) : Type 0 where
  pub diffs : List ScenarioDiff
  pub scenarios_missing_in_baseline : List Text
  pub memory_details : Option Details

pub record ComparisonResult (Details : Type 0) : Type 0 where
  pub icount : ComparisonSubResult Details
  pub walltime : ComparisonSubResult Details
  pub memory : ComparisonSubResult Details

abbrev pub diff_row : ℕ → ScenarioDiff → DiffRow
diff_row id d = record {
  comparison_run_id = id;
  scenario_name = d.scenario_name;
  scenario_kind = discriminant d.scenario_kind;
  baseline_result = d.baseline_result;
  candidate_result = d.candidate_result;
  significance_threshold = d.significance_threshold;
  cachegrind_diff = d.cachegrind_diff;
}

-- `FromRow` of `ScenarioDiff`.
unfoldable pub decode_diff : DiffRow → Result ScenarioDiff
unfolding try_from
decode_diff x = do
  kind ← try_from x.scenario_kind
  ok (record {
    scenario_name = x.scenario_name;
    scenario_kind = kind;
    baseline_result = x.baseline_result;
    candidate_result = x.candidate_result;
    significance_threshold = x.significance_threshold;
    cachegrind_diff = x.cachegrind_diff;
  })

unfoldable pub decode_diffs : List DiffRow → Result (List ScenarioDiff)
decode_diffs [] = ok []
decode_diffs (x ∷ xs) = do d ← decode_diff x; rest ← decode_diffs xs; ok (d ∷ rest)

-- `WHERE comparison_run_id = ? AND scenario_kind = ?`
unfoldable pub diffs_of_kind : ℕ → ℕ → List DiffRow → List DiffRow
diffs_of_kind id kind [] = []
diffs_of_kind id kind (x ∷ xs) =
    if x.comparison_run_id == id && x.scenario_kind == kind
    then x ∷ diffs_of_kind id kind xs
    else diffs_of_kind id kind xs

unfoldable pub stored_diffs : ℕ → ScenarioKind → Database → Result (List ScenarioDiff)
unfolding decode_diffs diffs_of_kind
stored_diffs id kind db = decode_diffs (diffs_of_kind id (discriminant kind) db.scenario_diffs)

-- `WHERE baseline_commit = ? AND candidate_commit = ?`, the first row.
unfoldable pub find_run : Text → Text → List ComparisonRun → Option ComparisonRun
find_run baseline candidate [] = none
find_run baseline candidate (r ∷ rs) =
    if text_eq r.baseline_commit baseline && text_eq r.candidate_commit candidate
    then some r
    else find_run baseline candidate rs

-- The diff of the first row of one run with that scenario, if there is such a row.
unfoldable pub diff_of_scenario : ℕ → Text → List DiffRow → Option (Option Text)
diff_of_scenario id scenario [] = none
diff_of_scenario id scenario (x ∷ xs) =
    if x.comparison_run_id == id && text_eq x.scenario_name scenario
    then some x.cachegrind_diff
    else diff_of_scenario id scenario xs

-- The join, in the order of the runs and then of the diffs: SQL leaves open which row is first.
unfoldable pub cachegrind_diff_row :
    Text → Text → Text → List DiffRow → List ComparisonRun → Option (Option Text)
unfolding diff_of_scenario
cachegrind_diff_row baseline candidate scenario diffs [] = none
cachegrind_diff_row baseline candidate scenario diffs (r ∷ rs) =
    let here = diff_of_scenario r.id scenario diffs in
    let later = cachegrind_diff_row baseline candidate scenario diffs rs in
    if text_eq r.baseline_commit baseline && text_eq r.candidate_commit candidate
    then elim here [ none ↦ later | some d ↦ some d ]
    else later

unfoldable pub cachegrind_diff : Text → Text → Text → Database → Option Text
unfolding cachegrind_diff_row
cachegrind_diff baseline candidate scenario db =
    elim (cachegrind_diff_row baseline candidate scenario db.scenario_diffs db.comparison_runs) [
      | none ↦ none
      | some d ↦ d
    ]

module _ (json : Json) where
  -- An empty list is stored as NULL.
  unfoldable pub to_json_array : List Text → Option Text
  to_json_array [] = none
  to_json_array (x ∷ xs) = some (json.to_string (x ∷ xs))

  unfoldable pub from_json_array : Option Text → Result (List Text)
  from_json_array none = ok []
  from_json_array (some missing) = ok_or (json.from_str missing) invalid_json_in_db

  module _ {Details : Type 0} where
    abbrev pub new_comparison :
        (id now : ℕ) (baseline candidate : Text) → ComparisonResult Details → ComparisonRun
    new_comparison id now baseline candidate r = record {
      id = id;
      created_utc = now;
      baseline_commit = baseline;
      candidate_commit = candidate;
      icount_missing = to_json_array r.icount.scenarios_missing_in_baseline;
      walltime_missing = to_json_array r.walltime.scenarios_missing_in_baseline;
      memory_missing = to_json_array r.memory.scenarios_missing_in_baseline;
    }

    -- One transaction; the memory details are not stored.
    unfoldable pub store_comparison_result :
        (id now : ℕ) (baseline candidate : Text) → ComparisonResult Details → Action Database ℕ
    store_comparison_result id now baseline candidate r db =
        elim (Table.insert comparison_key (new_comparison id now baseline candidate r)
          db.comparison_runs) [
            | none ↦ (err unique_constraint, db)
            | some runs ↦ (
              ok id,
              record db {
                comparison_runs = runs;
                scenario_diffs =
                    db.scenario_diffs
                    ++ map (diff_row id) (r.icount.diffs ++ (r.walltime.diffs ++ r.memory.diffs));
              },
            )
          ]

    -- What is read back has no memory details.
    abbrev sub_result : List ScenarioDiff → List Text → ComparisonSubResult Details
    sub_result diffs missing = record {
      diffs = diffs;
      scenarios_missing_in_baseline = missing;
      memory_details = none;
    }

    unfoldable pub comparison_result :
        Text → Text → Database → Result (Option (ComparisonResult Details))
    unfolding find_run stored_diffs
    comparison_result baseline candidate db =
        elim (find_run baseline candidate db.comparison_runs) [
          | none ↦ ok none
          | some run ↦ do
            icount_missing ← from_json_array run.icount_missing
            walltime_missing ← from_json_array run.walltime_missing
            memory_missing ← from_json_array run.memory_missing
            icount_diffs ← stored_diffs run.id icount db
            walltime_diffs ← stored_diffs run.id walltime db
            memory_diffs ← stored_diffs run.id memory db
            ok (
                some (record {
                  icount = sub_result icount_diffs icount_missing;
                  walltime = sub_result walltime_diffs walltime_missing;
                  memory = sub_result memory_diffs memory_missing;
                }))
        ]
