-- ===== src/Db/Comparisons/Diffs.antt =====
-- `cachegrind_diff` after `store_comparison_result`: ci-bench-runner/src/db.rs.
use rustls_bench_app.Base.{
  ℕ, ◌≡◌, ◌∙◌, refl, ap, none, some, Option, List, [], ◌∷◌, ◌++◌, map, arith, if◌then◌else◌,
}
use rustls_bench_app.Base.Text.{Text, text_eq, text_eq_refl}
use rustls_bench_app.Base.Table
use rustls_bench_app.Db.Schema.{ScenarioDiff, ComparisonRun, DiffRow, Database, comparison_key}
use rustls_bench_app.Db.Comparisons.{
  Json, ComparisonResult, diff_row, find_run, diff_of_scenario, cachegrind_diff_row,
  cachegrind_diff, new_comparison, store_comparison_result,
}
use rustls_bench_app.Db.Comparisons.RoundTrip.{IsFresh}

-- The first diff of a scenario.
abbrev pub first_diff : Text → List ScenarioDiff → Option ScenarioDiff
first_diff scenario [] = none
first_diff scenario (d ∷ ds) =
    if text_eq d.scenario_name scenario then some d else first_diff scenario ds

diff_of_scenario-fresh :
    (id : ℕ) (scenario : Text) (old ds : List DiffRow)
    → IsFresh id old
    → diff_of_scenario id scenario (old ++ ds) ≡ diff_of_scenario id scenario ds
unfolding diff_of_scenario
diff_of_scenario-fresh id scenario [] ds h = refl
diff_of_scenario-fresh id scenario (x ∷ old) ds h =
    ground (arith, h.0, diff_of_scenario-fresh id scenario old ds h.1)

diff_of_scenario-rows :
    (id : ℕ) (scenario : Text) (ds es : List ScenarioDiff) (d : ScenarioDiff)
    → first_diff scenario ds ≡ some d
    → diff_of_scenario id scenario (map (diff_row id) (ds ++ es)) ≡ some d.cachegrind_diff
unfolding diff_of_scenario
diff_of_scenario-rows id scenario [] es d h = cc
diff_of_scenario-rows id scenario (x ∷ ds) es d h =
    ground (arith, diff_of_scenario-rows id scenario ds es d)

cachegrind_diff_row-last :
    (scenario : Text) (diffs : List DiffRow) (rs : List ComparisonRun) (r : ComparisonRun)
    (d : Option Text)
    → find_run r.baseline_commit r.candidate_commit rs ≡ none
    → diff_of_scenario r.id scenario diffs ≡ some d
    → cachegrind_diff_row r.baseline_commit r.candidate_commit scenario diffs (rs ++ r ∷ [])
      ≡ some d
unfolding cachegrind_diff_row find_run
cachegrind_diff_row-last scenario diffs [] r d h e =
    rw (text_eq_refl r.baseline_commit, text_eq_refl r.candidate_commit, e) refl
cachegrind_diff_row-last scenario diffs (x ∷ rs) r d h e =
    ground (arith, cachegrind_diff_row-last scenario diffs rs r d)

-- The first comparison that is stored for two commits is where the detailed diff of a scenario with an
-- instruction count is read from.
pub cachegrind_diff-store :
    {Details : Type 0} (json : Json) (id now : ℕ) (baseline candidate scenario : Text)
    (r : ComparisonResult Details) (db : Database) (d : ScenarioDiff)
    → Table.find comparison_key id db.comparison_runs ≡ none
    → IsFresh id db.scenario_diffs
    → find_run baseline candidate db.comparison_runs ≡ none
    → first_diff scenario r.icount.diffs ≡ some d
    → cachegrind_diff baseline candidate scenario
        (store_comparison_result json id now baseline candidate r db).1
      ≡ d.cachegrind_diff
unfolding cachegrind_diff store_comparison_result
cachegrind_diff-store json id now baseline candidate scenario r db d new fresh first here =
    let run = new_comparison json id now baseline candidate r in
    let rows =
      db.scenario_diffs
      ++ map (diff_row id) (r.icount.diffs ++ (r.walltime.diffs ++ r.memory.diffs)) in
    let found : diff_of_scenario id scenario rows ≡ some d.cachegrind_diff =
      diff_of_scenario-fresh id scenario db.scenario_diffs _ fresh
      ∙ diff_of_scenario-rows id scenario r.icount.diffs (r.walltime.diffs ++ r.memory.diffs) d
          here in
    let after : Database = record db {
      comparison_runs = db.comparison_runs ++ run ∷ [];
      scenario_diffs = rows;
    } in
    let stored : (store_comparison_result json id now baseline candidate r db).1 ≡ after =
      rw (store_comparison_result, Table.insert-fresh comparison_key run db.comparison_runs new)
        refl in
    let read : cachegrind_diff baseline candidate scenario after ≡ d.cachegrind_diff =
      rw
        (
          cachegrind_diff,
          cachegrind_diff_row-last scenario rows db.comparison_runs run d.cachegrind_diff first
              found,
        )
        refl in
    ap (cachegrind_diff baseline candidate scenario) stored ∙ read
