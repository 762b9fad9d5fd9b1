-- ===== src/Job/Compare.antt =====
-- `compare_results` of ci-bench-runner/src/job/bench_pr.rs. The maps are lists in the order in which they
-- are iterated; `callgrind_diff` runs external programs, and is a parameter.
pub mod Laws
pub mod Order
pub mod Reports
use rustls_bench_app.Base.{
  ℕ, ◌≡◌, refl, Bool, true, false, Option, none, some, List, [], ◌∷◌, ◌++◌, map, if◌then◌else◌,
}
use rustls_bench_app.Base.Text.{Text}
use rustls_bench_app.Base.F64.{F64, max, Arith}
use rustls_bench_app.Base.Map.{Map, lookup}
use rustls_bench_app.Base.Result.{Result, ok, err, panic, ◌>>=◌}
use rustls_bench_app.Db.Schema.{ScenarioKind, icount, walltime, memory, ScenarioDiff}
use rustls_bench_app.Job.Files.{MemoryDetails, comparison_basis}

abbrev pub get_or : Option F64 → F64 → F64
get_or none d = d
get_or (some x) d = x

-- Only instruction counts have a detailed diff.
unfoldable pub cachegrind_diff_of :
    (Text → Result Text) → ScenarioKind → Text → Result (Option Text)
cachegrind_diff_of callgrind_diff icount scenario = do d ← callgrind_diff scenario; ok (some d)
cachegrind_diff_of callgrind_diff walltime scenario = ok none
cachegrind_diff_of callgrind_diff memory scenario = ok none

module _ (callgrind_diff : Text → Result Text) (baseline thresholds : Map F64) (kind : ScenarioKind)
    (default_noise_threshold minimum_noise_threshold : F64) where
  abbrev pub threshold_for : Text → F64
  threshold_for scenario =
      max (get_or (lookup scenario thresholds) default_noise_threshold) minimum_noise_threshold

  abbrev pub scenario_diff :
      Text → (baseline_result candidate_result : F64) → Option Text → ScenarioDiff
  scenario_diff scenario before after diff = record {
    scenario_name = scenario;
    scenario_kind = kind;
    baseline_result = before;
    candidate_result = after;
    significance_threshold = threshold_for scenario;
    cachegrind_diff = diff;
  }

  -- The body of the loop for one scenario, given what the baseline has for it.
  unfoldable pub compare_one :
      Text
      → F64
      → Option F64
      → List ScenarioDiff × List Text
      → Result (List ScenarioDiff × List Text)
  compare_one scenario result none (diffs, missing) = ok (diffs, missing ++ scenario ∷ [])
  compare_one scenario result (some before) (diffs, missing) = do
    diff ← cachegrind_diff_of callgrind_diff kind scenario
    ok (diffs ++ scenario_diff scenario before result diff ∷ [], missing)

  unfoldable pub compare_loop :
      Map F64 → List ScenarioDiff × List Text → Result (List ScenarioDiff × List Text)
  compare_loop [] acc = ok acc
  compare_loop ((scenario, result) ∷ candidate) acc = do
    next ← compare_one scenario result (lookup scenario baseline) acc
    compare_loop candidate next

  unfoldable pub compare_results : (candidate : Map F64) → Result (List ScenarioDiff × List Text)
  compare_results candidate = compare_loop candidate ([], [])

-- `distill_memory`
unfoldable pub distill_memory : Arith → Map MemoryDetails → Map F64
unfolding comparison_basis
distill_memory fp [] = []
distill_memory fp ((scenario, details) ∷ m) =
    (scenario, fp.of_uint (comparison_basis details)) ∷ distill_memory fp m
