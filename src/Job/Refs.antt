-- ===== src/Job/Refs.antt =====
-- The comparison of two runs by their result files: the second half of `compare_refs` of
-- ci-bench-runner/src/job/bench_pr.rs.
pub mod Laws
use rustls_bench_app.Base.{ℕ, Bool, Option, none, some, List, [], ◌∷◌, ◌==◌, if◌then◌else◌}
use rustls_bench_app.Base.Text.{Text}
use rustls_bench_app.Base.F64.{F64, Arith}
use rustls_bench_app.Base.Map.{Map, lookup}
use rustls_bench_app.Base.Result.{Result, ok, err, panic, unwrap, ◌>>=◌}
use rustls_bench_app.Db.Schema.{
  BenchResult, ScenarioKind, icount, walltime, memory, ScenarioDiff, discriminant,
}
use rustls_bench_app.Db.Comparisons.{ComparisonSubResult, ComparisonResult}
use rustls_bench_app.Job.Files.{
  MemoryDetails, read_icount_results, read_walltime_results, maybe_read_memory_results,
}
use rustls_bench_app.Job.Compare.{compare_results, distill_memory}
use rustls_bench_app.Job.Thresholds.{calculate_significance_thresholds}
use rustls_bench_app.Job.World.{Details, ResultFiles, Env}

-- 0.002, 0.05, 0.01 and 0.001
abbrev pub icount_noise_threshold : F64
icount_noise_threshold = 0x3f60624dd2f1a9fc

abbrev pub default_walltime_noise_threshold : F64
default_walltime_noise_threshold = 0x3fa999999999999a

abbrev pub minimum_walltime_noise_threshold : F64
minimum_walltime_noise_threshold = 0x3f847ae147ae147b

abbrev pub memory_noise_threshold : F64
memory_noise_threshold = 0x3f50624dd2f1a9fc

pub record SignificanceThresholds : Type 0 where
  pub icount : Map F64
  pub walltime : Map F64
  pub memory : Map F64

-- The pairs behind the diffs. `unwrap` panics where a scenario has no details.
unfoldable pub memory_details_of :
    (baseline candidate : Map MemoryDetails) → List ScenarioDiff → Result Details
memory_details_of baseline candidate [] = ok []
memory_details_of baseline candidate (d ∷ ds) = do
  b ← unwrap (lookup d.scenario_name baseline)
  c ← unwrap (lookup d.scenario_name candidate)
  rest ← memory_details_of baseline candidate ds
  ok ((d.scenario_name, (b, c)) ∷ rest)

abbrev sub_result : List ScenarioDiff × List Text → Option Details → ComparisonSubResult Details
sub_result (diffs, missing) details = record {
  diffs = diffs;
  scenarios_missing_in_baseline = missing;
  memory_details = details;
}

module _ (env : Env) (thresholds : SignificanceThresholds) where
  open env use {fp, base_files, candidate_files, callgrind_diff}

  unfoldable pub compare_icounts : Result (List ScenarioDiff × List Text)
  compare_icounts = do
    baseline ← read_icount_results fp base_files.icounts
    candidate ← read_icount_results fp candidate_files.icounts
    compare_results callgrind_diff baseline thresholds.icount icount icount_noise_threshold
        icount_noise_threshold candidate

  unfoldable pub compare_walltimes : Result (List ScenarioDiff × List Text)
  compare_walltimes = do
    baseline ← read_walltime_results fp base_files.walltimes
    candidate ← read_walltime_results fp candidate_files.walltimes
    compare_results callgrind_diff baseline thresholds.walltime walltime
        default_walltime_noise_threshold minimum_walltime_noise_threshold candidate

  -- With the details of each scenario that both runs have.
  unfoldable pub compare_memory : Result ((List ScenarioDiff × List Text) × Details)
  unfolding memory_details_of
  compare_memory = do
    baseline ← maybe_read_memory_results base_files.memory
    candidate ← maybe_read_memory_results candidate_files.memory
    compared ←
        compare_results callgrind_diff (distill_memory fp baseline) thresholds.memory memory
          memory_noise_threshold memory_noise_threshold (distill_memory fp candidate)
    details ← memory_details_of baseline candidate compared.0
    ok (compared, details)

  unfoldable pub compare_files : Result (ComparisonResult Details)
  unfolding compare_icounts compare_walltimes compare_memory
  compare_files = do
    icounts ← compare_icounts
    walltimes ← compare_walltimes
    (mem, details) ← compare_memory
    ok (record {
      icount = sub_result icounts none;
      walltime = sub_result walltimes none;
      memory = sub_result mem (some details);
    })

-- `historical_results.filter(|r| r.scenario_kind == kind)`
unfoldable pub of_kind : ScenarioKind → List BenchResult → List BenchResult
unfolding discriminant
of_kind kind [] = []
of_kind kind (r ∷ rs) =
    if discriminant r.scenario_kind == discriminant kind
    then r ∷ of_kind kind rs
    else of_kind kind rs

unfoldable pub all_thresholds : Arith → List BenchResult → Result SignificanceThresholds
unfolding of_kind
all_thresholds fp history = do
  i ← calculate_significance_thresholds fp (of_kind icount history)
  w ← calculate_significance_thresholds fp (of_kind walltime history)
  m ← calculate_significance_thresholds fp (of_kind memory history)
  ok (record { icount = i; walltime = w; memory = m })
