-- ===== src/Tests/Measurements.antt =====
-- Measurements, their comparison and its report.
use rustls_bench_app.Base.{
  not, ◌&&◌, Bool-cases, inl, inr, true, ℕ, ◌≡◌, ◌≢◌, ◌<◌, ◌≤◌, ◌*◌, refl, some, List, [], ◌∷◌, map,
  All, length, ltb, arith,
}
use rustls_bench_app.Base.Text.{Text, codes, text_eq}
use rustls_bench_app.Base.F64.{F64, is_nan, lt, max}
use rustls_bench_app.Base.Map.{Map, lookup}
use rustls_bench_app.Base.Sort.{count_if, SameItems}
use rustls_bench_app.Base.Result.{Result, ok, panic}
use rustls_bench_app.Db.Schema.{BenchResult, icount, walltime, ScenarioDiff}
use rustls_bench_app.Job.World.{Env}
use rustls_bench_app.Job.Callgrind.{Tools, callgrind_diff, callgrind_diff-ne-panic}
use rustls_bench_app.Job.Files.{official_walltime}
use rustls_bench_app.Job.Files.Walltimes.{official_walltime-median}
use rustls_bench_app.Job.Compare.{compare_results, compare_loop, compare_one, cachegrind_diff_of}
use rustls_bench_app.Job.Compare.Laws.{
  IsDiff, missing_from, shared_with, measured, compare_results_lem,
}
use rustls_bench_app.Job.Refs.{SignificanceThresholds, compare_files}
use rustls_bench_app.Job.Refs.Laws.{compare_files_returns}
use rustls_bench_app.Job.Split.{diff, diff_ratio, split_on_threshold}
use rustls_bench_app.Job.Compare.Reports.{report_of, report_ignores_order}
use rustls_bench_app.Job.Split.Partition.{stays_below, split_on_threshold-count_if}
use rustls_bench_app.Job.Thresholds.{historic_changes, calculate_significance_thresholds}
use rustls_bench_app.Job.Thresholds.Laws.{
  results_of, ThresholdOf, IsMeasurable, calculate_significance_thresholds_lem,
}
use rustls_bench_app.Tests.World.{test_env, test_fp}

abbrev walltimes : List ℕ
walltimes = 30 ∷ 10 ∷ 20 ∷ []

official_walltime-median_example :
    (m : ℕ) × (official_walltime walltimes ≡ ok m)
    × (2 * count_if (λ x. ltb x m) walltimes ≤ length walltimes)
    × (2 * count_if (λ x. ltb m x) walltimes < length walltimes)
official_walltime-median_example = official_walltime-median 30 (10 ∷ 20 ∷ [])

abbrev before : Map F64
before = (codes "handshake", 1000) ∷ []

abbrev after : Map F64
after = (codes "handshake", 2000) ∷ (codes "resume", 500) ∷ []

abbrev diff_text : Text → Result Text
diff_text scenario = ok scenario

abbrev pub handshake_diff : ScenarioDiff
handshake_diff = record {
  scenario_name = codes "handshake";
  scenario_kind = icount;
  baseline_result = 1000;
  candidate_result = 2000;
  significance_threshold = 0;
  cachegrind_diff = some (codes "handshake");
}

compare_results_lem_example :
    All (IsDiff diff_text before [] icount 0 0) (handshake_diff ∷ [])
    × (measured handshake_diff ∷ [] ≡ shared_with before after)
    × (codes "resume" ∷ [] ≡ missing_from before after)
unfolding compare_results compare_loop compare_one lookup text_eq cachegrind_diff_of max lt
compare_results_lem_example =
    compare_results_lem diff_text before [] icount 0 0 after (handshake_diff ∷ [])
      (codes "resume" ∷ []) refl

abbrev no_thresholds : SignificanceThresholds
no_thresholds = record { icount = []; walltime = []; memory = [] }

-- The comparison with the diff of `callgrind_diff`, whose tools print nothing.
abbrev silent : Tools
silent = record {
  output = λ program args. some (record { success = true; stdout = [] });
  from_utf8 = λ bytes. some [];
}

abbrev callgrind_env : Env
callgrind_env = record test_env { callgrind_diff = callgrind_diff silent (codes "out") }

compare_files_returns_example : compare_files callgrind_env no_thresholds ≢ panic
compare_files_returns_example =
    compare_files_returns callgrind_env no_thresholds
      (λ scenario. callgrind_diff-ne-panic silent (codes "out") scenario)

abbrev turned : Map F64
turned = (codes "resume", 500) ∷ (codes "handshake", 2000) ∷ []

same_measurements : SameItems after turned
same_measurements p = omega arith

report_ignores_order_example :
    report_of diff_text before [] icount 0 0 test_fp after
    ≡ report_of diff_text before [] icount 0 0 test_fp turned
report_ignores_order_example =
    report_ignores_order diff_text before [] icount 0 0 test_fp after turned same_measurements

-- The same result as before.
abbrev small_diff : ScenarioDiff
small_diff = record handshake_diff { candidate_result = 1000; significance_threshold = 1 }

split_on_threshold-count_if_example :
    (count_if (λ d. true) (split_on_threshold test_fp (handshake_diff ∷ small_diff ∷ [])).0
      ≡ count_if (λ d. not (stays_below test_fp d) && true) (handshake_diff ∷ small_diff ∷ []))
    × (count_if (λ d. true) (split_on_threshold test_fp (handshake_diff ∷ small_diff ∷ [])).1
        ≡ count_if (λ d. stays_below test_fp d && true) (handshake_diff ∷ small_diff ∷ []))
unfolding diff_ratio is_nan diff
split_on_threshold-count_if_example =
    split_on_threshold-count_if test_fp (handshake_diff ∷ small_diff ∷ []) (refl, (refl, tt))
      (λ d. true)

abbrev result_of : ℕ → BenchResult
result_of n = record { scenario_name = codes "handshake"; scenario_kind = walltime; result = n }

abbrev history : List BenchResult
history = map result_of (100 ∷ 101 ∷ 99 ∷ 100 ∷ 120 ∷ 100 ∷ 98 ∷ 100 ∷ 101 ∷ 100 ∷ [])

measured_once : (name : Text) → IsMeasurable test_fp (results_of name history)
unfolding historic_changes is_nan
measured_once name = elim (Bool-cases (text_eq (codes "handshake") name)) [
  | inl e ↦ rw e (refl, (refl, (refl, (refl, (refl, (refl, (refl, (refl, (refl, tt)))))))))
  | inr e ↦ rw e tt
]

calculate_significance_thresholds_lem_example :
    (out : Map F64) × (calculate_significance_thresholds test_fp history ≡ ok out)
    × ((name : Text) → ThresholdOf test_fp (results_of name history) (lookup name out))
calculate_significance_thresholds_lem_example =
    calculate_significance_thresholds_lem test_fp history (λ name enough. measured_once name)
