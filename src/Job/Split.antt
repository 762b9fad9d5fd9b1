-- ===== src/Job/Split.antt =====
-- `split_on_threshold` and `Diffs::from_sub_result` of ci-bench-runner/src/job/bench_pr.rs, with
-- `diff_ratio` of ci-bench-runner/src/db.rs; and the unit in which walltimes are reported.
pub mod Laws
pub mod Reference
pub mod Partition
use rustls_bench_app.Base.{ℕ, ◌≡◌, Bool, true, false, Option, List, [], ◌∷◌, ◌++◌, if◌then◌else◌}
use rustls_bench_app.Base.Text.{Text}
use rustls_bench_app.Base.F64.{F64, abs, lt, max, Arith}
use rustls_bench_app.Base.Map.{Map}
use rustls_bench_app.Base.Sort.{sort}
use rustls_bench_app.Db.Schema.{ScenarioDiff}
use rustls_bench_app.Db.Comparisons.{ComparisonSubResult}

pub record Diffs (Details : Type 0) : Type 0 where
  pub significant_diffs : List ScenarioDiff
  pub negligible_diffs : List ScenarioDiff
  pub scenarios_missing_in_baseline : List Text
  pub memory_details : Option Details

module _ (fp : Arith) where
  unfoldable pub diff : ScenarioDiff → F64
  diff d = fp.sub d.candidate_result d.baseline_result

  unfoldable pub diff_ratio : ScenarioDiff → F64
  diff_ratio d = fp.div (diff d) d.baseline_result

  -- The test of the loop, and the order of the sort: the larger ratio first.
  unfoldable pub is_negligible : ScenarioDiff → Bool
  is_negligible d = lt (abs (diff_ratio d)) d.significance_threshold

  abbrev pub larger_ratio : ScenarioDiff → ScenarioDiff → Bool
  larger_ratio d e = lt (abs (diff_ratio e)) (abs (diff_ratio d))

  -- `sort_by`, as it is where the ratios are numbers.
  unfoldable pub sort_by_abs_diff_ratio : List ScenarioDiff → List ScenarioDiff
  sort_by_abs_diff_ratio = sort larger_ratio

  -- The loop pushes each diff to the end of one of the two lists.
  unfoldable pub split_loop :
      List ScenarioDiff
      → (significant negligible : List ScenarioDiff) → List ScenarioDiff × List ScenarioDiff
  split_loop [] significant negligible = (significant, negligible)
  split_loop (d ∷ ds) significant negligible =
      let small = split_loop ds significant (negligible ++ d ∷ []) in
      let large = split_loop ds (significant ++ d ∷ []) negligible in
      if is_negligible d then small else large

  unfoldable pub split_on_threshold : List ScenarioDiff → List ScenarioDiff × List ScenarioDiff
  split_on_threshold diffs =
      let (significant, negligible) = split_loop diffs [] [] in
      (sort_by_abs_diff_ratio significant, sort_by_abs_diff_ratio negligible)

  unfoldable pub from_sub_result : {Details : Type 0} → ComparisonSubResult Details → Diffs Details
  from_sub_result r =
      let (significant, negligible) = split_on_threshold r.diffs in
      record {
        significant_diffs = significant;
        negligible_diffs = negligible;
        scenarios_missing_in_baseline = r.scenarios_missing_in_baseline;
        memory_details = r.memory_details;
      }

pub data TimeUnit : Type 0 where
  nanoseconds microseconds milliseconds seconds : TimeUnit

abbrev pub thousand : F64
thousand = 0x408f400000000000

abbrev pub million : F64
million = 0x412e848000000000

abbrev pub billion : F64
billion = 0x41cdcd6500000000

unfoldable pub common_time_unit : F64 → F64 → TimeUnit
common_time_unit x y =
    let most = max x y in
    if lt most thousand
    then nanoseconds
    else if lt most million
    then microseconds
    else if lt most billion
    then milliseconds
    else seconds
