-- ===== src/Job/Thresholds.antt =====
-- `calculate_significance_thresholds` of ci-bench-runner/src/job/bench_pr.rs.
pub mod Laws
use rustls_bench_app.Base.{
  ℕ, ◌+◌, ◌*◌, ◌/◌, ◌≡◌, Bool, true, false, ◌||◌, Option, none, some, List, [], ◌∷◌, ◌++◌, ltb,
  if◌then◌else◌, length, get_elem?,
}
use rustls_bench_app.Base.Text.{Text, text_eq}
use rustls_bench_app.Base.F64.{F64, abs, is_nan, lt, Arith}
use rustls_bench_app.Base.Map.{Map, lookup}
use rustls_bench_app.Base.Sort.{sort}
use rustls_bench_app.Base.Result.{Result, ok, err, panic, ◌>>=◌, unwrap}
use rustls_bench_app.Db.Schema.{BenchResult}

-- `entry(name).or_insert(Vec::new()).push(result)`
unfoldable pub push_result : Text → F64 → Map (List F64) → Map (List F64)
push_result name result [] = (name, result ∷ []) ∷ []
push_result name result ((j, rs) ∷ m) =
    if text_eq j name then (j, rs ++ result ∷ []) ∷ m else (j, rs) ∷ push_result name result m

unfoldable pub results_by_name : List BenchResult → Map (List F64) → Map (List F64)
unfolding push_result
results_by_name [] m = m
results_by_name (r ∷ rs) m = results_by_name rs (push_result r.scenario_name r.result m)

abbrev pub any_nan : List F64 → Bool
any_nan [] = false
any_nan (x ∷ l) = is_nan x || any_nan l

module _ (fp : Arith) where
  abbrev pub change : F64 → F64 → F64
  change x y = fp.div (abs (fp.sub x y)) x

  -- `windows(2)`
  unfoldable pub historic_changes : List F64 → List F64
  historic_changes [] = []
  historic_changes (x ∷ []) = []
  historic_changes (x ∷ y ∷ rest) = change x y ∷ historic_changes (y ∷ rest)

  abbrev pub iqr_multiplier : F64
  iqr_multiplier = 0x4008000000000000

  -- Indexing past the end would panic.
  unfoldable pub threshold_of_changes : List F64 → Result F64
  threshold_of_changes changes = do
    q1 ← unwrap (get_elem? changes (length changes / 4))
    q3 ← unwrap (get_elem? changes ((length changes * 3) / 4))
    ok (fp.add q3 (fp.mul (fp.sub q3 q1) iqr_multiplier))

  -- `sort_unstable_by`: of the numbers that are no NaN, only the two zeros compare as equal.
  unfoldable pub sort_changes : List F64 → Result (List F64)
  sort_changes changes =
      if any_nan changes then unwrap (fp.sort_unordered changes) else ok (sort lt changes)

  unfoldable pub threshold_of : List F64 → Result F64
  unfolding sort_changes
  threshold_of results = do
    changes ← sort_changes (historic_changes results)
    threshold_of_changes changes

  -- A name with fewer than ten results is passed over.
  unfoldable pub thresholds_of : Map (List F64) → Result (Map F64)
  thresholds_of [] = ok []
  thresholds_of ((name, results) ∷ m) =
      let rest = thresholds_of m in
      let all = (do t ← threshold_of results; others ← rest; ok ((name, t) ∷ others)) in
      if ltb (length results) 10 then rest else all

  unfoldable pub calculate_significance_thresholds : List BenchResult → Result (Map F64)
  calculate_significance_thresholds historical_results =
      thresholds_of (results_by_name historical_results [])
