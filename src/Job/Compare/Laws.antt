-- ===== src/Job/Compare/Laws.antt =====
-- What a comparison of two sets of measurements holds, scenario by scenario.
use mathlib.Core.Path.{subst}
use mathlib.Core.List.{append_assoc, append-nil, map-append}
use rustls_bench_app.Base.{
  ◌≡◌, inl, inr, refl, sym, ◌∙◌, All-imp, false, none, some, List, [], ◌∷◌, ◌++◌, map, All,
  All-append, Option-cases,
}
use rustls_bench_app.Base.Text.{Text}
use rustls_bench_app.Base.F64.{F64, lt, is_nan, max, max_ge_right, is_nan-max}
use rustls_bench_app.Base.Map.{Map, lookup}
use rustls_bench_app.Base.Result.{Result, ok, Result-cases}
use rustls_bench_app.Db.Schema.{ScenarioKind, ScenarioDiff}
use rustls_bench_app.Job.Compare.{
  get_or, cachegrind_diff_of, scenario_diff, compare_one, compare_loop, compare_results,
}

-- The scenarios of the candidate that the baseline does not have, and those that it has, in order.
abbrev pub missing_from : Map F64 → Map F64 → List Text
missing_from baseline [] = []
missing_from baseline ((s, v) ∷ m) = elim (lookup s baseline) [
  | none ↦ s ∷ missing_from baseline m
  | some b ↦ missing_from baseline m
]

abbrev pub shared_with : Map F64 → Map F64 → List (Text × F64 × F64)
shared_with baseline [] = []
shared_with baseline ((s, v) ∷ m) = elim (lookup s baseline) [
  | none ↦ shared_with baseline m
  | some b ↦ (s, b, v) ∷ shared_with baseline m
]

abbrev pub measured : ScenarioDiff → Text × F64 × F64
measured d = (d.scenario_name, d.baseline_result, d.candidate_result)

module _ (callgrind_diff : Text → Result Text) (baseline thresholds : Map F64) (kind : ScenarioKind)
    (default minimum : F64) where
  -- A diff's threshold is the calculated one or the default, and not under the minimum; its detailed
  -- diff is what the external programs gave for the scenario, for instruction counts alone.
  abbrev pub IsDiff : ScenarioDiff → Type 0
  IsDiff d =
      (d.scenario_kind ≡ kind)
      × (d.significance_threshold
          ≡ max (get_or (lookup d.scenario_name thresholds) default) minimum)
      × (cachegrind_diff_of callgrind_diff kind d.scenario_name ≡ ok d.cachegrind_diff)

  compare_loop_lem :
      (candidate : Map F64) (diffs : List ScenarioDiff) (missing : List Text)
      (out : List ScenarioDiff × List Text)
      → compare_loop callgrind_diff baseline thresholds kind default minimum candidate
          (diffs, missing)
        ≡ ok out
      → All IsDiff diffs
      → All IsDiff out.0
        × (map measured out.0 ≡ map measured diffs ++ shared_with baseline candidate)
        × (out.1 ≡ missing ++ missing_from baseline candidate)
  unfolding compare_loop compare_one
  compare_loop_lem [] diffs missing out h good =
      let e : (diffs, missing) ≡ out = cc in
      subst
        (λ o.
          All IsDiff o.0 × (map measured o.0 ≡ map measured diffs ++ []) × (o.1 ≡ missing ++ []))
        e (good, sym (append-nil (map measured diffs)), sym (append-nil missing))
  compare_loop_lem ((s, v) ∷ m) diffs missing out h good = elim (Option-cases (lookup s baseline)) [
    | inl absent ↦
        let (a, b, c) = compare_loop_lem m diffs (missing ++ s ∷ []) out (rw absent at h) good in
        rw (absent, shared_with, missing_from)
          (a, b, c ∙ append_assoc missing (s ∷ []) (missing_from baseline m))
    | inr (before, found) ↦ elim (Result-cases (cachegrind_diff_of callgrind_diff kind s)) [
      | inl (diff, e) ↦
          let d =
            scenario_diff callgrind_diff baseline thresholds kind default minimum s before v diff in
          let (a, b, c) =
            compare_loop_lem m (diffs ++ d ∷ []) missing out (rw (found, e) at h)
              (All-append IsDiff diffs (d ∷ []) good ((refl, refl, e), tt)) in
          let step : map measured (diffs ++ d ∷ []) ++ shared_with baseline m
              ≡ map measured diffs ++ (measured d ∷ shared_with baseline m) =
            rw (map-append measured diffs (d ∷ []))
              (append_assoc (map measured diffs) (measured d ∷ []) (shared_with baseline m)) in
          rw (found, shared_with, missing_from) (a, b ∙ step, c)
      | inr (inl (x, e)) ↦ absurd (cc (rw (found, e) at h))
      | inr (inr e) ↦ absurd (cc (rw (found, e) at h))
    ]
  ]

  -- A comparison that succeeds accounts for every scenario of the candidate, in order: those that
  -- the baseline has are in the diffs with both results, the others are listed as missing. Every
  -- diff has its kind, its threshold and its detailed diff.
  pub compare_results_lem :
      (candidate : Map F64) (diffs : List ScenarioDiff) (missing : List Text)
      → compare_results callgrind_diff baseline thresholds kind default minimum candidate
        ≡ ok (diffs, missing)
      → All IsDiff diffs
        × (map measured diffs ≡ shared_with baseline candidate)
        × (missing ≡ missing_from baseline candidate)
  unfolding compare_results
  compare_results_lem candidate diffs missing h =
      compare_loop_lem candidate [] [] (diffs, missing) h tt

  -- Every threshold is at least the minimum, and is a number.
  pub thresholds_bounded :
      (candidate : Map F64) (diffs : List ScenarioDiff) (missing : List Text)
      → is_nan minimum ≡ false
      → compare_results callgrind_diff baseline thresholds kind default minimum candidate
        ≡ ok (diffs, missing)
      → All
          (λ d.
            (lt d.significance_threshold minimum ≡ false)
            × (is_nan d.significance_threshold ≡ false))
          diffs
  thresholds_bounded candidate diffs missing number h =
      All-imp IsDiff
        (λ d.
          (lt d.significance_threshold minimum ≡ false) × (is_nan d.significance_threshold ≡ false))
        diffs
        (λ d good. rw good.1 (
          max_ge_right (get_or (lookup d.scenario_name thresholds) default) minimum,
          is_nan-max (get_or (lookup d.scenario_name thresholds) default) minimum number,
        ))
        (compare_results_lem candidate diffs missing h).0
