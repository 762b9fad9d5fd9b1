-- ===== src/Job/Compare/Order.antt =====
-- The order in which the candidate's map is iterated: `compare_results` of
-- ci-bench-runner/src/job/bench_pr.rs.
use rustls_bench_app.Base.{
  ◌+◌, ◌≡◌, inl, inr, refl, Bool, true, false, Option, none, some, List, [], ◌∷◌, ◌++◌, arith,
  Option-cases, if◌then◌else◌,
}
use rustls_bench_app.Base.Text.{Text}
use rustls_bench_app.Base.F64.{F64}
use rustls_bench_app.Base.Map.{Map, lookup}
use rustls_bench_app.Base.Result.{Result, ok, err, panic, Result-cases}
use rustls_bench_app.Base.Sort.{count_if, SameItems, count_if-append}
use rustls_bench_app.Db.Schema.{ScenarioKind, ScenarioDiff}
use rustls_bench_app.Job.Compare.{
  cachegrind_diff_of, scenario_diff, compare_one, compare_loop, compare_results,
}

module _ (callgrind_diff : Text → Result Text) (baseline thresholds : Map F64) (kind : ScenarioKind)
    (default minimum : F64) where
  abbrev item_diff : Text → (before after : F64) → Result (Option Text) → Option ScenarioDiff
  item_diff s before after (ok d) =
      some (scenario_diff callgrind_diff baseline thresholds kind default minimum s before after d)
  item_diff s before after (err e) = none
  item_diff s before after panic = none

  abbrev passes : (ScenarioDiff → Bool) → Option ScenarioDiff → Bool
  passes p none = false
  passes p (some d) = p d

  -- A scenario's diff passes a test, is missing in the baseline under a name that passes one, or
  -- cannot be made.
  abbrev diff_passes : (ScenarioDiff → Bool) → Text × F64 → Bool
  diff_passes p (s, v) = elim (lookup s baseline) [
    | none ↦ false
    | some b ↦ passes p (item_diff s b v (cachegrind_diff_of callgrind_diff kind s))
  ]

  abbrev missing_passes : (Text → Bool) → Text × F64 → Bool
  missing_passes p (s, v) = elim (lookup s baseline) [ none ↦ p s | some b ↦ false ]

  abbrev is_ok_diff : Result (Option Text) → Bool
  is_ok_diff (ok d) = true
  is_ok_diff (err e) = false
  is_ok_diff panic = false

  abbrev fails : Text × F64 → Bool
  fails (s, v) = elim (lookup s baseline) [
    | none ↦ false
    | some b ↦ if is_ok_diff (cachegrind_diff_of callgrind_diff kind s) then false else true
  ]

  abbrev loop : Map F64 → List ScenarioDiff × List Text → Result (List ScenarioDiff × List Text)
  loop = compare_loop callgrind_diff baseline thresholds kind default minimum

  loop_counts :
      (candidate : Map F64) (diffs : List ScenarioDiff) (missing : List Text)
      (out : List ScenarioDiff × List Text)
      → loop candidate (diffs, missing) ≡ ok out
      → (count_if fails candidate ≡ 0)
        × ((p : ScenarioDiff → Bool)
            → count_if p out.0 ≡ count_if p diffs + count_if (diff_passes p) candidate)
        × ((p : Text → Bool)
            → count_if p out.1 ≡ count_if p missing + count_if (missing_passes p) candidate)
  unfolding compare_loop compare_one
  loop_counts [] diffs missing out h =
      let e : (diffs, missing) ≡ out = cc in rw (← e) (refl, λ p. omega arith, λ p. omega arith)
  loop_counts ((s, v) ∷ m) diffs missing out h = elim (Option-cases (lookup s baseline)) [
    | inl absent ↦
        let (a, b, c) = loop_counts m diffs (missing ++ s ∷ []) out (rw absent at h) in
        (
          ground (arith, absent, a),
          λ p. ground (arith, absent, b p),
          λ p. ground (arith, absent, c p, count_if-append p missing (s ∷ [])),
        )
    | inr (before, found) ↦ elim (Result-cases (cachegrind_diff_of callgrind_diff kind s)) [
      | inl (diff, e) ↦
          let d =
            scenario_diff callgrind_diff baseline thresholds kind default minimum s before v diff in
          let (a, b, c) = loop_counts m (diffs ++ d ∷ []) missing out (rw (found, e) at h) in
          (
            ground (arith, found, e, a),
            λ p. ground (arith, found, e, b p, count_if-append p diffs (d ∷ [])),
            λ p. ground (arith, found, e, c p),
          )
      | inr (inl (x, e)) ↦ absurd (cc (rw (found, e) at h))
      | inr (inr e) ↦ absurd (cc (rw (found, e) at h))
    ]
  ]

  loop_succeeds :
      (candidate : Map F64) (acc : List ScenarioDiff × List Text)
      → count_if fails candidate ≡ 0
      → (out : List ScenarioDiff × List Text) × (loop candidate acc ≡ ok out)
  unfolding compare_loop compare_one
  loop_succeeds [] acc h = (acc, refl)
  loop_succeeds ((s, v) ∷ m) (diffs, missing) h = elim (Option-cases (lookup s baseline)) [
    | inl absent ↦
        rw (absent, compare_loop, compare_one)
          (loop_succeeds m (diffs, missing ++ s ∷ []) (ground arith))
    | inr (before, found) ↦ elim (Result-cases (cachegrind_diff_of callgrind_diff kind s)) [
      | inl (diff, e) ↦
          let d =
            scenario_diff callgrind_diff baseline thresholds kind default minimum s before v diff in
          rw (found, e, compare_loop, compare_one)
            (loop_succeeds m (diffs ++ d ∷ [], missing) (ground arith))
      | inr (inl (x, e)) ↦ absurd (ground arith)
      | inr (inr e) ↦ absurd (ground arith)
    ]
  ]

  -- Where a comparison succeeds, it also succeeds when the candidate's map is iterated in any other
  -- order, and has the same diffs and the same missing scenarios.
  pub compare_results-SameItems :
      (candidate candidate' : Map F64) (diffs : List ScenarioDiff) (missing : List Text)
      → SameItems candidate candidate'
      → compare_results callgrind_diff baseline thresholds kind default minimum candidate
        ≡ ok (diffs, missing)
      → (diffs' : List ScenarioDiff) × (missing' : List Text) × (compare_results callgrind_diff
            baseline thresholds kind default minimum candidate'
          ≡ ok (diffs', missing'))
        × SameItems diffs diffs'
        × SameItems missing missing'
  unfolding compare_results
  compare_results-SameItems candidate candidate' diffs missing same h =
      let (good, a, b) = loop_counts candidate [] [] (diffs, missing) h in
      let ((diffs', missing'), h') =
        loop_succeeds candidate' ([], []) (omega (arith, good, same fails)) in
      let (good', a', b') = loop_counts candidate' [] [] (diffs', missing') h' in
      (
        diffs',
        missing',
        h',
        λ p. omega (arith, a p, a' p, same (diff_passes p)),
        λ p. omega (arith, b p, b' p, same (missing_passes p)),
      )
