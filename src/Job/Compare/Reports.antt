-- ===== src/Job/Compare/Reports.antt =====
-- What a report shows whatever the order in which the measurements come: `compare_results` and
-- `split_on_threshold` of ci-bench-runner/src/job/bench_pr.rs.
use mathlib.Core.Quot
use mathlib.Core.Quot.{Quot}
use rustls_bench_app.Base.{◌≡◌, sym, ◌∙◌, inl, inr, refl, Option, none, some, List}
use rustls_bench_app.Base.Bag.{Bag, bag}
use rustls_bench_app.Base.Text.{Text}
use rustls_bench_app.Base.F64.{F64, Arith}
use rustls_bench_app.Base.Map.{Map}
use rustls_bench_app.Base.Result.{Result, ok, err, panic, Result-cases}
use rustls_bench_app.Base.Sort.{SameItems}
use rustls_bench_app.Db.Schema.{ScenarioKind, ScenarioDiff}
use rustls_bench_app.Job.Compare.{compare_results}
use rustls_bench_app.Job.Split.{split_on_threshold}
use rustls_bench_app.Job.Split.Reference.{split_on_threshold-SameItems}
use rustls_bench_app.Job.Compare.Order.{compare_results-SameItems}

module _ (callgrind_diff : Text → Result Text) (baseline thresholds : Map F64) (kind : ScenarioKind)
    (default minimum : F64) where
  -- What a report shows, without an order: the significant diffs, the negligible ones, and the missing
  -- scenarios. Where the comparison fails there is none.
  abbrev pub Report : Type 0
  Report = Bag ScenarioDiff × Bag ScenarioDiff × Bag Text

  abbrev report_of_result : Arith → Result (List ScenarioDiff × List Text) → Option Report
  report_of_result fp (ok (diffs, missing)) =
      let (significant, negligible) = split_on_threshold fp diffs in
      some (bag significant, bag negligible, bag missing)
  report_of_result fp (err e) = none
  report_of_result fp panic = none

  unfoldable pub report_of : Arith → (candidate : Map F64) → Option Report
  report_of fp candidate =
      report_of_result fp
        (compare_results callgrind_diff baseline thresholds kind default minimum candidate)

  report_of-some :
      (fp : Arith) (candidate candidate' : Map F64) (diffs : List ScenarioDiff)
      (missing : List Text)
      → SameItems candidate candidate'
      → compare_results callgrind_diff baseline thresholds kind default minimum candidate
        ≡ ok (diffs, missing)
      → report_of fp candidate ≡ report_of fp candidate'
  unfolding report_of
  report_of-some fp candidate candidate' diffs missing same h =
      let (diffs', missing', h', a, b) =
        compare_results-SameItems callgrind_diff baseline thresholds kind default minimum candidate
          candidate' diffs missing same h in
      let (significant, negligible) = split_on_threshold-SameItems fp diffs diffs' a in
      let e1 : bag (split_on_threshold fp diffs).0 ≡ bag (split_on_threshold fp diffs').0 =
        Quot.sound significant in
      let e2 : bag (split_on_threshold fp diffs).1 ≡ bag (split_on_threshold fp diffs').1 =
        Quot.sound negligible in
      let e3 : bag missing ≡ bag missing' = Quot.sound b in
      rw (h, h') (λ i. some (e1 i, e2 i, e3 i))

  report_of-none :
      (fp : Arith) (candidate candidate' : Map F64)
      → SameItems candidate candidate'
      → report_of fp candidate ≡ none
      → report_of fp candidate' ≡ none
  unfolding report_of
  report_of-none fp candidate candidate' same h =
      elim (Result-cases
        (compare_results callgrind_diff baseline thresholds kind default minimum candidate')) [
          | inl ((diffs, missing), e) ↦
              report_of-some fp candidate' candidate diffs missing (λ p. sym (same p)) e ∙ h
          | inr (inl (x, e)) ↦ rw e refl
          | inr (inr e) ↦ rw e refl
        ]

  -- The comparison and the split have the same report, whatever the order in which the candidate's map
  -- is iterated: for two lists of the same entries either both comparisons fail, or both succeed with
  -- the same significant diffs, the same negligible ones, and the same missing scenarios, each as
  -- often.
  pub report_ignores_order :
      (fp : Arith) (candidate candidate' : Map F64)
      → SameItems candidate candidate'
      → report_of fp candidate ≡ report_of fp candidate'
  unfolding report_of
  report_ignores_order fp candidate candidate' same =
      elim (Result-cases
        (compare_results callgrind_diff baseline thresholds kind default minimum candidate)) [
          | inl ((diffs, missing), e) ↦ report_of-some fp candidate candidate' diffs missing same e
          | inr (inl (x, e)) ↦
              let failed : report_of fp candidate ≡ none = rw (e, report_of) refl in
              failed ∙ sym (report_of-none fp candidate candidate' same failed)
          | inr (inr e) ↦
              let failed : report_of fp candidate ≡ none = rw (e, report_of) refl in
              failed ∙ sym (report_of-none fp candidate candidate' same failed)
        ]
