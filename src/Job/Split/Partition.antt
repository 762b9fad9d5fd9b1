-- ===== src/Job/Split/Partition.antt =====
-- Which diffs `split_on_threshold` of ci-bench-runner/src/job/bench_pr.rs takes for significant.
use rustls_bench_app.Base.{◌≡◌, refl, Bool, List, [], ◌∷◌, All, arith, not, ◌&&◌}
use rustls_bench_app.Base.F64.{Arith, abs, lt}
use rustls_bench_app.Base.Sort.{count_if, count_if-sort}
use rustls_bench_app.Db.Schema.{ScenarioDiff}
use rustls_bench_app.Job.Split.{diff, diff_ratio, is_negligible, larger_ratio, split_on_threshold}
use rustls_bench_app.Job.Split.Laws.{HasRatio}
use rustls_bench_app.Job.Split.Reference.{
  filter, count_if-filter, is_significant, split_on_threshold-filter,
}

module _ (fp : Arith) where
  -- The change from the baseline's result, relative to it, is below the threshold of the diff.
  abbrev pub stays_below : ScenarioDiff → Bool
  stays_below d =
      lt (abs (fp.div (fp.sub d.candidate_result d.baseline_result) d.baseline_result))
        d.significance_threshold

  is_negligible-stays_below : (d : ScenarioDiff) → is_negligible fp d ≡ stays_below d
  unfolding is_negligible diff_ratio diff
  is_negligible-stays_below d = refl

  count_if-same :
      (p q : ScenarioDiff → Bool) (l : List ScenarioDiff)
      → ((d : ScenarioDiff) → p d ≡ q d)
      → count_if p l ≡ count_if q l
  count_if-same p q [] h = refl
  count_if-same p q (d ∷ l) h = ground (arith, h d, count_if-same p q l h)

  -- Where the ratios are numbers, each diff is in one of the two lists, as often as it is given: in
  -- the second where its relative change is below its own threshold, and otherwise in the first. No
  -- other diff is in them.
  pub split_on_threshold-count_if :
      (diffs : List ScenarioDiff)
      → All (HasRatio fp) diffs
      → (p : ScenarioDiff → Bool)
      → (count_if p (split_on_threshold fp diffs).0
          ≡ count_if (λ d. not (stays_below d) && p d) diffs)
        × (count_if p (split_on_threshold fp diffs).1 ≡ count_if (λ d. stays_below d && p d) diffs)
  split_on_threshold-count_if diffs numbers p = (
    rw
        (
          split_on_threshold-filter fp diffs,
          count_if-sort (larger_ratio fp) p (filter (is_significant fp) diffs),
          count_if-filter p (is_significant fp) diffs,
        )
        (count_if-same (λ d. is_significant fp d && p d) (λ d. not (stays_below d) && p d) diffs
          (λ d. rw (is_negligible-stays_below d) refl)),
    rw
        (
          split_on_threshold-filter fp diffs,
          count_if-sort (larger_ratio fp) p (filter (is_negligible fp) diffs),
          count_if-filter p (is_negligible fp) diffs,
        )
        (count_if-same (λ d. is_negligible fp d && p d) (λ d. stays_below d && p d) diffs
          (λ d. rw (is_negligible-stays_below d) refl)),
  )
