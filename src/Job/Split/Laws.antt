-- ===== src/Job/Split/Laws.antt =====
-- What is reported as significant, and in which order.
use rustls_bench_app.Base.{◌≡◌, true, false}
use rustls_bench_app.Base.F64.{abs, is_nan, Arith, lt_nan_left}
use rustls_bench_app.Db.Schema.{ScenarioDiff}
use rustls_bench_app.Job.Split.{diff_ratio, is_negligible}

module _ (fp : Arith) where
  abbrev pub Negligible : ScenarioDiff → Type 0
  Negligible d = is_negligible fp d ≡ true

  abbrev pub Significant : ScenarioDiff → Type 0
  Significant d = is_negligible fp d ≡ false

  -- The ratio is a number.
  abbrev pub HasRatio : ScenarioDiff → Type 0
  HasRatio d = is_nan (abs (diff_ratio fp d)) ≡ false

  -- A diff whose ratio is NaN, as when both results are zero, is reported as significant.
  pub nan_is_Significant :
      (d : ScenarioDiff) → is_nan (abs (diff_ratio fp d)) ≡ true → Significant d
  unfolding is_negligible
  nan_is_Significant d h = lt_nan_left (abs (diff_ratio fp d)) d.significance_threshold h
