-- ===== src/Tests/Storage.antt =====
-- What is written to the database and read back.
use rustls_bench_app.Base.{◌≡◌, refl, true, none, some, List, [], ◌∷◌, ◌==◌, if◌then◌else◌, arith}
use rustls_bench_app.Base.Text.{codes}
use rustls_bench_app.Base.Table
use rustls_bench_app.Base.Result.{ok}
use rustls_bench_app.Db.Schema.{walltime, ScenarioDiff, empty_db}
use rustls_bench_app.Db.Comments.{
  store_result_comment_id, result_comment_id, result_comment_id-store,
}
use rustls_bench_app.Db.Comparisons.{
  ComparisonSubResult, ComparisonResult, store_comparison_result, comparison_result, find_run,
}
use rustls_bench_app.Db.Comparisons.RoundTrip.{forget_details, comparison_result-store}
use rustls_bench_app.Db.Writes.{
  Write, enqueues, creates_job, finishes_job, deletes, stores_comment, apply_all,
}
use rustls_bench_app.Db.Writes.Valid.{IsValid}
use rustls_bench_app.Db.Writes.Invariant.{apply_all-empty-IsValid}
use rustls_bench_app.Tests.World.{test_json}

abbrev one_job : List (Write (Unit {0}))
one_job =
    enqueues 7 40 (codes "push") []
    ∷ creates_job 9 50 7 40
    ∷ finishes_job 60 9 true
    ∷ deletes 7
    ∷ stores_comment 42 1001
    ∷ []

apply_all-empty-IsValid_example : IsValid (apply_all test_json one_job empty_db)
apply_all-empty-IsValid_example = apply_all-empty-IsValid test_json one_job

result_comment_id-store_example :
    result_comment_id 42 (store_result_comment_id 42 1001 empty_db)
    ≡ (if 42 == 42 then some 1001 else result_comment_id 42 empty_db)
result_comment_id-store_example =
    result_comment_id-store 42 42 1001 empty_db (omega arith) (omega arith) (omega arith)

abbrev slower : ScenarioDiff
slower = record {
  scenario_name = codes "handshake";
  scenario_kind = walltime;
  baseline_result = 1000;
  candidate_result = 2000;
  significance_threshold = 3;
  cachegrind_diff = none;
}

abbrev nothing : ComparisonSubResult (Unit {0})
nothing = record {
  diffs = [];
  scenarios_missing_in_baseline = codes "resume" ∷ [];
  memory_details = some tt;
}

abbrev compared : ComparisonResult (Unit {0})
compared = record {
  icount = nothing;
  walltime = record nothing { diffs = slower ∷ [] };
  memory = nothing;
}

comparison_result-store_example :
    comparison_result test_json
      (codes "beef")
      (codes "cafe")
      (store_comparison_result test_json 9 50 (codes "beef") (codes "cafe") compared empty_db).1
    ≡ ok (
        some (record {
          icount = forget_details nothing;
          walltime = forget_details compared.walltime;
          memory = forget_details nothing;
        }))
unfolding Table.find find_run
comparison_result-store_example =
    comparison_result-store test_json 9 50 (codes "beef") (codes "cafe") compared empty_db refl tt
      refl (tt, (refl, tt), tt)
