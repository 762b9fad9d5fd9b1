-- ===== src/Db/Writes.antt =====
-- The writes of `Db` as data, for statements about any sequence of them.
pub mod Valid
pub mod Queue
pub mod Invariant
use rustls_bench_app.Base.{ℕ, Bool, List, [], ◌∷◌}
use rustls_bench_app.Base.Text.{Text}
use rustls_bench_app.Base.F64.{F64}
use rustls_bench_app.Base.Result.{Result}
use rustls_bench_app.Db.Schema.{Bytes, ScenarioKind, Database}
use rustls_bench_app.Db.Events.{enqueue_event, delete_event, new_job_for_event, job_finished}
use rustls_bench_app.Db.Results.{store_run_results}
use rustls_bench_app.Db.Comments.{store_result_comment_id}
use rustls_bench_app.Db.Comparisons.{Json, ComparisonResult, store_comparison_result}

pub data Write (Details : Type 0) : Type 0 where
  enqueues : (id now : ℕ) (event : Text) (payload : Bytes) → Write Details
  deletes : (id : ℕ) → Write Details
  creates_job : (id now event_id event_created_utc : ℕ) → Write Details
  finishes_job : (now id : ℕ) (success : Bool) → Write Details
  stores_results : (id now : ℕ) → List (Text × ScenarioKind × F64) → Write Details
  stores_comparison :
      (id now : ℕ) (baseline candidate : Text) → ComparisonResult Details → Write Details
  stores_comment : (pr_number comment_id : ℕ) → Write Details

module _ (json : Json) {Details : Type 0} where
  -- The database after a write, also after one that failed.
  pub apply : Write Details → Database → Database
  apply (enqueues id now event payload) db = (enqueue_event id now event payload db).1
  apply (deletes id) db = (delete_event id db).1
  apply (creates_job id now event_id queued) db = (new_job_for_event id now event_id queued db).1
  apply (finishes_job now id success) db = (job_finished now id success db).1
  apply (stores_results id now results) db = (store_run_results id now results db).1
  apply (stores_comparison id now b c r) db = (store_comparison_result json id now b c r db).1
  apply (stores_comment pr id) db = store_result_comment_id pr id db

  pub apply_all : List (Write Details) → Database → Database
  unfolding apply
  apply_all [] db = db
  apply_all (w ∷ ws) db = apply_all ws (apply w db)
