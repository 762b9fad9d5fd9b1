-- ===== src/Db/Schema.antt =====
-- The tables of the database, as ci-bench-runner/src/db.rs writes and reads them.
-- A UUID is a number. A timestamp is the rank of its stored text in SQLite's order of texts, which
-- is all that the queries look at.
use Prim.Native.Nat.{ℕ, zero, suc}
use mathlib.Core.Path.{◌≡◌, refl}
use mathlib.Core.Bool.{Bool}
use mathlib.Core.Option.{Option}
use mathlib.Core.List.{List, []}
use rustls_bench_app.Base.Text.{Text}
use rustls_bench_app.Base.Result.{Result, ok, err, invalid_scenario_kind}
use rustls_bench_app.Base.F64.{F64}

abbrev pub Bytes : Type 0
Bytes = List ℕ

pub record QueuedEvent : Type 0 where
  pub id : ℕ
  pub job_id : Option ℕ
  pub event : Text
  pub payload : Bytes
  pub created_utc : ℕ

pub record BenchJob : Type 0 where
  pub id : ℕ
  pub event_queued_utc : ℕ
  pub created_utc : ℕ
  pub finished_utc : Option ℕ
  pub success : Option Bool

pub data ScenarioKind : Type 0 where
  icount walltime memory : ScenarioKind

-- `kind as i64`
unfoldable pub discriminant : ScenarioKind → ℕ
discriminant icount = 0
discriminant walltime = 1
discriminant memory = 2

-- `ScenarioKind::try_from`
unfoldable pub try_from : ℕ → Result ScenarioKind
try_from zero = ok icount
try_from (suc zero) = ok walltime
try_from (suc (suc zero)) = ok memory
try_from (suc (suc (suc n))) = err invalid_scenario_kind

pub try_from-discriminant : (k : ScenarioKind) → try_from (discriminant k) ≡ ok k
unfolding try_from discriminant
try_from-discriminant icount = refl
try_from-discriminant walltime = refl
try_from-discriminant memory = refl

pub record BenchResult : Type 0 where
  pub scenario_name : Text
  pub scenario_kind : ScenarioKind
  pub result : F64

pub record ScenarioDiff : Type 0 where
  pub scenario_name : Text
  pub scenario_kind : ScenarioKind
  pub baseline_result : F64
  pub candidate_result : F64
  pub significance_threshold : F64
  pub cachegrind_diff : Option Text

-- Rows of the tables that no struct of the program names.
pub record BenchRun : Type 0 where
  pub id : ℕ
  pub created_utc : ℕ

pub record ResultRow : Type 0 where
  pub bench_run_id : ℕ
  pub scenario_name : Text
  pub scenario_kind : ℕ
  pub result : F64

pub record ComparisonRun : Type 0 where
  pub id : ℕ
  pub created_utc : ℕ
  pub baseline_commit : Text
  pub candidate_commit : Text
  pub icount_missing : Option Text
  pub walltime_missing : Option Text
  pub memory_missing : Option Text

pub record DiffRow : Type 0 where
  pub comparison_run_id : ℕ
  pub scenario_name : Text
  pub scenario_kind : ℕ
  pub baseline_result : F64
  pub candidate_result : F64
  pub significance_threshold : F64
  pub cachegrind_diff : Option Text

-- Both columns are SQLite integers: 64-bit two's complement patterns.
pub record CommentRow : Type 0 where
  pub pr_number : ℕ
  pub comment_id : ℕ

pub record Database : Type 0 where
  pub event_queue : List QueuedEvent
  pub jobs : List BenchJob
  pub bench_runs : List BenchRun
  pub bench_results : List ResultRow
  pub comparison_runs : List ComparisonRun
  pub scenario_diffs : List DiffRow
  pub result_comments : List CommentRow

abbrev pub empty_db : Database
empty_db = record {
  event_queue = [];
  jobs = [];
  bench_runs = [];
  bench_results = [];
  comparison_runs = [];
  scenario_diffs = [];
  result_comments = [];
}

-- The primary keys.
abbrev pub event_key : QueuedEvent → ℕ
event_key e = e.id

abbrev pub job_key : BenchJob → ℕ
job_key j = j.id

abbrev pub run_key : BenchRun → ℕ
run_key r = r.id

abbrev pub comparison_key : ComparisonRun → ℕ
comparison_key c = c.id

abbrev pub comment_key : CommentRow → ℕ
comment_key c = c.pr_number
