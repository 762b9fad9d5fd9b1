-- ===== src/Job/World.antt =====
-- What the jobs act on: the database and the GitHub API, and what they take from elsewhere.
-- Payload parsing, templates, the benchmark runner and the file system are a parameter, `Env`.
use rustls_bench_app.Base.{ℕ, Bool, Option, List}
use rustls_bench_app.Base.Text.{Text}
use rustls_bench_app.Base.F64.{Arith}
use rustls_bench_app.Base.Map.{Map}
use rustls_bench_app.Base.Result.{Result, Error}
use rustls_bench_app.Db.Schema.{Bytes, Database}
use rustls_bench_app.Db.Comparisons.{Json}
use rustls_bench_app.Job.Files.{File, MemoryDetails}
use rustls_bench_app.Job.Split.{Diffs}
use rustls_bench_app.BencherDev.{BencherDev}

pub record CommitIdentifier : Type 0 where
  pub clone_url : Text
  pub branch_name : Text
  pub commit_sha : Text

pub record PrBranches : Type 0 where
  pub baseline : CommitIdentifier
  pub candidate : CommitIdentifier

-- The fields of octocrab's models that the program reads.
pub record Repository : Type 0 where
  pub full_name : Option Text
  pub clone_url : Option Text

pub record PrEnd : Type 0 where
  pub ref_field : Text
  pub sha : Text
  pub repo : Option Repository

pub record PullRequest : Type 0 where
  pub number : ℕ
  pub head : PrEnd
  pub base : PrEnd

-- The module `api` of ci-bench-runner/src/github.rs.
pub record Review : Type 0 where
  pub author_association : Text
  pub state : Text
  pub commit_id : Text

pub record PullRequestReviewEvent : Type 0 where
  pub action : Text
  pub review : Review
  pub pull_request : PullRequest

pub record Comment : Type 0 where
  pub author_association : Text
  pub body : Text
  pub user_id : ℕ

-- Of the field `pull_request` of an issue only its presence counts.
pub record Issue : Type 0 where
  pub number : ℕ
  pub has_pull_request : Bool

pub record CommentEvent : Type 0 where
  pub action : Text
  pub comment : Comment
  pub issue : Issue

pub record PushEvent : Type 0 where
  pub git_ref : Text
  pub clone_url : Text
  pub after : Text
  pub deleted : Bool

-- octocrab's actions of a pull request: the three that count, and all others.
pub data UpdateAction : Type 0 where
  opened synchronize reopened other_action : UpdateAction

pub data UpdatePayload : Type 0 where
  of_pull_request : UpdateAction → PullRequest → UpdatePayload
  of_other_kind : UpdatePayload

pub data StatusState : Type 0 where
  pending success : StatusState

-- What is asked of GitHub and of the runner, in order.
pub data Call : Type 0 where
  creates_status : (sha : Text) → StatusState → (target : Text) → Call
  creates_comment : (pr_number : ℕ) (body : Text) → Call
  updates_comment : (comment_id : ℕ) (body : Text) → Call
  runs_benchmarks : CommitIdentifier → Call

pub record World : Type 0 where
  pub db : Database
  pub calls : List Call

abbrev pub Details : Type 0
Details = Map (MemoryDetails × MemoryDetails)

pub record Config : Type 0 where
  pub app_base_url : Text
  pub github_app_id : ℕ
  pub github_repo_owner : Text
  pub github_repo_name : Text

-- The result files of one run.
pub record ResultFiles : Type 0 where
  pub icounts : File
  pub walltimes : File
  pub memory : File

pub record Env : Type 0 where
  pub fp : Arith
  pub json : Json
  pub parse_comment : Bytes → Option CommentEvent
  pub parse_review : Bytes → Option PullRequestReviewEvent
  pub parse_update : (event : Text) → Bytes → Option UpdatePayload
  pub parse_push : Bytes → Option PushEvent
  -- The API: a pull request, the id of a new comment, whether an update went through.
  pub get_pr : ℕ → Option PullRequest
  pub create_comment : ℕ → Text → Option ℕ
  pub update_comment : ℕ → Text → Bool
  -- The runner, and the files that the runs left in the directories of the job.
  pub run : CommitIdentifier → Result (Unit {0})
  pub base_files : ResultFiles
  pub candidate_files : ResultFiles
  pub callgrind_diff : Text → Result Text
  -- Whether temporary directories and the job's own can be made, and its logs written.
  pub temp_dirs : Bool
  pub logs_written : Bool
  -- The comment's two templates.
  pub success_comment :
      PrBranches
      → (icount walltime memory : Diffs Details) → (diff_url : Text)
      → (bencher_project_id : Option Text) → Text
  pub error_comment : PrBranches → Error → Text
  -- The time at the end of the run on main, and the one at which the job began.
  pub now : ℕ
  pub started : ℕ
  pub thirty_days_ago : ℕ
  pub new_id : ℕ

-- The parts of `JobContext` that differ from job to job.
pub record JobContext : Type 0 where
  pub bencher_dev : Option BencherDev
  pub event : Text
  pub event_payload : Bytes
  pub job_id : Text
  pub config : Config
