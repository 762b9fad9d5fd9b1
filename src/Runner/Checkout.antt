-- ===== src/Runner/Checkout.antt =====
-- Checking out a commit and running its benchmarks: `LocalBenchRunner` of
-- ci-bench-runner/src/runner.rs.
pub mod Rules
pub mod Plan
use rustls_bench_app.Base.{
  ℕ, Bool, true, false, Option, none, some, List, [], ◌∷◌, ◌++◌, if◌then◌else◌, ◌==◌,
}
use rustls_bench_app.Base.Text.{Text, codes, starts_with}
use rustls_bench_app.Base.Result.{Result, ok, err, panic, io_failed, unwrap}
use rustls_bench_app.Base.Action.{Action, pure, lift, gets, ◌>>=◌, ◌>>◌}
use rustls_bench_app.Db.Schema.{Bytes}
use rustls_bench_app.Job.World.{CommitIdentifier}
use rustls_bench_app.Runner.Commands.{Command, Log, Machine, Shell, run_command}

-- Seconds.
abbrev pub quick_command_timeout : ℕ
quick_command_timeout = 10

abbrev pub cargo_build_timeout : ℕ
cargo_build_timeout = 180

abbrev pub test_run_timeout : ℕ
test_run_timeout = 300

abbrev separated : Text → Bool
separated [] = true
separated (c ∷ []) = c == b'/'
separated (c ∷ d ∷ rest) = separated (d ∷ rest)

-- `Path::join`: an absolute path replaces the first, and one separator stands between the two.
unfoldable pub join : Text → Text → Text
unfolding starts_with
join base rest =
    if starts_with (codes "/") rest
    then rest
    else if separated base
    then base ++ rest
    else base ++ (codes "/" ++ rest)

unfoldable pub walltimes_path : Text → Text
unfolding join
walltimes_path base = join base (codes "results/walltimes.csv")

unfoldable pub icounts_path : Text → Text
unfolding join
icounts_path base = join base (codes "results/icounts.csv")

unfoldable pub memory_path : Text → Text
unfolding join
memory_path base = join base (codes "results/memory.csv")

abbrev pub last : List Log → Option Log
last [] = none
last (l ∷ []) = some l
last (l ∷ m ∷ rest) = last (m ∷ rest)

-- The commands, by the variables of the source.
module _ (checkout_target_dir : Text) where
  abbrev pub git : List Text → Command
  git args = record { program = codes "git"; args = args; cwd = checkout_target_dir }

  abbrev pub bench_path : Text
  bench_path = join checkout_target_dir (codes "ci-bench")

  abbrev pub bench_exe_path : Text
  bench_exe_path = join checkout_target_dir (codes "target/release/rustls-ci-bench")

  abbrev pub cargo_build : Command
  cargo_build = record {
    program = codes "cargo";
    args = codes "build" ∷ codes "--locked" ∷ codes "--profile=bench" ∷ [];
    cwd = bench_path;
  }

  abbrev pub run_all : (job_output_dir : Text) → Command
  run_all job_output_dir = record {
    program = bench_exe_path;
    args = codes "run-all" ∷ codes "--output-dir" ∷ join job_output_dir (codes "results") ∷ [];
    cwd = bench_path;
  }

  abbrev pub run_walltimes : Command
  run_walltimes = record {
    program = codes "setarch";
    args =
        codes "-R"
        ∷ bench_exe_path
        ∷ codes "walltime"
        ∷ codes "--iterations-per-scenario"
        ∷ codes "100"
        ∷ [];
    cwd = bench_path;
  }

module _ {W : Type 0} (machine : Machine W) where
  abbrev done : Bool × W → Shell W → Result (Unit {0}) × Shell W
  done (went_through, os) s =
      ((if went_through then ok tt else err io_failed), record s { os = os })

  abbrev pub create_dir_all : Text → Action (Shell W) (Unit {0})
  create_dir_all path s = done (machine.create_dir_all path s.os) s

  abbrev pub write_file : Text → Bytes → Action (Shell W) (Unit {0})
  write_file path contents s = done (machine.write_file path contents s.os) s

  unfoldable pub checkout_and_run_benchmarks :
      CommitIdentifier → (checkout_target_dir job_output_dir : Text) → Action (Shell W) (Unit {0})
  unfolding walltimes_path join
  checkout_and_run_benchmarks commit dir out = do
    run_command machine (git dir (codes "init" ∷ [])) quick_command_timeout
    run_command machine
        (git dir (codes "remote" ∷ codes "add" ∷ codes "origin" ∷ commit.clone_url ∷ []))
        quick_command_timeout
    run_command machine (git dir (codes "fetch" ∷ codes "origin" ∷ commit.commit_sha ∷ []))
        quick_command_timeout
    run_command machine (git dir (codes "checkout" ∷ commit.commit_sha ∷ [])) quick_command_timeout
    run_command machine (cargo_build dir) cargo_build_timeout
    create_dir_all out
    run_command machine (run_all dir out) test_run_timeout
    run_command machine (run_walltimes dir) test_run_timeout
    captured ← (λ s. (unwrap (last s.logs), s))
    write_file (walltimes_path out) captured.stdout
