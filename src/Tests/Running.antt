-- ===== src/Tests/Running.antt =====
-- Commands that are run, the token that is refreshed, the switch, and the report to bencher.dev.
use rustls_bench_app.Base.{
  ℕ, ◌+◌, ◌*◌, ◌≤◌, ◌<◌, ◌≡◌, ◌≢◌, refl, Bool, true, false, not, some, [], ◌∷◌, map, arith,
}
use rustls_bench_app.Base.Text.{codes}
use rustls_bench_app.Base.Result.{Result, ok, panic}
use rustls_bench_app.Job.World.{CommitIdentifier}
use rustls_bench_app.Runner.Process.{running, exited, Process, wait_loop}
use rustls_bench_app.Runner.Process.Deadline.{nanos, IsTimed, EndsAt, GoesOn, wait_loop_ends}
use rustls_bench_app.Runner.Commands.{Command, Machine, Shell}
use rustls_bench_app.Runner.Checkout.{walltimes_path, checkout_and_run_benchmarks}
use rustls_bench_app.Runner.Checkout.Rules.{entry_of, AllTimed, Logged, IsCaptured}
use rustls_bench_app.Runner.Checkout.Plan.{plan, checkout_follows_plan}
use rustls_bench_app.EventQueue.Toggler.{
  Folder, Reachable, start, starts, goes, changes, create, watches, delivers, creates, change,
  is_harmless, deliver, processing_enabled,
}
use rustls_bench_app.EventQueue.Toggler.Switching.{processing_enabled_lem}

-- A process that runs for a second at each poll, and never ends.
abbrev endless : Process
endless = record {
  try_wait = λ i. running;
  started = 5;
  now = λ i. 5 + i * nanos;
  stdout = [];
  stderr = [];
}

endless-IsTimed : IsTimed endless
endless-IsTimed = record { begins = omega arith; sleeps = λ i. omega arith }

wait_loop_ends_example :
    (i : ℕ) × (r : Result Bool) × (wait_loop 11 endless (5 + 10 * nanos) 0 ≡ some r)
    × EndsAt endless (5 + 10 * nanos) r i
    × ((j : ℕ) → j < i → GoesOn endless (5 + 10 * nanos) j)
wait_loop_ends_example = wait_loop_ends endless 10 endless-IsTimed

-- A machine on which every command prints its program's name, and the world counts the commands.
abbrev quick : Command → Process
quick c = record {
  try_wait = λ i. exited true;
  started = 0;
  now = λ i. i * nanos;
  stdout = c.program;
  stderr = [];
}

abbrev machine : Machine ℕ
machine = record {
  spawn = λ c w. (some (quick c), 1 + w);
  create_dir_all = λ path w. (true, w);
  write_file = λ path contents w. (true, w);
}

machine-AllTimed : AllTimed machine
machine-AllTimed c w p h =
    let same : quick c ≡ p = cc in
    rw (← same) (record { begins = omega arith; sleeps = λ i. omega arith })

abbrev commit : CommitIdentifier
commit = record { clone_url = codes "url"; branch_name = codes "main"; commit_sha = codes "abc" }

abbrev shell : Shell ℕ
shell = record { os = 0; logs = [] }

checkout_follows_plan_example :
    let (r, t) = checkout_and_run_benchmarks machine commit (codes "dir") (codes "out") shell in
    (r ≢ panic)
    × ((k : ℕ) × (k ≤ 7)
        × Logged machine (map entry_of (plan commit (codes "dir") (codes "out"))) [] k t
        × (r ≡ ok tt → (k ≡ 7) × IsCaptured machine (walltimes_path (codes "out")) t))
checkout_follows_plan_example =
    checkout_follows_plan machine commit (codes "dir") (codes "out") shell machine-AllTimed

-- The file appears while the folder is watched, and the report of it is delivered.
abbrev watched : Folder
watched = record (start false) { watching = true }

abbrev paused : Folder
paused = change creates watched

abbrev noticed : Folder
noticed =
    deliver (ok (record { kind = create; paths = (codes "." ∷ codes "pause" ∷ []) ∷ [] })) [] paused

noticed-Reachable : Reachable noticed
unfolding change start is_harmless
noticed-Reachable =
    goes paused noticed
      (goes watched paused (goes (start false) watched (starts false) watches)
        (changes creates refl))
      (delivers _ [] refl)

processing_enabled_lem_example : processing_enabled noticed.value ≡ not noticed.present
unfolding change start deliver
processing_enabled_lem_example = processing_enabled_lem noticed noticed-Reachable refl refl
