-- ===== src/Runner/Checkout/Plan.antt =====
-- The commands that a run amounts to, as a plan: ci-bench-runner/src/runner.rs.
use mathlib.Core.List.{append-nil}
use rustls_bench_app.Base.{
  ℕ, suc, ◌≤◌, ◌<◌, ◌≡◌, ◌≢◌, sym, refl, some, List, [], ◌∷◌, map, get_elem?, length, arith,
}
use rustls_bench_app.Base.Text.{Text, codes}
use rustls_bench_app.Base.Result.{ok, panic}
use rustls_bench_app.Base.Action.{Action, ◌>>◌}
use rustls_bench_app.Job.World.{CommitIdentifier}
use rustls_bench_app.Runner.Commands.{Command, Log, Machine, Shell, run_command}
use rustls_bench_app.Runner.Checkout.{
  git, cargo_build, run_all, run_walltimes, create_dir_all, walltimes_path, quick_command_timeout,
  cargo_build_timeout, test_run_timeout, checkout_and_run_benchmarks,
}
use rustls_bench_app.Runner.Checkout.Rules.{
  entry_of, AllTimed, Logged, Leads, Leads->>, run_command-Leads, create_dir_all-Leads, capture,
  capture-Leads, EndsIn, EndsIn->>, IsCaptured, capture-IsCaptured,
}

-- The whole run.
abbrev pub plan : CommitIdentifier → (dir out : Text) → List Command
plan commit dir out =
    git dir (codes "init" ∷ [])
    ∷ git dir (codes "remote" ∷ codes "add" ∷ codes "origin" ∷ commit.clone_url ∷ [])
    ∷ git dir (codes "fetch" ∷ codes "origin" ∷ commit.commit_sha ∷ [])
    ∷ git dir (codes "checkout" ∷ commit.commit_sha ∷ [])
    ∷ cargo_build dir
    ∷ run_all dir out
    ∷ run_walltimes dir
    ∷ []

module _ {W : Type 0} (machine : Machine W) where
  module _ (commit : CommitIdentifier) (dir out : Text) where
    abbrev entries : List (Text × Text)
    entries = map entry_of (plan commit dir out)

    -- What is left of a run, from each step on.
    abbrev run : Command → ℕ → Action (Shell W) (Unit {0})
    run = run_command machine

    abbrev capturing : Action (Shell W) (Unit {0})
    capturing = capture machine [] [] (walltimes_path out)

    abbrev add_remote : Command
    add_remote = git dir (codes "remote" ∷ codes "add" ∷ codes "origin" ∷ commit.clone_url ∷ [])

    abbrev fetch : Command
    fetch = git dir (codes "fetch" ∷ codes "origin" ∷ commit.commit_sha ∷ [])

    abbrev timing : Action (Shell W) (Unit {0})
    timing = run (run_walltimes dir) test_run_timeout >> capturing

    abbrev counting : Action (Shell W) (Unit {0})
    counting = run (run_all dir out) test_run_timeout >> timing

    abbrev measuring : Action (Shell W) (Unit {0})
    measuring = create_dir_all machine out >> counting

    abbrev building : Action (Shell W) (Unit {0})
    building = run (cargo_build dir) cargo_build_timeout >> measuring

    abbrev checking_out : Action (Shell W) (Unit {0})
    checking_out =
        run (git dir (codes "checkout" ∷ commit.commit_sha ∷ [])) quick_command_timeout >> building

    abbrev fetching : Action (Shell W) (Unit {0})
    fetching = run fetch quick_command_timeout >> checking_out

    abbrev configuring : Action (Shell W) (Unit {0})
    configuring = run add_remote quick_command_timeout >> fetching

    module _ (base : List Log) (timed : AllTimed machine) where
      abbrev Rest : ℕ → Action (Shell W) (Unit {0}) → Type 0
      Rest n = Leads machine entries base n 7

      next_command :
          (n : ℕ) (c : Command) (timeout : ℕ) (rest : Action (Shell W) (Unit {0}))
          → n < length entries
          → get_elem? entries n ≡ some (entry_of c)
          → Rest (suc n) rest
          → Rest n (run c timeout >> rest)
      next_command n c timeout rest bound listed after =
          Leads->> machine entries base n (suc n) 7 (run c timeout) rest
            (run_command-Leads machine entries base n c timeout timed bound listed) after

      measuring-Leads : Rest 5 measuring
      measuring-Leads =
          Leads->> machine entries base 5 5 7 (create_dir_all machine out) counting
            (create_dir_all-Leads machine entries base 5 out (omega arith))
            (next_command 5 (run_all dir out) test_run_timeout timing (omega arith) refl (
              next_command 6 (run_walltimes dir) test_run_timeout capturing (omega arith) refl
                (capture-Leads machine entries base 6 (walltimes_path out) (omega arith))))

      checkout-Leads : Rest 0 (checkout_and_run_benchmarks machine commit dir out)
      unfolding checkout_and_run_benchmarks
      checkout-Leads =
          next_command 0 (git dir (codes "init" ∷ [])) quick_command_timeout configuring
            (omega arith) refl
            (next_command 1 add_remote quick_command_timeout fetching (omega arith) refl (
              next_command 2 fetch quick_command_timeout checking_out (omega arith) refl (
                next_command 3 (git dir (codes "checkout" ∷ commit.commit_sha ∷ []))
                  quick_command_timeout building (omega arith) refl
                  (next_command 4 (cargo_build dir) cargo_build_timeout measuring (omega arith) refl
                    measuring-Leads))))

    timing-EndsIn : EndsIn machine (walltimes_path out) timing
    timing-EndsIn =
        EndsIn->> machine (walltimes_path out) (run (run_walltimes dir) test_run_timeout) capturing
          (λ s e. (s, refl))

    building-EndsIn : EndsIn machine (walltimes_path out) building
    building-EndsIn =
        EndsIn->> machine (walltimes_path out) (run (cargo_build dir) cargo_build_timeout) measuring
          (EndsIn->> machine (walltimes_path out) (create_dir_all machine out) counting (
            EndsIn->> machine (walltimes_path out) (run (run_all dir out) test_run_timeout) timing
              timing-EndsIn))

    checkout-EndsIn :
        EndsIn machine (walltimes_path out) (checkout_and_run_benchmarks machine commit dir out)
    unfolding checkout_and_run_benchmarks
    checkout-EndsIn =
        EndsIn->> machine (walltimes_path out)
          (run (git dir (codes "init" ∷ [])) quick_command_timeout) configuring
          (EndsIn->> machine (walltimes_path out) (run add_remote quick_command_timeout) fetching (
            EndsIn->> machine (walltimes_path out) (run fetch quick_command_timeout) checking_out (
              EndsIn->> machine (walltimes_path out)
                (run (git dir (codes "checkout" ∷ commit.commit_sha ∷ [])) quick_command_timeout)
                building building-EndsIn)))

    -- However a run ends, the logs it adds are those of the first commands of the plan, in order,
    -- and it does not panic. Where it succeeds the whole plan was run, and the file of the walltimes
    -- was written with what the last command had printed. The clocks of the processes are sound.
    pub checkout_follows_plan :
        (s : Shell W)
        → AllTimed machine
        → let (r, t) = checkout_and_run_benchmarks machine commit dir out s in
          (r ≢ panic)
          × ((k : ℕ) × (k ≤ 7)
              × Logged machine (map entry_of (plan commit dir out)) s.logs k t
              × (r ≡ ok tt → (k ≡ 7) × IsCaptured machine (walltimes_path out) t))
    checkout_follows_plan s timed =
        let start : Logged machine entries s.logs 0 s = ([], sym (append-nil s.logs), refl) in
        let (safe, (k, bound, logged, reached)) = checkout-Leads s.logs timed s start in
        (
          safe,
          (
            k,
            bound,
            logged,
            λ e. (
              reached e,
              let (t, same) = checkout-EndsIn s e in
                  rw same (capture-IsCaptured machine (walltimes_path out) t (rw same at e)),
            ),
          ),
        )
