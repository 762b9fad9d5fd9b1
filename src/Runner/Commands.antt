-- ===== src/Runner/Commands.antt =====
-- Running one command: `run_command` and `Log` of ci-bench-runner/src/runner.rs. The machine is a
-- parameter: what it does may depend on all that was done before.
use rustls_bench_app.Base.{
  ℕ, suc, ◌+◌, ◌*◌, Bool, Option, none, some, List, [], ◌∷◌, ◌++◌, if◌then◌else◌,
}
use rustls_bench_app.Base.Text.{Text, codes}
use rustls_bench_app.Base.Result.{Result, ok, err, panic, spawn_failed, exit_status}
use rustls_bench_app.Base.Action.{Action}
use rustls_bench_app.Db.Schema.{Bytes}
use rustls_bench_app.Runner.Process.{Process, wait_loop}

-- The current directory is always set.
pub record Command : Type 0 where
  pub program : Text
  pub args : List Text
  pub cwd : Text

pub record Log : Type 0 where
  pub command : Text
  pub cwd : Text
  pub stdout : Bytes
  pub stderr : Bytes

pub record Machine (W : Type 0) : Type 0 where
  -- `none` where the program cannot be started
  pub spawn : Command → W → Option Process × W
  pub create_dir_all : Text → W → Bool × W
  pub write_file : Text → Bytes → W → Bool × W

pub record Shell (W : Type 0) : Type 0 where
  pub os : W
  pub logs : List Log

unfoldable pub join_args : Text → List Text → Text
join_args s [] = s
join_args s (arg ∷ args) = join_args (s ++ (codes " " ++ arg)) args

unfoldable pub command_str : Command → Text
unfolding join_args
command_str c = join_args c.program c.args

abbrev pub log_of : Command → Process → Log
log_of c p = record { command = command_str c; cwd = c.cwd; stdout = p.stdout; stderr = p.stderr }

abbrev pub nanos_per_second : ℕ
nanos_per_second = 1_000_000_000

module _ {W : Type 0} (machine : Machine W) where
  -- The end of the wait: nothing is logged where the command was given up. The last case, a wait
  -- without end, does not occur.
  abbrev pub after_wait : Command → Process → Option (Result Bool) → Action (Shell W) (Unit {0})
  after_wait c p (some (ok success)) s =
      ((if success then ok tt else err exit_status), record s { logs = s.logs ++ log_of c p ∷ [] })
  after_wait c p (some (err e)) s = (err e, s)
  after_wait c p (some panic) s = (panic, s)
  after_wait c p none s = (panic, s)

  unfoldable pub run_command : Command → (timeout_seconds : ℕ) → Action (Shell W) (Unit {0})
  unfolding wait_loop command_str
  run_command c timeout s =
      let (started, os) = machine.spawn c s.os in
      let s = record s { os = os } in
      elim started [
        | none ↦ (err spawn_failed, s)
        | some p ↦
            after_wait c p (wait_loop (suc timeout) p (p.started + timeout * nanos_per_second) 0) s
      ]
