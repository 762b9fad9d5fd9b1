-- ===== src/Runner/Process.antt =====
-- Waiting for a child process until a deadline: the loop of `run_command` of
-- ci-bench-runner/src/runner.rs. The process and the clock are a parameter.
pub mod Deadline
use rustls_bench_app.Base.{ℕ, zero, suc, ◌+◌, Bool, Option, none, some, leb, if◌then◌else◌}
use rustls_bench_app.Base.Result.{Result, ok, err, io_failed, timed_out}
use rustls_bench_app.Db.Schema.{Bytes}

-- What a call of `try_wait` gives.
pub data Poll : Type 0 where
  running : Poll
  -- whether the exit status is a success
  exited : (success : Bool) → Poll
  poll_failed : Poll

-- A process that was started: its polls, and the clock, in nanoseconds, before the loop and at each
-- poll; and all that it printed until it ended or was killed.
pub record Process : Type 0 where
  pub try_wait : ℕ → Poll
  pub started : ℕ
  pub now : ℕ → ℕ
  pub stdout : Bytes
  pub stderr : Bytes

-- `none` is a loop that has not ended after so many polls.
unfoldable pub wait_loop : (polls : ℕ) → Process → (deadline i : ℕ) → Option (Result Bool)
wait_loop zero p deadline i = none
wait_loop (suc polls) p deadline i =
    let rest = wait_loop polls p deadline (suc i) in
    elim (p.try_wait i) [
      | poll_failed ↦ some (err io_failed)
      | exited success ↦ some (ok success)
      | running ↦ if leb deadline (p.now i) then some (err timed_out) else rest
    ]
