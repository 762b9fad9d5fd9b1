-- ===== src/Tests/Program.antt =====
-- The whole program at work: one push, from its webhook to its results.
use rustls_bench_app.Base.{ℕ, ◌+◌, ◌≡◌, refl, some, none, [], ◌∷◌, arith}
use rustls_bench_app.Base.Text.{codes, text_eq, split, trim, parse_uint, parse_some_digits}
use rustls_bench_app.Base.Map.{insert}
use rustls_bench_app.Base.Sort.{sort}
use rustls_bench_app.Base.Table
use rustls_bench_app.Db.Schema.{empty_db, job_key}
use rustls_bench_app.EventQueue.Views.{push, from_event_string}
use rustls_bench_app.EventQueue.Worker
use rustls_bench_app.EventQueue.Worker.{init, enqueue}
use rustls_bench_app.EventQueue.Steps
use rustls_bench_app.Github.Signature.{verify_webhook_signature}
use rustls_bench_app.Http.Handlers.{handle_github_webhook}
use rustls_bench_app.App.{Setup, App, work, request, works, outcome, Reachable, boot, next}
use rustls_bench_app.App.Refines.{Reachable-system}
use rustls_bench_app.App.Push.{RunsThrough}
use rustls_bench_app.App.Handled.{runs, surroundings, world_before, handled, IsServed}
use rustls_bench_app.App.Handled.Accepted.{webhook_runs_handler}
use rustls_bench_app.Job.Main.Laws.{push_to_main_is_stored}
use rustls_bench_app.Db.Events.{queued}
use rustls_bench_app.Base.Result.{panic}
use rustls_bench_app.App.{context}
use rustls_bench_app.Base.{◌≢◌}
use rustls_bench_app.Job.Files.{
  read_lines, icount_row, read_icount_results, walltime_row, read_walltime_results, memory_row,
  maybe_read_memory_results, parse_all, official_walltime, median, details_of,
}
use rustls_bench_app.Tests.Jobs.{one_icount, one_walltime, one_memory, bencher-TakesMeasures}
use rustls_bench_app.Tests.Queue.{total, absent_above}
use rustls_bench_app.Tests.Web
use rustls_bench_app.Tests.World.{test_env, test_context, test_bencher, test_push}

abbrev pub setup : Setup
setup = record {
  crypto = Web.crypto;
  webhooks = Web.config;
  config = test_context.config;
  bencher_dev = some test_bencher;
  show_id = λ n. (b'0' + n) ∷ [];
}

abbrev pub ids : App → ℕ
ids a = 1 + total a.system.db.jobs

abbrev pub clock : App → ℕ
clock a = 50

abbrev booted : App
booted = record { system = init empty_db; calls = [] }

abbrev pub idle : App
idle = work setup (surroundings setup test_env ids clock booted) booted

pub idle-Reachable : Reachable setup idle
idle-Reachable = next boot (works (surroundings setup test_env ids clock booted))

Reachable-system_example : Steps.Reachable idle.system
Reachable-system_example = Reachable-system setup idle idle-Reachable

pub fresh : (a : App) → Table.find job_key (ids a) a.system.db.jobs ≡ none
fresh a = absent_above (ids a) a.system.db.jobs (omega arith)

through : RunsThrough setup test_env Web.request.body test_push one_icount one_walltime one_memory
unfolding read_icount_results read_walltime_results maybe_read_memory_results read_lines icount_row
    split trim parse_uint parse_some_digits insert walltime_row parse_all official_walltime median
    sort memory_row details_of
through = record {
  parsed = refl;
  kept = refl;
  to_main = refl;
  dirs = refl;
  logs = refl;
  ran = refl;
  icounts_read = refl;
  walltimes_read = refl;
  memory_read = refl;
  takes = bencher-TakesMeasures;
}

push_returns :
    (job_id created : ℕ)
    → (handled setup test_env ids clock idle
        (queued 7 40 (codes "push") Web.request.body)
        push
        job_id
        created).0
      ≢ panic
unfolding work Worker.work Worker.work_at Worker.start init outcome Table.find
push_returns job_id created failed =
    let ended =
      (push_to_main_is_stored test_env
        (context setup (queued 7 40 (codes "push") Web.request.body) job_id) test_push one_icount
        one_walltime one_memory
        (world_before setup test_env ids clock idle (queued 7 40 (codes "push") Web.request.body)
          job_id created)
        refl (refl, refl) refl refl refl through.icounts_read through.walltimes_read
        through.memory_read refl bencher-TakesMeasures).0 in
    cc

webhook_runs_handler_example :
    IsServed setup test_env ids clock idle
      (queued 7 40 (codes "push") Web.request.body)
      push
      (runs setup test_env ids clock 6 (request setup 7 40 Web.request idle))
unfolding work Worker.work Worker.work_at Worker.start init outcome handle_github_webhook enqueue
    verify_webhook_signature from_event_string text_eq Table.insert
webhook_runs_handler_example =
    webhook_runs_handler setup test_env ids clock fresh 7 40 (codes "push") push Web.request idle
      idle-Reachable refl refl refl refl refl refl refl refl push_returns
