-- ===== src/Tests/Links.antt =====
-- The links of a comment and of a commit's status, followed back to the server.
use rustls_bench_app.Base.{ℕ, ◌-◌, ◌≡◌, refl, some, none, Option, [], ◌∷◌, ◌++◌}
use rustls_bench_app.Base.Text.{Text, codes, split, text_eq}
use rustls_bench_app.Base.Table
use rustls_bench_app.Db.Schema.{QueuedEvent, empty_db}
use rustls_bench_app.Db.Events.{queued}
use rustls_bench_app.Db.Comparisons.{ComparisonResult, store_comparison_result, find_run}
use rustls_bench_app.EventQueue.Views
use rustls_bench_app.EventQueue.Views.{JobView, push, from_event_string}
use rustls_bench_app.EventQueue.Worker
use rustls_bench_app.EventQueue.Worker.{System, init, enqueue, handling}
use rustls_bench_app.Github.Signature.{verify_webhook_signature}
use rustls_bench_app.Http.Handlers.{document, handle_github_webhook}
use rustls_bench_app.Http.Routes.{
  is_plain, Router, get, diff_page, job_page, match_segments, serve_request,
}
use rustls_bench_app.Http.Routes.Links.{IsSegment}
use rustls_bench_app.Job.Bench.Laws.{job_url}
use rustls_bench_app.App.{
  Outside, App, context, work, works, request, requests, outcome, Reachable, next,
}
use rustls_bench_app.App.Handled.{surroundings}
use rustls_bench_app.App.Links.{scenario_link, scenario_link_shows_diff, job_link_is_pending}
use rustls_bench_app.Tests.Measurements.{handshake_diff}
use rustls_bench_app.Tests.Program.{setup, ids, clock, idle, idle-Reachable}
use rustls_bench_app.Tests.Web
use rustls_bench_app.Tests.World.{test_env, test_json, test_context, test_branches}

-- A router that splits paths at slashes.
abbrev router : Router
router = record {
  matches = λ pattern path. match_segments (split b'/' pattern) (split b'/' path);
  by_segments = λ pattern path plain. refl;
}

-- Ids are written as single digits.
abbrev parse_uuid : Text → Option ℕ
parse_uuid [] = none
parse_uuid (c ∷ s) = some (c - b'0')

abbrev result : ComparisonResult (Unit {0})
result = record {
  icount = record {
    diffs = handshake_diff ∷ [];
    scenarios_missing_in_baseline = [];
    memory_details = none;
  };
  walltime = record { diffs = []; scenarios_missing_in_baseline = []; memory_details = none };
  memory = record { diffs = []; scenarios_missing_in_baseline = []; memory_details = none };
}

abbrev compared : System
compared = record (init empty_db) {
  db = (store_comparison_result test_json 3 50 (codes "beef") (codes "cafe") result empty_db).1;
}

handshake-IsSegment : IsSegment (codes "handshake")
unfolding is_plain
handshake-IsSegment = record {
  plain = refl;
  no_dots = (λ p. cc, λ p. cc);
  some_character = λ p. cc;
}

scenario_link_shows_diff_example :
    (path : Text) × (scenario_link router parse_uuid [] [] 8 60 Web.request test_context
        test_branches
        (codes "handshake")
      ≡ codes "https://bench" ++ path)
    × (serve_request router parse_uuid Web.crypto Web.config [] [] 8 60 get path Web.request
          compared
        ≡ (diff_page (document (codes "handshake")), compared))
unfolding Table.find find_run text_eq is_plain
scenario_link_shows_diff_example =
    scenario_link_shows_diff router parse_uuid [] [] 8 60 Web.request Web.crypto Web.config
      test_json 3 50 test_context test_branches (codes "handshake") result empty_db compared
      handshake_diff (codes "handshake") (refl, refl) (refl, refl) handshake-IsSegment refl tt refl
      refl refl refl

abbrev outside : App → Outside
outside = surroundings setup test_env ids clock

abbrev step : App → App
step a = work setup (outside a) a

abbrev asked : App
asked = request setup 7 40 Web.request idle

abbrev running : App
running = step (step (step (step asked)))

running-Reachable : Reachable setup running
unfolding work Worker.work Worker.work_at Worker.start init
running-Reachable =
    next
      (next
        (next (next (next idle-Reachable (requests 7 40 Web.request refl)) (works (outside asked)))
          (works (outside (step asked))))
        (works (outside (step (step asked)))))
      (works (outside (step (step (step asked)))))

abbrev event : QueuedEvent
event = queued 7 40 (codes "push") (codes "{}")

one-IsSegment : IsSegment (codes "1")
unfolding is_plain
one-IsSegment = record { plain = refl; no_dots = (λ p. cc, λ p. cc); some_character = λ p. cc }

job_link_is_pending_example :
    (path : Text) × (view : JobView) × (job_url test_env (context setup event 1)
      ≡ codes "https://bench" ++ path)
    × (serve_request router parse_uuid Web.crypto Web.config [] [] 8 60 get path Web.request
          running.system
        ≡ (job_page (document view), running.system))
    × (view.status ≡ Views.pending)
unfolding work Worker.work Worker.work_at Worker.start Worker.receive Worker.fetch Worker.decide
    Worker.create init outcome request handle_github_webhook enqueue verify_webhook_signature
    from_event_string text_eq Table.insert Table.find
job_link_is_pending_example =
    job_link_is_pending router parse_uuid [] [] 8 60 Web.request setup test_env running event push 1
      running-Reachable refl one-IsSegment refl
