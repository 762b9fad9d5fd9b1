-- ===== src/Http/Served.antt =====
-- From the webhook to the job: the handler of ci-bench-runner/src/lib.rs with the queue of
-- ci-bench-runner/src/event_queue.rs.
use rustls_bench_app.Base.{ℕ, ◌≡◌, true, none, is_some, arith}
use rustls_bench_app.Base.Text.{Text}
use rustls_bench_app.Base.Table
use rustls_bench_app.Db.Schema.{Bytes, event_key}
use rustls_bench_app.Db.Events.{queued}
use rustls_bench_app.EventQueue.Views.{from_event_string}
use rustls_bench_app.EventQueue.Worker.{System, insert_event, send}
use rustls_bench_app.EventQueue.Steps.{count, inserts, sends, Reachable, next}
use rustls_bench_app.Http.Webhook.{with_webhook}

module _ (id now : ℕ) (event : Text) (body : Bytes) (s : System) where
  abbrev pub stored : System
  stored = with_webhook (queued id now event body) s

  send-inserted :
      is_some (from_event_string event) ≡ true
      → Table.find event_key id s.db.event_queue ≡ none
      → send (insert_event id now event body s).1 ≡ stored
  unfolding send insert_event
  send-inserted allowed fresh =
      ground (arith, Table.insert-fresh event_key (queued id now event body) s.db.event_queue fresh)

  pub stored-Reachable :
      Reachable s
      → count id s.started ≡ 0
      → is_some (from_event_string event) ≡ true
      → Table.find event_key id s.db.event_queue ≡ none
      → Reachable stored
  stored-Reachable r new_id allowed fresh =
      rw (← send-inserted allowed fresh) (next (next r (inserts id now event body new_id)) sends)
