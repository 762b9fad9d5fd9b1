-- ===== src/App/Refines.antt =====
-- The whole program against the steps of its event queue: ci-bench-runner/src/event_queue.rs and lib.rs.
use rustls_bench_app.Base.{ℕ, ◌≡◌, refl, inl, inr}
use rustls_bench_app.EventQueue.Worker.{Phase, handling, System}
use rustls_bench_app.EventQueue.Steps
use rustls_bench_app.EventQueue.Steps.{KeepsQueue, count}
use rustls_bench_app.Http.Handlers.{Request, handle_github_webhook}
use rustls_bench_app.Http.Webhook.{Accepted, Refused, handle_github_webhook-cases}
use rustls_bench_app.Http.Served.{stored-Reachable}
use rustls_bench_app.Job.World.{World, Env}
use rustls_bench_app.Job.Handlers.Queue.{handler-KeepsQueue}
use rustls_bench_app.App.{
  Setup, App, context, outcome, world_of, turn, work, request, works, requests, inserts, sends,
  drops, toggles, crashes, reboots, Reachable, boot, next,
}

module _ (setup : Setup) where
  pub outcome-KeepsQueue :
      (p : Phase) (env : Env) (w : World) → KeepsQueue w.db (outcome setup p env w).1.db
  unfolding outcome
  outcome-KeepsQueue (handling e kind job_id) env w =
      handler-KeepsQueue env (context setup e job_id) kind w
  outcome-KeepsQueue p env w = record { same_events = refl; same_jobs = refl }

  request-Reachable :
      (id now : ℕ) (r : Request) (s : System)
      → count id s.started ≡ 0
      → Steps.Reachable s
      → Steps.Reachable (handle_github_webhook setup.crypto setup.webhooks id now r s).1
  unfolding Accepted Refused
  request-Reachable id now r s new_id reached =
      elim (handle_github_webhook-cases setup.crypto setup.webhooks id now r s) [
        | inl (event, (signature, signed, verified, named, allowed), free, done) ↦
            rw done (stored-Reachable id now event r.body s reached new_id allowed free)
        | inr (answer, other, same) ↦ rw same reached
      ]

  reached_system : {a : App} → Reachable setup a → Steps.Reachable a.system
  unfolding work request
  reached_system boot = Steps.boot
  reached_system (next {a} r (works o)) =
      Steps.next (reached_system r)
        (Steps.works (turn setup o a) (outcome-KeepsQueue a.system.phase o.env (world_of setup a)))
  reached_system (next {a} r (requests id now q new_id)) =
      request-Reachable id now q a.system new_id (reached_system r)
  reached_system (next {a} r (inserts id now event body new_id)) =
      Steps.next (reached_system r) (Steps.inserts id now event body new_id)
  reached_system (next {a} r sends) = Steps.next (reached_system r) Steps.sends
  reached_system (next {a} r drops) = Steps.next (reached_system r) Steps.drops
  reached_system (next {a} r (toggles enabled)) =
      Steps.next (reached_system r) (Steps.toggles enabled)
  reached_system (next {a} r crashes) = Steps.next (reached_system r) Steps.crashes
  reached_system (next {a} r reboots) = Steps.next (reached_system r) Steps.reboots

  -- Every state that the whole program reaches, with its real handlers and with webhooks, dropped
  -- requests, crashes and restarts in any order, is one that the steps of the event queue reach:
  -- what holds along these steps holds of the program.
  pub Reachable-system : (a : App) → Reachable setup a → Steps.Reachable a.system
  Reachable-system a r = reached_system r
