-- ===== src/EventQueue/Steps/Restarts.antt =====
-- What stays behind: messages in the channel across a restart of the task, and the active job across
-- the end of its handler.
use rustls_bench_app.Base.{ℕ, suc, ◌+◌, ◌≡◌, true, none, some, [], length, arith}
use rustls_bench_app.Base.Result.{ok}
use rustls_bench_app.Db.Schema.{QueuedEvent}
use rustls_bench_app.Db.Events.{earliest}
use rustls_bench_app.EventQueue.Views.{AllowedEvent}
use rustls_bench_app.EventQueue.Worker.{
  waiting, handling, failed, System, Turn, start, receive, fetch, conclude, close, restart, work_at,
  work,
}

-- The task counts the queued events again when it is restarted, though their messages may still be
-- in the channel: the messages that were there come on top of one for each event.
pub restart_recounts :
    (s : System) (t u : Turn)
    → s.phase ≡ failed
    → let after = work u (work t s) in
      (after.phase ≡ waiting) × (after.signals ≡ s.signals + length s.db.event_queue)
unfolding work work_at restart start
restart_recounts s t u p = ground arith

-- So a message for which no event is left ends the task with an error: each one costs a restart, and
-- brings the system back to where it was with one message less.
pub surplus_message_fails :
    (s : System) (n : ℕ) (t u v w : Turn)
    → s.phase ≡ failed
    → s.signals ≡ suc n
    → s.db.event_queue ≡ []
    → s.processing_enabled ≡ true
    → work w (work v (work u (work t s)))
      ≡ record s { signals = n; active_job_id = none; dropped = 0 }
unfolding work work_at restart start receive fetch earliest
surplus_message_fails s n t u v w p signals empty enabled = ground arith

-- When a handler has ended, its event is deleted and the task waits again, but the job stays the
-- active one.
pub active_job_survives :
    (s : System) (e : QueuedEvent) (kind : AllowedEvent) (id : ℕ) (t u : Turn)
    → s.phase ≡ handling e kind id
    → s.active_job_id ≡ some id
    → t.result ≡ ok tt
    → let after = work u (work t s) in (after.phase ≡ waiting) × (after.active_job_id ≡ some id)
unfolding work work_at conclude close
active_job_survives s e kind id t u p active done = ground arith
