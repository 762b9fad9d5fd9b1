-- ===== src/EventQueue/Steps/Serve.antt =====
-- The six steps of the task that serve one event, where nothing goes wrong:
-- `process_queued_events_in_background` of ci-bench-runner/src/event_queue.rs.
use rustls_bench_app.Base.{
  ℕ, suc, ◌≡◌, ◌≢◌, refl, true, none, some, List, [], ◌∷◌, is_some, if◌then◌else◌, arith,
}
use rustls_bench_app.Base.Table
use rustls_bench_app.Base.Result.{panic}
use rustls_bench_app.Db.Schema.{QueuedEvent, event_key, job_key}
use rustls_bench_app.Db.Events.{earliest, new_job, next_queued_event}
use rustls_bench_app.EventQueue.Views.{AllowedEvent, from_event_string}
use rustls_bench_app.EventQueue.Worker.{
  Phase, waiting, woken, fetched, creating, handling, closing, System, Turn, receive, fetch, decide,
  create, conclude, close, work_at, work,
}
use rustls_bench_app.EventQueue.Steps.{KeepsQueue}

-- What the steps take from outside, when nothing goes wrong: ids are new, and a handler ends, with
-- an error or without.
abbrev pub Surroundings : Type 0
Surroundings = System → Turn

pub record IsCalm (o : Surroundings) : Type 0 where
  pub fresh : (s : System) → Table.find job_key (o s).new_id s.db.jobs ≡ none
  pub ends : (s : System) → (o s).result ≢ panic
  pub keeps : (s : System) → KeepsQueue s.db (o s).db_after

-- What a step may depend on.
pub record Is (s : System) (p : Phase) (n : ℕ) (q : List QueuedEvent) (ids : List ℕ) : Type 0 where
  pub phase : s.phase ≡ p
  pub signals : s.signals ≡ n
  pub queue : s.db.event_queue ≡ q
  pub started : s.started ≡ ids
  pub enabled : s.processing_enabled ≡ true

pub delete-update :
    (k : ℕ) (f : QueuedEvent → QueuedEvent) (q : List QueuedEvent)
    → ((e : QueuedEvent) → event_key (f e) ≡ event_key e)
    → Table.delete event_key k (Table.update event_key k f q) ≡ Table.delete event_key k q
unfolding Table.delete Table.update
delete-update k f [] h = refl
delete-update k f (x ∷ q) h = ground (arith, h x, delete-update k f q h)

pub delete-delete :
    (k : ℕ) (q : List QueuedEvent)
    → Table.delete event_key k (Table.delete event_key k q) ≡ Table.delete event_key k q
unfolding Table.delete
delete-delete k [] = refl
delete-delete k (x ∷ q) = ground (arith, delete-delete k q)

module _ (t : Turn) (s : System) (n : ℕ) (q : List QueuedEvent) (ids : List ℕ) where
  abbrev step : System
  step = work t s

  pub receive-Is : Is s waiting (suc n) q ids → Is step woken n q ids
  unfolding work work_at receive
  receive-Is h = record {
    phase = ground (arith, h.phase, h.signals);
    signals = ground (arith, h.phase, h.signals);
    queue = ground (arith, h.phase, h.signals, h.queue);
    started = ground (arith, h.phase, h.signals, h.started);
    enabled = ground (arith, h.phase, h.signals, h.enabled);
  }

  pub fetch-Is :
      (e : QueuedEvent) → earliest q ≡ some e → Is s woken n q ids → Is step (fetched e) n q ids
  unfolding work work_at fetch next_queued_event
  fetch-Is e found h =
      let first : earliest s.db.event_queue ≡ some e = rw h.queue found in
      record {
        phase = ground (arith, h.phase, h.enabled, first);
        signals = ground (arith, h.phase, h.enabled, first, h.signals);
        queue = ground (arith, h.phase, h.enabled, first, h.queue);
        started = ground (arith, h.phase, h.enabled, first, h.started);
        enabled = ground (arith, h.phase, h.enabled, first);
      }

  -- The queue while the job of an event is created.
  abbrev decided : QueuedEvent → List QueuedEvent
  decided e = if is_some e.job_id then Table.delete event_key e.id q else q

  pub decide-Is :
      (e : QueuedEvent) (kind : AllowedEvent)
      → from_event_string e.event ≡ some kind
      → Is s (fetched e) n q ids
      → Is step (creating e kind) n (decided e) ids
  unfolding work work_at decide
  decide-Is e kind allowed h = record {
    phase = ground (arith, h.phase);
    signals = ground (arith, h.phase, h.signals);
    queue = ground (arith, h.phase, h.queue);
    started = ground (arith, h.phase, h.started);
    enabled = ground (arith, h.phase, h.enabled);
  }

  abbrev assigned : ℕ → ℕ → List QueuedEvent
  assigned id job_id = Table.update event_key id (λ r. record r { job_id = some job_id }) q

  pub create-Is :
      (e : QueuedEvent) (kind : AllowedEvent)
      → Table.find job_key t.new_id s.db.jobs ≡ none
      → Is s (creating e kind) n q ids
      → Is step (handling e kind t.new_id) n (assigned e.id t.new_id) (e.id ∷ ids)
  unfolding work work_at create
  create-Is e kind fresh h =
      let inserted =
        Table.insert-fresh job_key (new_job t.new_id e.created_utc t.now) s.db.jobs fresh in
      record {
        phase = ground (arith, h.phase, inserted);
        signals = ground (arith, h.phase, h.signals, inserted);
        queue = ground (arith, h.phase, h.queue, inserted);
        started = ground (arith, h.phase, h.started, inserted);
        enabled = ground (arith, h.phase, h.enabled, inserted);
      }

  pub conclude-Is :
      (e : QueuedEvent) (kind : AllowedEvent) (job_id : ℕ)
      → t.result ≢ panic
      → KeepsQueue s.db t.db_after
      → Is s (handling e kind job_id) n q ids
      → Is step (closing e) n q ids
  unfolding work work_at conclude
  conclude-Is e kind job_id ends keeps h =
      let same = keeps.same_events in
      record {
        phase = ground (arith, h.phase, ends);
        signals = ground (arith, h.phase, ends, h.signals);
        queue = ground (arith, h.phase, ends, h.queue, same);
        started = ground (arith, h.phase, ends, h.started);
        enabled = ground (arith, h.phase, ends, h.enabled);
      }

  pub close-Is :
      (e : QueuedEvent)
      → Is s (closing e) n q ids
      → Is step waiting n (Table.delete event_key e.id q) ids
  unfolding work work_at close
  close-Is e h = record {
    phase = ground (arith, h.phase);
    signals = ground (arith, h.phase, h.signals);
    queue = ground (arith, h.phase, h.queue);
    started = ground (arith, h.phase, h.started);
    enabled = ground (arith, h.phase, h.enabled);
  }
