-- ===== src/Db/Writes/Queue.antt =====
-- The writes to the queue and the jobs, and the well-formedness of both: ci-bench-runner/src/db.rs.
use rustls_bench_app.Base.{ℕ, ◌≡◌, refl, Bool, some, [], ◌∷◌, ◌++◌, All-append, All-imp, inl, inr}
use rustls_bench_app.Base.Text.{Text}
use rustls_bench_app.Base.Table
use rustls_bench_app.Db.Schema.{Bytes, QueuedEvent, Database, event_key, job_key}
use rustls_bench_app.Db.Events.{
  queued, enqueue_event, delete_event, new_job, new_job_for_event, finish, job_finished,
}
use rustls_bench_app.Db.Writes.Valid.{JobExists, OutcomeAgrees, IsValid}

pub enqueue_event-IsValid :
    (id now : ℕ) (event : Text) (payload : Bytes) (db : Database)
    → IsValid db
    → IsValid (enqueue_event id now event payload db).1
unfolding enqueue_event
enqueue_event-IsValid id now event payload db v =
    let row = queued id now event payload in
    elim (Table.insert-cases event_key row db.event_queue) [
      | inl (taken, e) ↦ rw (e, enqueue_event) v
      | inr (free, e) ↦
          rw (e, enqueue_event)
            (record {
              queue = record {
                events_unique =
                    Table.append-Unique event_key db.event_queue row v.events_unique free;
                jobs_unique = v.jobs_unique;
                jobs_exist =
                    All-append (JobExists db.jobs) db.event_queue (row ∷ []) v.jobs_exist
                      ((λ j h. cc), tt);
                outcomes_agree = v.outcomes_agree;
              };
              history = v.history;
              comparisons = v.comparisons;
              comments = v.comments;
            })
    ]

pub delete_event-IsValid : (id : ℕ) (db : Database) → IsValid db → IsValid (delete_event id db).1
unfolding delete_event
delete_event-IsValid id db v = record {
  queue = record {
    events_unique = Table.delete-Unique event_key id db.event_queue v.events_unique;
    jobs_unique = v.jobs_unique;
    jobs_exist = Table.delete-All event_key (JobExists db.jobs) id db.event_queue v.jobs_exist;
    outcomes_agree = v.outcomes_agree;
  };
  history = v.history;
  comparisons = v.comparisons;
  comments = v.comments;
}

pub new_job_for_event-IsValid :
    (id now event_id event_created_utc : ℕ) (db : Database)
    → IsValid db
    → IsValid (new_job_for_event id now event_id event_created_utc db).1
unfolding new_job_for_event
new_job_for_event-IsValid id now event_id created db v =
    let row = new_job id created now in
    let assign = λ (e : QueuedEvent). record e { job_id = some id } in
    let rows = db.jobs ++ row ∷ [] in
    elim (Table.insert-cases job_key row db.jobs) [
      | inl (taken, e) ↦ rw (e, new_job_for_event) v
      | inr (free, e) ↦
          rw (e, new_job_for_event)
            (record {
              queue = record {
                events_unique =
                    Table.update-Unique event_key event_id assign db.event_queue (λ a. refl)
                      v.events_unique;
                jobs_unique = Table.append-Unique job_key db.jobs row v.jobs_unique free;
                jobs_exist =
                    Table.update-All event_key (JobExists rows) event_id assign db.event_queue
                      (λ a h j eq.
                        let same : id ≡ j = cc in
                        rw (← same) (Table.find-append_self job_key db.jobs row))
                      (All-imp (JobExists db.jobs) (JobExists rows) db.event_queue
                        (λ a h j eq. Table.is_some-find-append job_key j db.jobs row (h j eq))
                        v.jobs_exist);
                outcomes_agree =
                    All-append OutcomeAgrees db.jobs (row ∷ []) v.outcomes_agree (refl, tt);
              };
              history = v.history;
              comparisons = v.comparisons;
              comments = v.comments;
            })
    ]

pub job_finished-IsValid :
    (now id : ℕ) (success : Bool) (db : Database)
    → IsValid db
    → IsValid (job_finished now id success db).1
unfolding job_finished
job_finished-IsValid now id success db v =
    let change = finish now success in
    let rows = Table.update job_key id change db.jobs in
    record {
      queue = record {
        events_unique = v.events_unique;
        jobs_unique = Table.update-Unique job_key id change db.jobs (λ a. refl) v.jobs_unique;
        jobs_exist =
            All-imp (JobExists db.jobs) (JobExists rows) db.event_queue
              (λ a h j eq.
                Table.is_some-find-update job_key j id change db.jobs (λ b. refl) (h j eq))
              v.jobs_exist;
        outcomes_agree =
            Table.update-All job_key OutcomeAgrees id change db.jobs (λ a h. refl) v.outcomes_agree;
      };
      history = v.history;
      comparisons = v.comparisons;
      comments = v.comments;
    }
