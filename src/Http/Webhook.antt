-- ===== src/Http/Webhook.antt =====
-- Which webhooks get into the queue.
use rustls_bench_app.Base.{
  ℕ, ◌+◌, ◌≡◌, ◌≢◌, refl, ◌⊎◌, Bool, true, false, Option, none, some, [], ◌∷◌, ◌++◌, is_some, arith,
  inl, inr,
}
use rustls_bench_app.Base.Text.{Text}
use rustls_bench_app.Base.Table
use rustls_bench_app.Base.Result.{Result, ok, err, panic}
use rustls_bench_app.Db.Schema.{Bytes, QueuedEvent, event_key}
use rustls_bench_app.Db.Events.{queued}
use rustls_bench_app.EventQueue.Views.{from_event_string}
use rustls_bench_app.EventQueue.Worker.{System, enqueue}
use rustls_bench_app.Github.Signature.{Crypto, verify_webhook_signature}
use rustls_bench_app.Http.Handlers.{
  StatusCode, ok_200, bad_request, HeaderValue, visible, opaque, Request, Config, checked,
  accept_event, check_signature, handle_github_webhook,
}

-- One event more in the queue, and one message more for the task.
abbrev pub with_webhook : QueuedEvent → System → System
with_webhook row s = record s {
  db = record s.db { event_queue = s.db.event_queue ++ row ∷ [] };
  signals = s.signals + 1;
}

-- `enqueue` refuses an event of another kind and changes nothing; otherwise it stores the event and
-- sends a message for it, or panics where the database refuses: it never returns an error.
pub enqueue_lem :
    (id now : ℕ) (event : Text) (body : Bytes) (s : System)
    → (from_event_string event ≡ none) × (enqueue id now event body s ≡ (ok none, s))
      ⊎ (is_some (from_event_string event) ≡ true)
        × (Table.find event_key id s.db.event_queue ≡ none)
        × (enqueue id now event body s ≡ (ok (some id), with_webhook (queued id now event body) s))
      ⊎ (is_some (from_event_string event) ≡ true)
        × (is_some (Table.find event_key id s.db.event_queue) ≡ true)
        × (enqueue id now event body s ≡ (panic, s))
unfolding enqueue
enqueue_lem id now event body s =
    ground (arith, Table.insert-cases event_key (queued id now event body) s.db.event_queue)

module _ (crypto : Crypto) (config : Config) (id now : ℕ) (r : Request) (s : System) where
  -- The webhook was signed with the secret, and is of an allowed kind.
  abbrev pub IsGenuine : Text → Type 0
  IsGenuine event =
      (signature : Text) × (r.signature ≡ some (visible signature))
      × (verify_webhook_signature crypto r.body signature config.webhook_secret ≡ ok true)
      × (r.event ≡ some (visible event))
      × (is_some (from_event_string event) ≡ true)

  unfoldable pub Accepted : Result StatusCode × System → Type 0
  Accepted outcome =
      (event : Text) × IsGenuine event
      × (Table.find event_key id s.db.event_queue ≡ none)
      × (outcome ≡ (ok ok_200, with_webhook (queued id now event r.body) s))

  unfoldable pub Refused : Result StatusCode × System → Type 0
  Refused outcome = (answer : Result StatusCode) × (answer ≢ ok ok_200) × (outcome ≡ (answer, s))

  -- What happens behind a good signature, by the header that names the event.
  accept_event_lem :
      (signature : Text) (header : Option HeaderValue)
      → r.signature ≡ some (visible signature)
      → verify_webhook_signature crypto r.body signature config.webhook_secret ≡ ok true
      → r.event ≡ header
      → Accepted (accept_event id now header r.body s)
        ⊎ Refused (accept_event id now header r.body s)
  unfolding accept_event Accepted Refused
  accept_event_lem signature none e v f = inr (ok bad_request, (λ p. cc), refl)
  accept_event_lem signature (some opaque) e v f = inr (ok bad_request, (λ p. cc), refl)
  accept_event_lem signature (some (visible event)) e v f =
      elim (enqueue_lem id now event r.body s) [
        | inl (forbidden, same) ↦ inr (ok bad_request, (λ p. cc), rw same)
        | inr (inl (allowed, free, done)) ↦
            inl (event, (signature, e, v, f, allowed), free, rw done)
        | inr (inr (allowed, taken, same)) ↦ inr (panic, (λ p. cc), rw same)
      ]

  check_signature_lem :
      (header : Option HeaderValue)
      → r.signature ≡ header
      → Accepted (check_signature crypto config id now r header s)
        ⊎ Refused (check_signature crypto config id now r header s)
  unfolding check_signature Accepted Refused
  check_signature_lem none e = inr (ok bad_request, (λ p. cc), refl)
  check_signature_lem (some opaque) e = inr (ok bad_request, (λ p. cc), refl)
  check_signature_lem (some (visible signature)) e =
      go (verify_webhook_signature crypto r.body signature config.webhook_secret) refl
    where
      go :
          (b : Result Bool)
          → verify_webhook_signature crypto r.body signature config.webhook_secret ≡ b
          → Accepted (checked b (accept_event id now r.event r.body s) s)
            ⊎ Refused (checked b (accept_event id now r.event r.body s) s)
      go (ok true) v = accept_event_lem signature r.event e v refl
      go (ok false) v = inr (ok bad_request, (λ p. cc), refl)
      go (err x) v = inr (err x, (λ p. cc), refl)
      go panic v = inr (panic, (λ p. cc), refl)

  pub handle_github_webhook-cases :
      Accepted (handle_github_webhook crypto config id now r s)
      ⊎ Refused (handle_github_webhook crypto config id now r s)
  unfolding handle_github_webhook Accepted Refused
  handle_github_webhook-cases = check_signature_lem r.signature refl

  -- A webhook that is answered by 200 was signed with the secret and is of an allowed kind, and
  -- exactly it was added to the queue, with one message for the task.
  pub accepted_is_authentic :
      (t : System)
      → handle_github_webhook crypto config id now r s ≡ (ok ok_200, t)
      → (event : Text) × IsGenuine event × (t ≡ with_webhook (queued id now event r.body) s)
  unfolding handle_github_webhook Accepted Refused
  accepted_is_authentic t h = elim (check_signature_lem r.signature refl) [
    | inl (event, a, free, done) ↦ (event, a, cc)
    | inr (answer, other, done) ↦ absurd (other (cc))
  ]

  -- With any other answer, and where the handler panics, nothing has changed.
  pub refused_changes_nothing :
      (answer : Result StatusCode) (t : System)
      → handle_github_webhook crypto config id now r s ≡ (answer, t)
      → answer ≢ ok ok_200
      → t ≡ s
  unfolding handle_github_webhook Accepted Refused
  refused_changes_nothing answer t h other = elim (check_signature_lem r.signature refl) [
    | inl (event, a, free, done) ↦ absurd (other (cc))
    | inr (a, _, done) ↦ cc
  ]

  -- An authentic webhook with a new id is answered by 200.
  pub authentic_is_accepted :
      (event : Text)
      → IsGenuine event
      → Table.find event_key id s.db.event_queue ≡ none
      → (handle_github_webhook crypto config id now r s).0 ≡ ok ok_200
  unfolding handle_github_webhook
  authentic_is_accepted event (signature, signed, good, named, allowed) free =
      elim (enqueue_lem id now event r.body s) [
        | inl (forbidden, same) ↦ absurd (ground arith)
        | inr (inl (_, _, done)) ↦ rw (signed, check_signature, good, named, accept_event, done)
        | inr (inr (_, taken, same)) ↦ absurd (ground arith)
      ]
