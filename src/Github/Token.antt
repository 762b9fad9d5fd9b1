-- ===== src/Github/Token.antt =====
-- The installation's token and its refresh: `CachedOctocrab` of ci-bench-runner/src/github.rs.
-- octocrab's clients and the GitHub API are a parameter; an answer depends on the time of the request.
pub mod Age
use rustls_bench_app.Base.{ℕ, ◌+◌, ◌≤◌, ◌<◌, ◌≡◌, Option, none, some, Bool}
use rustls_bench_app.Base.Text.{Text}
use rustls_bench_app.Base.Result.{Result, ok, err, panic, ok_or, ◌>>=◌, api_failed, invalid_payload}

-- What `new` reads of the configuration.
pub record AppConfig : Type 0 where
  pub github_app_id : ℕ
  pub github_app_key : Text
  pub github_api_url_override : Option Text
  pub github_repo_owner : Text
  pub github_repo_name : Text

-- The key's parser, the client's builder, and the requests that a client makes.
pub record Github (Key Octocrab : Type 0) : Type 0 where
  pub from_rsa_pem : Text → Option Key
  pub build : (app_id : ℕ) → Key → (base_uri : Option Text) → Option Octocrab
  pub get_repository_installation : Octocrab → (owner name : Text) → Option ℕ
  pub installation_and_token : Octocrab → (installation_id time : ℕ) → Option Octocrab

pub record CachedOctocrab (Octocrab : Type 0) : Type 0 where
  pub app_client : Octocrab
  pub installation_id : ℕ
  pub installation_client : Octocrab

-- `Duration::from_secs(60 * 30)` and `Duration::from_secs(60 * 5)`, in seconds.
abbrev pub refresh_period : ℕ
refresh_period = 1800

abbrev pub retry_period : ℕ
retry_period = 300

module _ {Key Octocrab : Type 0} (github : Github Key Octocrab) where
  -- Once, with the request made at `time`.
  unfoldable pub refresh_token :
      (time : ℕ) → CachedOctocrab Octocrab → Result (CachedOctocrab Octocrab)
  refresh_token time cache = do
    authenticated_client ←
        ok_or (github.installation_and_token cache.app_client cache.installation_id time) api_failed
    ok (record cache { installation_client = authenticated_client })

  unfoldable pub new : (time : ℕ) → AppConfig → Result (CachedOctocrab Octocrab)
  unfolding refresh_token
  new time config = do
    key ← ok_or (github.from_rsa_pem config.github_app_key) invalid_payload
    app_client ←
        ok_or (github.build config.github_app_id key config.github_api_url_override) invalid_payload
    installation ←
        ok_or
          (github.get_repository_installation app_client config.github_repo_owner
            config.github_repo_name)
          api_failed
    refresh_token time (record {
      app_client = app_client;
      installation_id = installation;
      installation_client = app_client;
    })

abbrev pub cached : {Octocrab : Type 0} → CachedOctocrab Octocrab → Octocrab
cached cache = cache.installation_client

-- Where the background task is: in a sleep, waiting for the answer to a request, or gone.
pub data Phase : Type 0 where
  asleep : (until : ℕ) → Phase
  asking : (since : ℕ) → Phase
  ended : Phase

-- `requested` is the time of the request that brought the cached client, and `failures` counts the
-- failed attempts since then.
pub record State (Octocrab : Type 0) : Type 0 where
  pub now : ℕ
  pub phase : Phase
  pub cache : CachedOctocrab Octocrab
  pub requested : ℕ
  pub failures : ℕ

module _ {Key Octocrab : Type 0} (github : Github Key Octocrab) where
  -- The answer comes: a client is kept for half an hour, a failure is tried again after five minutes.
  unfoldable pub answered : (since : ℕ) → State Octocrab → State Octocrab
  unfolding refresh_token
  answered since s = elim (refresh_token github since s.cache) [
    | ok cache ↦ record {
      now = s.now;
      phase = asleep (s.now + refresh_period);
      cache = cache;
      requested = since;
      failures = 0;
    }
    | err e ↦ record s { phase = asleep (s.now + retry_period); failures = 1 + s.failures }
    | panic ↦ record s { phase = ended }
  ]

  -- The task's life, where every answer comes within `patience` seconds: time passes, unless
  -- the task is due.
  pub data Step (patience : ℕ) (s : State Octocrab) : State Octocrab → Type 0 where
    sleeps :
        (until : ℕ)
        → s.phase ≡ asleep until
        → s.now < until
        → Step patience s (record s { now = 1 + s.now })
    waits :
        (since : ℕ)
        → s.phase ≡ asking since
        → s.now < since + patience
        → Step patience s (record s { now = 1 + s.now })
    wakes :
        (until : ℕ)
        → s.phase ≡ asleep until
        → until ≤ s.now
        → Step patience s (record s { phase = asking s.now })
    answers : (since : ℕ) → s.phase ≡ asking since → Step patience s (answered since s)

  -- After `new`, whose request was answered at `now`.
  unfoldable pub spawned : (now time : ℕ) → CachedOctocrab Octocrab → State Octocrab
  spawned now time cache = record {
    now = now;
    phase = asleep (now + refresh_period);
    cache = cache;
    requested = time;
    failures = 0;
  }

  pub data Reachable (patience : ℕ) (config : AppConfig) : State Octocrab → Type 0 where
    starts :
        (now time : ℕ) (cache : CachedOctocrab Octocrab)
        → new github time config ≡ ok cache
        → time ≤ now
        → now ≤ time + patience
        → Reachable patience config (spawned now time cache)
    goes :
        (s t : State Octocrab)
        → Reachable patience config s
        → Step patience s t
        → Reachable patience config t
