-- ===== src/Github/Token/Age.antt =====
-- How old the cached token gets: ci-bench-runner/src/github.rs, `refresh_token_in_background`.
use rustls_bench_app.Base.{
  ℕ, ◌+◌, ◌*◌, ◌≤◌, ◌≡◌, some, Option-cases, refl, sym, inl, inr, arith, ◌⊎◌,
}
use mathlib.Core.Path.{subst}
use rustls_bench_app.Base.Result.{Error, ok, err, api_failed}
use rustls_bench_app.Github.Token.{
  AppConfig, Github, CachedOctocrab, refresh_token, new, refresh_period, retry_period, cached,
  Phase, asleep, asking, ended, State, answered, Step, sleeps, waits, wakes, answers, spawned,
  Reachable, starts, goes,
}

-- The next request is due by then.
abbrev pub due_by : (patience requested failures : ℕ) → ℕ
due_by patience requested failures =
    requested + patience + refresh_period + failures * (patience + retry_period)

abbrev pub InTime : (patience now requested failures : ℕ) → Phase → Type 0
InTime patience now requested failures (asleep until) =
    now ≤ until × until ≤ due_by patience requested failures
InTime patience now requested failures (asking since) =
    now ≤ since + patience × since ≤ due_by patience requested failures
InTime patience now requested failures ended = ⊥

module _ {Key Octocrab : Type 0} (github : Github Key Octocrab) where
  -- The cached client is the answer to the request that was made at `requested`.
  abbrev pub IsAnswer : State Octocrab → Type 0
  IsAnswer s =
      github.installation_and_token s.cache.app_client s.cache.installation_id s.requested
      ≡ some (cached s.cache)

  refresh_token-cases :
      (time : ℕ) (c : CachedOctocrab Octocrab)
      → ((e : Error) × (refresh_token github time c ≡ err e))
        ⊎ ((a : Octocrab) × (github.installation_and_token c.app_client c.installation_id time
              ≡ some a)
            × (refresh_token github time c ≡ ok (record c { installation_client = a })))
  unfolding refresh_token
  refresh_token-cases time c =
      elim (Option-cases (github.installation_and_token c.app_client c.installation_id time)) [
        | inl e ↦ inl (api_failed, rw e refl)
        | inr (a, e) ↦ inr (a, e, rw e refl)
      ]

  refresh_token-answer :
      (time : ℕ) (c d : CachedOctocrab Octocrab)
      → refresh_token github time c ≡ ok d
      → github.installation_and_token d.app_client d.installation_id time
        ≡ some d.installation_client
  refresh_token-answer time c d h = elim (refresh_token-cases time c) [
    | inl (e, failed) ↦ cc
    | inr (a, e, found) ↦
        let same : record c { installation_client = a } ≡ d = cc in rw (sym same) e
  ]

  new-answer :
      (time : ℕ) (config : AppConfig) (d : CachedOctocrab Octocrab)
      → new github time config ≡ ok d
      → github.installation_and_token d.app_client d.installation_id time
        ≡ some d.installation_client
  unfolding new
  new-answer time config d = elim (Option-cases (github.from_rsa_pem config.github_app_key)) [
    | inl e ↦ rw (e, new) (λ h. cc)
    | inr (key, e) ↦
        elim (Option-cases (github.build config.github_app_id key config.github_api_url_override)) [
          | inl f ↦ rw (e, new, f) (λ h. cc)
          | inr (app, f) ↦
              elim (Option-cases (
                github.get_repository_installation app config.github_repo_owner
                  config.github_repo_name)) [
                    | inl g ↦ rw (e, new, f, g) (λ h. cc)
                    | inr (installation, g) ↦
                        rw (e, new, f, g)
                          (λ h.
                            refresh_token-answer time
                              (record {
                                app_client = app;
                                installation_id = installation;
                                installation_client = app;
                              })
                              d h)
                  ]
        ]
  ]

  -- One step keeps both.
  abbrev pub Holds : ℕ → State Octocrab → Type 0
  Holds patience s = IsAnswer s × InTime patience s.now s.requested s.failures s.phase

  answered-Holds :
      (patience since : ℕ) (s : State Octocrab)
      → IsAnswer s
      → InTime patience s.now s.requested s.failures (asking since)
      → Holds patience (answered github since s)
  unfolding answered
  answered-Holds patience since s answer (now, due) = elim (refresh_token-cases since s.cache) [
    | inl (x, failed) ↦ rw (failed, answered) (answer, (omega arith, omega arith))
    | inr (a, given, fresh) ↦ rw (fresh, answered) (given, (omega arith, omega arith))
  ]

  Step-Holds :
      (patience : ℕ) (s t : State Octocrab)
      → Step github patience s t
      → Holds patience s
      → Holds patience t
  Step-Holds patience s t (sleeps until e due) (answer, time) =
      let (now, by) = subst (InTime patience s.now s.requested s.failures) e time in
      (answer, subst (InTime patience (1 + s.now) s.requested s.failures) (sym e) (omega arith, by))
  Step-Holds patience s t (waits since e due) (answer, time) =
      let (now, by) = subst (InTime patience s.now s.requested s.failures) e time in
      (answer, subst (InTime patience (1 + s.now) s.requested s.failures) (sym e) (omega arith, by))
  Step-Holds patience s t (wakes until e due) (answer, time) =
      let (now, by) = subst (InTime patience s.now s.requested s.failures) e time in
      (answer, (omega arith, omega arith))
  Step-Holds patience s t (answers since e) (answer, time) =
      answered-Holds patience since s answer
        (subst (InTime patience s.now s.requested s.failures) e time)

  Reachable-Holds :
      (patience : ℕ) (config : AppConfig) {s : State Octocrab}
      → Reachable github patience config s
      → Holds patience s
  unfolding spawned
  Reachable-Holds patience config (starts now time cache e later soon) =
      (new-answer time config cache e, (omega arith, omega arith))
  Reachable-Holds patience config (goes s t r x) =
      Step-Holds patience s t x (Reachable-Holds patience config r)

  InTime-now :
      (patience now requested failures : ℕ) (p : Phase)
      → InTime patience now requested failures p
      → now ≤ due_by patience requested failures + patience
  InTime-now patience now requested failures (asleep until) h = omega (arith, h.0, h.1)
  InTime-now patience now requested failures (asking since) h = omega (arith, h.0, h.1)
  InTime-now patience now requested failures ended h = elim h [ ]

  -- Where every answer of GitHub comes within `patience` seconds, in every state that is reached after
  -- `new` the cached client is the answer to an authenticated request, and that request is at most
  -- half an hour, two waits for an answer, and for each failure since then five minutes and one more wait old.
  pub token_age_bound :
      (patience : ℕ) (config : AppConfig) (s : State Octocrab)
      → Reachable github patience config s
      → (github.installation_and_token s.cache.app_client s.cache.installation_id s.requested
          ≡ some (cached s.cache))
        × (s.now ≤ s.requested + 1800 + 2 * patience + s.failures * (300 + patience))
  token_age_bound patience config s r =
      let (answer, time) = Reachable-Holds patience config r in
      let now = InTime-now patience s.now s.requested s.failures s.phase time in
      (answer, omega arith)
