-- ===== src/Tests/Reports.antt =====
-- Reports: the token that is refreshed, the results that are sent to bencher.dev, and the history.
use rustls_bench_app.Base.{
  ℕ, ◌+◌, ◌*◌, ◌≤◌, ◌≡◌, refl, none, some, List, [], ◌∷◌, ◌++◌, map, ltb, if◌then◌else◌, arith,
  zero, suc, ◌==◌,
}
use mathlib.Core.Path.{subst}
use rustls_bench_app.Base.Text.{codes, text_eq}
use rustls_bench_app.Base.Table
use rustls_bench_app.Base.Map.{Map, lookup}
use rustls_bench_app.Base.F64.{F64}
use rustls_bench_app.Base.Result.{ok}
use rustls_bench_app.Db.Schema.{icount, walltime, empty_db}
use rustls_bench_app.Db.Results.{store_run_results, result_history}
use rustls_bench_app.Db.Results.Rows.{Stored, bench_result}
use rustls_bench_app.Db.Results.History.{result_history-store}
use rustls_bench_app.Github.Token.{
  AppConfig, Github, CachedOctocrab, State, cached, refresh_token, new, answered, spawned,
  Reachable, starts, goes, sleeps, wakes, answers, asleep, asking,
}
use rustls_bench_app.Github.Token.Age.{token_age_bound}
use rustls_bench_app.Job.Files.{MemoryDetails}
use rustls_bench_app.BencherDev.{Results, bmf_map}
use rustls_bench_app.BencherDev.Report.{values_of}
use rustls_bench_app.BencherDev.Sent.{measures, sent_values, values_of-bmf_map}
use rustls_bench_app.Tests.World.{test_fp, test_client}

-- A client of GitHub is the time of its token.
abbrev pub github : Github (Unit {0}) ℕ
github = record {
  from_rsa_pem = λ pem. some tt;
  build = λ id key base. some 0;
  get_repository_installation = λ client owner name. some 12;
  installation_and_token = λ client installation time. if time == 1902 then none else some time;
}

abbrev app : AppConfig
app = record {
  github_app_id = 3;
  github_app_key = codes "key";
  github_api_url_override = none;
  github_repo_owner = codes "rustls";
  github_repo_name = codes "rustls";
}

abbrev pub first_cache : CachedOctocrab ℕ
first_cache = record { app_client = 0; installation_id = 12; installation_client = 100 }

abbrev begun : State ℕ
begun = spawned github 102 100 first_cache

begun-Reachable : Reachable github 5 app begun
unfolding new spawned
begun-Reachable = starts 102 100 first_cache refl (omega arith) (omega arith)

abbrev later : ℕ → State ℕ → State ℕ
later n s = record s { now = n + s.now }

later-Reachable :
    (n until : ℕ) (s : State ℕ)
    → Reachable github 5 app s
    → s.phase ≡ asleep until
    → n + s.now ≤ until
    → Reachable github 5 app (later n s)
later-Reachable zero until s r e h =
    let same : s.now ≡ 0 + s.now = omega arith in
    subst (λ t. Reachable github 5 app (record s { now = t })) same r
later-Reachable (suc n) until s r e h =
    let same : 1 + (n + s.now) ≡ suc n + s.now = omega arith in
    subst (λ t. Reachable github 5 app (record s { now = t })) same
      (goes (later n s) (record s { now = 1 + (n + s.now) })
        (later-Reachable n until s r e (omega arith)) (sleeps until e (omega arith)))

-- Half an hour later the first refresh fails.
abbrev due : State ℕ
due = later 1800 begun

abbrev refused : State ℕ
refused = answered github 1902 (record due { phase = asking due.now })

refused-Reachable : Reachable github 5 app refused
unfolding spawned
refused-Reachable =
    goes (record due { phase = asking due.now }) refused
      (goes due (record due { phase = asking due.now })
        (later-Reachable 1800 1902 begun begun-Reachable refl (omega arith))
        (wakes 1902 refl (omega arith)))
      (answers 1902 refl)

refused_once : refused.failures ≡ 1
unfolding spawned answered refresh_token
refused_once = refl

token_age_bound_example :
    (github.installation_and_token refused.cache.app_client refused.cache.installation_id
        refused.requested
      ≡ some (cached refused.cache))
    × (refused.now ≤ refused.requested + 1800 + 2 * 5 + refused.failures * (300 + 5))
token_age_bound_example = token_age_bound github 5 app refused refused-Reachable

abbrev counts : Map F64
counts = (codes "handshake", 17) ∷ (codes "bad", 18) ∷ []

abbrev details : Map MemoryDetails
details =
    (
      codes "handshake",
      record {
        heap_total_bytes = 4;
        heap_total_blocks = 3;
        heap_peak_bytes = 2;
        heap_peak_blocks = 1;
      },
    )
    ∷ []

values_of-bmf_map_example :
    (out : Results) × (bmf_map test_client test_fp counts [] details ≡ ok out)
    × (values_of (codes "handshake") (measures test_client) out
        ≡ sent_values test_client test_fp (codes "handshake") counts [] details)
unfolding text_eq lookup
values_of-bmf_map_example =
    values_of-bmf_map test_client (λ s t h. ground (arith, h)) test_fp (codes "handshake") counts []
      details (refl, (refl, (refl, (refl, (refl, (refl, tt))))))
      (
        (refl, (refl, (refl, (refl, (refl, tt))))),
        (
          (refl, (refl, (refl, (refl, tt)))),
          ((refl, (refl, (refl, tt))), ((refl, (refl, tt)), ((refl, tt), (tt, tt)))),
        ),
      )
      (refl, (refl, tt)) tt (refl, tt)

abbrev measured_results : List Stored
measured_results = (codes "handshake", icount, 17) ∷ (codes "handshake", walltime, 18) ∷ []

result_history-store_example :
    ((store_run_results 4 60 measured_results empty_db).0 ≡ ok 4)
    × (result_history 50 (store_run_results 4 60 measured_results empty_db).1
        ≡ ok ([] ++ (if ltb 50 60 then map bench_result measured_results else [])))
unfolding result_history Table.find
result_history-store_example =
    result_history-store 4 60 50 measured_results empty_db []
      (record { runs_unique = tt; results_of_runs = tt }) refl tt refl
