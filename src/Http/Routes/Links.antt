-- ===== src/Http/Routes/Links.antt =====
-- The links that go out to GitHub, and the routes that they lead to: ci-bench-runner/src/lib.rs, with
-- `bench_pr` of job/bench_pr.rs and db.rs.
use rustls_bench_app.Base.{
  arith, false, ℕ, ◌≡◌, ◌≢◌, ◌∙◌, refl, ap, true, Option, none, some, List, [], ◌∷◌, ◌++◌,
}
use rustls_bench_app.Base.Text.{Text, codes, split, push_head, text_eq}
use rustls_bench_app.EventQueue.Worker.{System}
use rustls_bench_app.Github.Signature.{Crypto}
use rustls_bench_app.Http.Handlers.{Request, Config, get_cachegrind_diff, get_job_view}
use rustls_bench_app.Http.Commits.{free_of, split_first, split_none}
use rustls_bench_app.Http.Routes.{
  is_plain, all_plain, is_plain_path, Router, get, diff_page, job_page, capture, match_segments,
  dispatch, answer, serve_request,
}

free_of-plain :
    (sep : ℕ) (s : Text) → is_plain sep ≡ false → all_plain s ≡ true → free_of sep s ≡ true
free_of-plain sep [] special h = refl
free_of-plain sep (c ∷ s) special h = ground (arith, free_of-plain sep s)

all_plain-path :
    (s t : Text) → all_plain s ≡ true → is_plain_path t ≡ true → is_plain_path (s ++ t) ≡ true
all_plain-path [] t h k = k
all_plain-path (c ∷ s) t h k = ground (arith, all_plain-path s t)

all_plain-plain_path : (s : Text) → all_plain s ≡ true → is_plain_path s ≡ true
all_plain-plain_path [] h = refl
all_plain-plain_path (c ∷ s) h = ground (arith, all_plain-plain_path s)

-- What stays one segment of a URL's path, as it is: a client does away with `.` and `..`.
pub record IsSegment (s : Text) : Type 0 where
  pub plain : all_plain s ≡ true
  pub no_dots : (s ≢ codes ".") × (s ≢ codes "..")
  pub some_character : s ≢ []

capture-some :
    (s : Text) (params : List Text) → s ≢ [] → capture s (some params) ≡ some (s ∷ params)
capture-some [] params h = absurd (h refl)
capture-some (c ∷ s) params h = refl

module _ (commits scenario : Text) (cs : IsSegment commits) (ss : IsSegment scenario) where
  abbrev pub diff_path : Text
  diff_path = codes "/comparisons/" ++ (commits ++ (codes "/cachegrind-diff/" ++ scenario))

  diff_path-segments :
      split b'/' diff_path
      ≡ [] ∷ codes "comparisons" ∷ commits ∷ codes "cachegrind-diff" ∷ scenario ∷ []
  unfolding split push_head is_plain
  diff_path-segments =
      rw
        (
          split_first b'/' commits (codes "cachegrind-diff/" ++ scenario)
              (free_of-plain b'/' commits refl cs.plain),
          split_none b'/' scenario (free_of-plain b'/' scenario refl ss.plain),
        )
        refl

  diff_path-plain : is_plain_path diff_path ≡ true
  unfolding is_plain
  diff_path-plain =
      all_plain-path commits (codes "/cachegrind-diff/" ++ scenario) cs.plain
        (all_plain-plain_path scenario ss.plain)

  module _ (router : Router) where
    diff_path-at :
        (pattern : Text)
        → router.matches pattern diff_path
          ≡ match_segments
              (split b'/' pattern)
              ([] ∷ codes "comparisons" ∷ commits ∷ codes "cachegrind-diff" ∷ scenario ∷ [])
    diff_path-at pattern =
        router.by_segments pattern diff_path diff_path-plain
        ∙ ap (match_segments (split b'/' pattern)) diff_path-segments

    diff_path-not_webhook : router.matches (codes "/webhooks/github") diff_path ≡ none
    unfolding match_segments split push_head text_eq
    diff_path-not_webhook = diff_path-at (codes "/webhooks/github")

    diff_path-not_info : router.matches (codes "/info") diff_path ≡ none
    unfolding match_segments split push_head text_eq
    diff_path-not_info = diff_path-at (codes "/info")

    diff_path-not_job : router.matches (codes "/jobs/:id") diff_path ≡ none
    unfolding match_segments split push_head text_eq
    diff_path-not_job = diff_path-at (codes "/jobs/:id")

    diff_path-captures :
        router.matches (codes "/comparisons/:commits/cachegrind-diff/:scenario") diff_path
        ≡ some (commits ∷ scenario ∷ [])
    unfolding match_segments split push_head text_eq
    diff_path-captures =
        diff_path-at (codes "/comparisons/:commits/cachegrind-diff/:scenario")
        ∙ ap (capture commits) (capture-some scenario [] ss.some_character)
        ∙ capture-some commits (scenario ∷ []) cs.some_character

    -- The path of a detailed diff is answered by the handler for it.
    pub serve_request-diff_path :
        (parse_uuid : Text → Option ℕ) (crypto : Crypto) (config : Config) (sha message : Text)
        (new_id now : ℕ) (r : Request) (s : System)
        → serve_request router parse_uuid crypto config sha message new_id now get diff_path r s
          ≡ (diff_page (get_cachegrind_diff commits scenario s.db), s)
    unfolding serve_request dispatch answer
    serve_request-diff_path parse_uuid crypto config sha message new_id now r s =
        rw (diff_path-not_webhook, diff_path-not_info, diff_path-not_job, diff_path-captures) refl

module _ (id : Text) (is : IsSegment id) where
  abbrev pub job_path : Text
  job_path = codes "/jobs/" ++ id

  job_path-plain : is_plain_path job_path ≡ true
  unfolding is_plain
  job_path-plain = all_plain-plain_path id is.plain

  job_path-segments : split b'/' job_path ≡ [] ∷ codes "jobs" ∷ id ∷ []
  unfolding split push_head is_plain
  job_path-segments = rw (split_none b'/' id (free_of-plain b'/' id refl is.plain)) refl

  module _ (router : Router) where
    job_path-at :
        (pattern : Text)
        → router.matches pattern job_path
          ≡ match_segments (split b'/' pattern) ([] ∷ codes "jobs" ∷ id ∷ [])
    job_path-at pattern =
        router.by_segments pattern job_path job_path-plain
        ∙ ap (match_segments (split b'/' pattern)) job_path-segments

    job_path-not_webhook : router.matches (codes "/webhooks/github") job_path ≡ none
    unfolding match_segments split push_head text_eq
    job_path-not_webhook = job_path-at (codes "/webhooks/github")

    job_path-not_info : router.matches (codes "/info") job_path ≡ none
    unfolding match_segments split push_head text_eq
    job_path-not_info = job_path-at (codes "/info")

    job_path-captures : router.matches (codes "/jobs/:id") job_path ≡ some (id ∷ [])
    unfolding match_segments split push_head text_eq
    job_path-captures = job_path-at (codes "/jobs/:id") ∙ capture-some id [] is.some_character

    -- The path of a job is answered by the handler for it.
    pub serve_request-job_path :
        (parse_uuid : Text → Option ℕ) (crypto : Crypto) (config : Config) (sha message : Text)
        (new_id now : ℕ) (r : Request) (s : System) (job_id : ℕ)
        → parse_uuid id ≡ some job_id
        → serve_request router parse_uuid crypto config sha message new_id now get job_path r s
          ≡ (job_page (get_job_view job_id s), s)
    unfolding serve_request dispatch answer
    serve_request-job_path parse_uuid crypto config sha message new_id now r s job_id parsed =
        rw (job_path-not_webhook, job_path-not_info, job_path-captures, answer, parsed) refl
