-- ===== src/App/Links.antt =====
-- The links in comments and statuses, from where they are made to what they answer:
-- ci-bench-runner/src/job/bench_pr.rs, lib.rs, event_queue.rs and db.rs.
use mathlib.Core.List.{append_assoc}
use rustls_bench_app.Base.{
  ℕ, ◌≡◌, ◌≢◌, ◌∙◌, refl, ap, true, false, false, Option, none, some, [], ◌∷◌, ◌++◌, arith,
}
use rustls_bench_app.Base.Text.{Text, codes}
use rustls_bench_app.Base.Table
use rustls_bench_app.Db.Schema.{QueuedEvent, ScenarioDiff, Database, comparison_key}
use rustls_bench_app.Db.Comparisons.{
  Json, ComparisonResult, find_run, cachegrind_diff, store_comparison_result,
}
use rustls_bench_app.Db.Comparisons.RoundTrip.{IsFresh}
use rustls_bench_app.Db.Comparisons.Diffs.{first_diff, cachegrind_diff-store}
use rustls_bench_app.EventQueue.Views
use rustls_bench_app.EventQueue.Views.{AllowedEvent, JobView}
use rustls_bench_app.EventQueue.Worker.{System, handling}
use rustls_bench_app.EventQueue.Steps.Activity.{runs, has_failed}
use rustls_bench_app.EventQueue.Steps.JobViews.{pending_iff_running, running_job_view}
use rustls_bench_app.Github.Signature.{Crypto}
use rustls_bench_app.Http.Handlers.{Request, Config, document, get_cachegrind_diff, get_job_view}
use rustls_bench_app.Http.Commits.{free_of, get_cachegrind_diff_reads}
use rustls_bench_app.Http.Routes.{
  is_plain, all_plain, Router, get, diff_page, job_page, serve_request,
}
use rustls_bench_app.Http.Routes.Links.{
  IsSegment, diff_path, job_path, serve_request-diff_path, serve_request-job_path,
}
use rustls_bench_app.Job.Bench.{diff_url}
use rustls_bench_app.Job.Bench.Laws.{job_url}
use rustls_bench_app.Job.World.{PrBranches, Env, JobContext}
use rustls_bench_app.App.{Setup, App, context, Reachable}
use rustls_bench_app.App.Refines.{Reachable-system}

append-cons-ne-nil : (s t : Text) → (s ++ b':' ∷ t) ≢ []
append-cons-ne-nil [] t = λ p. cc
append-cons-ne-nil (c ∷ s) t = λ p. cc

colon-inside : (s t : Text) → free_of b':' (s ++ b':' ∷ t) ≡ false
colon-inside [] t = refl
colon-inside (c ∷ s) t = ground (arith, colon-inside s t)

colon-ne : (s t u : Text) → free_of b':' u ≡ true → (s ++ b':' ∷ t) ≢ u
colon-ne s t u h p = let inside : free_of b':' u ≡ false = rw (← p) (colon-inside s t) in cc

all_plain-append :
    (s t : Text) → all_plain s ≡ true → all_plain t ≡ true → all_plain (s ++ t) ≡ true
all_plain-append [] t h k = k
all_plain-append (c ∷ s) t h k = ground (arith, all_plain-append s t)

module _ (router : Router) (parse_uuid : Text → Option ℕ) (sha message : Text) (new_id now : ℕ)
    (r : Request) where
  -- The link that a comment has for a scenario.
  abbrev pub scenario_link : JobContext → PrBranches → (scenario : Text) → Text
  scenario_link ctx b scenario = diff_url ctx b ++ codes "/" ++ scenario

  abbrev pub commits_segment : PrBranches → Text
  commits_segment b = b.baseline.commit_sha ++ b':' ∷ b.candidate.commit_sha

  pub scenario_link-path :
      (ctx : JobContext) (b : PrBranches) (scenario : Text)
      → scenario_link ctx b scenario
        ≡ ctx.config.app_base_url
          ++ (codes "/comparisons/"
              ++ (commits_segment b ++ (codes "/cachegrind-diff/" ++ scenario)))
  scenario_link-path ctx b scenario = simp append_assoc

  -- A text that can be a commit in the path of a link.
  abbrev pub IsCommit : Text → Type 0
  IsCommit s = (free_of b':' s ≡ true) × (all_plain s ≡ true)

  commits_segment-IsSegment :
      (b : PrBranches)
      → IsCommit b.baseline.commit_sha
      → IsCommit b.candidate.commit_sha
      → IsSegment (commits_segment b)
  unfolding is_plain
  commits_segment-IsSegment b (c1, p1) (c2, p2) = record {
    plain = all_plain-append b.baseline.commit_sha (b':' ∷ b.candidate.commit_sha) p1 p2;
    no_dots = (
      colon-ne b.baseline.commit_sha b.candidate.commit_sha (codes ".") refl,
      colon-ne b.baseline.commit_sha b.candidate.commit_sha (codes "..") refl,
    );
    some_character = append-cons-ne-nil b.baseline.commit_sha b.candidate.commit_sha;
  }

  -- After a comparison of two commits was stored, as the first for them, the link of a comment for a
  -- scenario that has a detailed diff leads back to the server, at the application's own address, and
  -- a GET of it is answered by that diff. The commits and the scenario have only letters, digits and
  -- `-._~:`, the commits no colon, and the scenario is neither empty nor one or two dots.
  pub scenario_link_shows_diff :
      {Details : Type 0} (crypto : Crypto) (config : Config) (json : Json) (id time : ℕ)
      (ctx : JobContext) (b : PrBranches) (scenario : Text) (result : ComparisonResult Details)
      (db : Database) (s : System) (d : ScenarioDiff) (text : Text)
      → IsCommit b.baseline.commit_sha
      → IsCommit b.candidate.commit_sha
      → IsSegment scenario
      → Table.find comparison_key id db.comparison_runs ≡ none
      → IsFresh id db.scenario_diffs
      → find_run b.baseline.commit_sha b.candidate.commit_sha db.comparison_runs ≡ none
      → s.db
        ≡ (store_comparison_result json id time b.baseline.commit_sha b.candidate.commit_sha result
            db).1
      → first_diff scenario result.icount.diffs ≡ some d
      → d.cachegrind_diff ≡ some text
      → (path : Text) × (scenario_link ctx b scenario ≡ ctx.config.app_base_url ++ path)
        × (serve_request router parse_uuid crypto config sha message new_id now get path r s
            ≡ (diff_page (document text), s))
  scenario_link_shows_diff crypto config json id time ctx b scenario result db s d text c1 c2
        segment new fresh first stored here diff =
      let commits = commits_segment-IsSegment b c1 c2 in
      let old = b.baseline.commit_sha in
      let candidate = b.candidate.commit_sha in
      let read : cachegrind_diff old candidate scenario s.db ≡ some text =
        ap (cachegrind_diff old candidate scenario) stored
        ∙ cachegrind_diff-store json id time old candidate scenario result db d new fresh first here
        ∙ diff in
      let page : get_cachegrind_diff (commits_segment b) scenario s.db ≡ document text =
        get_cachegrind_diff_reads old candidate scenario s.db c1.0 c2.0 ∙ rw read refl in
      (
        diff_path (commits_segment b) scenario commits segment,
        scenario_link-path ctx b scenario,
        serve_request-diff_path (commits_segment b) scenario commits segment router parse_uuid
              crypto config sha message new_id now r s
            ∙ ap (λ p. (diff_page p, s)) page,
      )

  -- While the handler of a job runs, the link of the commit's status leads back to the server, at the
  -- application's own address, and a GET of it is answered by the view of that job, which says
  -- `Pending`. The state is reachable, and the id of the job is written as a segment of a path that is
  -- read back as this id.
  pub job_link_is_pending :
      (setup : Setup) (env : Env) (a : App) (e : QueuedEvent) (kind : AllowedEvent) (job_id : ℕ)
      → Reachable setup a
      → a.system.phase ≡ handling e kind job_id
      → IsSegment (setup.show_id job_id)
      → parse_uuid (setup.show_id job_id) ≡ some job_id
      → (path : Text) × (view : JobView) × (job_url env (context setup e job_id)
          ≡ setup.config.app_base_url ++ path)
        × (serve_request router parse_uuid setup.crypto setup.webhooks sha message new_id now get
              path r a.system
            ≡ (job_page (document view), a.system))
        × (view.status ≡ Views.pending)
  unfolding get_job_view
  job_link_is_pending setup env a e kind job_id reached at segment parsed =
      let s = a.system in
      let known = Reachable-system setup a reached in
      let running : runs s.phase job_id ≡ true = rw at (ground arith) in
      let (view, shown) = running_job_view s job_id known running in
      let well : has_failed s.phase ≡ false = rw at refl in
      let page : get_job_view job_id s ≡ document view = rw (shown, get_job_view) refl in
      (
        job_path (setup.show_id job_id) segment,
        view,
        append_assoc setup.config.app_base_url (codes "/jobs/") (setup.show_id job_id),
        serve_request-job_path (setup.show_id job_id) segment router parse_uuid setup.crypto
              setup.webhooks sha message new_id now r s job_id parsed
            ∙ ap (λ p. (job_page p, s)) page,
        (pending_iff_running s job_id view known well shown).1 running,
      )
