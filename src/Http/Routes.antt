-- ===== src/Http/Routes.antt =====
-- The routes of `server` in ci-bench-runner/src/lib.rs, and which handler answers a request. The
-- router of axum is a parameter.
pub mod Links
use rustls_bench_app.Base.{
  ℕ, ◌≡◌, Bool, true, false, ◌&&◌, ◌||◌, leb, Option, none, some, List, [], ◌∷◌, ◌==◌,
  if◌then◌else◌,
}
use rustls_bench_app.Base.Text.{Text, codes, split, text_eq}
use rustls_bench_app.Base.Result.{Result}
use rustls_bench_app.EventQueue.Views.{JobView}
use rustls_bench_app.EventQueue.Worker.{System}
use rustls_bench_app.Github.Signature.{Crypto}
use rustls_bench_app.Http.Handlers.{
  StatusCode, bad_request, internal_server_error, Request, Config, handle_github_webhook, Reply,
  ServerInfo, get_server_info, get_job_view, get_cachegrind_diff,
}

pub data Method : Type 0 where
  get head post another : Method

-- The handler that a route leads to.
pub data Endpoint : Type 0 where
  to_webhook to_info to_job to_diff : Endpoint

pub record Route : Type 0 where
  pub pattern : Text
  pub method : Method
  pub endpoint : Endpoint

abbrev pub routes : List Route
routes =
    record { pattern = codes "/webhooks/github"; method = post; endpoint = to_webhook }
    ∷ record { pattern = codes "/info"; method = get; endpoint = to_info }
    ∷ record { pattern = codes "/jobs/:id"; method = get; endpoint = to_job }
    ∷ record {
      pattern = codes "/comparisons/:commits/cachegrind-diff/:scenario";
      method = get;
      endpoint = to_diff;
    }
    ∷ []

-- A path segment by segment against a pattern: a parameter takes one segment that is not empty.
abbrev pub starts_parameter : Text → Bool
starts_parameter [] = false
starts_parameter (c ∷ s) = c == b':'

abbrev pub capture : Text → Option (List Text) → Option (List Text)
capture segment none = none
capture [] (some params) = none
capture (c ∷ s) (some params) = some ((c ∷ s) ∷ params)

unfoldable pub match_segments : (pattern path : List Text) → Option (List Text)
unfolding text_eq
match_segments [] [] = some []
match_segments [] (s ∷ path) = none
match_segments (p ∷ pattern) [] = none
match_segments (p ∷ pattern) (s ∷ path) =
    let rest = match_segments pattern path in
    if starts_parameter p then capture s rest else if text_eq p s then rest else none

-- The characters that stand in the path of a URL for themselves: letters, digits and `-._~:`.
unfoldable pub is_plain : ℕ → Bool
is_plain c =
    (leb b'a' c && leb c b'z')
    || (leb b'A' c && leb c b'Z')
    || (leb b'0' c && leb c b'9')
    || c == b'-'
    || c == b'.'
    || c == b'_'
    || c == b'~'
    || c == b':'

abbrev pub all_plain : Text → Bool
all_plain [] = true
all_plain (c ∷ s) = is_plain c && all_plain s

-- A path of plain characters and slashes only: no query, no fragment, nothing encoded.
abbrev pub is_plain_path : Text → Bool
is_plain_path [] = true
is_plain_path (c ∷ s) = (c == b'/' || is_plain c) && is_plain_path s

-- axum: the parameters of the path of a request's target, where it fits a pattern. A target that is a
-- plain path is taken segment by segment.
pub record Router : Type 0 where
  pub matches : (pattern target : Text) → Option (List Text)
  pub by_segments :
      (pattern path : Text)
      → is_plain_path path ≡ true
      → matches pattern path ≡ match_segments (split b'/' pattern) (split b'/' path)

pub data Response : Type 0 where
  status_only : Result StatusCode → Response
  info_page : ServerInfo → Response
  job_page : Reply JobView → Response
  diff_page : Reply Text → Response
  no_route method_not_allowed : Response

-- A route for `GET` also answers `HEAD`.
abbrev pub allows : Method → Method → Bool
allows get get = true
allows get head = true
allows post post = true
allows route method = false

module _ (router : Router) (parse_uuid : Text → Option ℕ) (crypto : Crypto) (config : Config)
    (git_commit_sha git_commit_message : Text) (new_id now : ℕ) where
  -- The handler with the parameters of the path: an id that is no UUID is refused.
  unfoldable pub answer : Endpoint → List Text → Request → System → Response × System
  unfolding handle_github_webhook get_server_info get_job_view get_cachegrind_diff
  answer to_webhook params r s =
      let (code, t) = handle_github_webhook crypto config new_id now r s in (status_only code, t)
  answer to_info params r s = (info_page (get_server_info git_commit_sha git_commit_message s), s)
  answer to_job (id ∷ []) r s = elim (parse_uuid id) [
    | none ↦ (status_only (Result.ok bad_request), s)
    | some job_id ↦ (job_page (get_job_view job_id s), s)
  ]
  answer to_diff (commits ∷ scenario ∷ []) r s =
      (diff_page (get_cachegrind_diff commits scenario s.db), s)
  answer endpoint params r s = (status_only (Result.ok internal_server_error), s)

  unfoldable pub dispatch :
      List Route → Method → (target : Text) → Request → System → Response × System
  unfolding answer
  dispatch [] method target r s = (no_route, s)
  dispatch (route ∷ rest) method target r s =
      let other = dispatch rest method target r s in
      elim (router.matches route.pattern target) [
        | none ↦ other
        | some params ↦
            if allows route.method method
            then answer route.endpoint params r s
            else (method_not_allowed, s)
      ]

  unfoldable pub serve_request : Method → (target : Text) → Request → System → Response × System
  unfolding dispatch
  serve_request method target r s = dispatch routes method target r s
