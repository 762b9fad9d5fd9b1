-- ===== src/Tests/World.antt =====
-- A pull request, the world around it, and what the tests take for the program's surroundings.
use rustls_bench_app.Base.{
  if◌then◌else◌, ℕ, zero, suc, ◌+◌, ◌-◌, ◌*◌, ◌/◌, ◌^◌, ◌≡◌, refl, true, false, Option, none, some,
  List, [], ◌∷◌, ◌++◌, map, arith,
}
use rustls_bench_app.Base.Text.{text_eq, Text, codes, parse_uint}
use rustls_bench_app.Base.F64.{Arith}
use rustls_bench_app.Base.Result.{ok}
use rustls_bench_app.Db.Schema.{empty_db}
use rustls_bench_app.Db.Comparisons.{Json}
use rustls_bench_app.BencherDev.{BencherDev, Client}
use rustls_bench_app.Job.World.{
  PrBranches, Repository, PullRequest, PullRequestReviewEvent, CommentEvent, PushEvent, opened,
  of_pull_request, World, ResultFiles, Env, JobContext,
}

-- A text for a list of texts: every character moved up by one, and a zero behind each text.
unfoldable pub write_texts : List Text → Text
write_texts [] = []
write_texts (t ∷ ts) = map suc t ++ 0 ∷ write_texts ts

abbrev push_char : ℕ → Option (List Text) → Option (List Text)
push_char c none = none
push_char c (some []) = none
push_char c (some (t ∷ ts)) = some ((c ∷ t) ∷ ts)

abbrev push_empty : Option (List Text) → Option (List Text)
push_empty none = none
push_empty (some ts) = some ([] ∷ ts)

unfoldable pub read_texts : Text → Option (List Text)
read_texts [] = some []
read_texts (zero ∷ s) = push_empty (read_texts s)
read_texts (suc c ∷ s) = push_char c (read_texts s)

read_texts-text :
    (t : Text) (s : Text) (ts : List Text)
    → read_texts s ≡ some ts
    → read_texts (map suc t ++ 0 ∷ s) ≡ some (t ∷ ts)
unfolding read_texts
read_texts-text [] s ts h = ground arith
read_texts-text (c ∷ t) s ts h = ground (arith, read_texts-text t s ts h)

pub read_texts-write_texts : (l : List Text) → read_texts (write_texts l) ≡ some l
unfolding read_texts write_texts
read_texts-write_texts [] = refl
read_texts-write_texts (t ∷ ts) = read_texts-text t (write_texts ts) ts (read_texts-write_texts ts)

abbrev pub test_json : Json
test_json = record {
  to_string = write_texts;
  from_str = read_texts;
  round_trip = read_texts-write_texts;
}

-- Patterns taken for numbers.
abbrev pub test_fp : Arith
test_fp = record {
  sub = λ x y. x - y;
  div = λ x y. x / y;
  add = λ x y. x + y;
  mul = λ x y. x * y;
  of_uint = λ n. n;
  parse = parse_uint (2 ^ 64);
  sort_unordered = λ l. none;
}

abbrev pub test_repo : Repository
test_repo = record {
  full_name = some (codes "rustls/rustls");
  clone_url = some (codes "https://github.com/rustls/rustls.git");
}

abbrev pub test_pr : PullRequest
test_pr = record {
  number = 42;
  head = record { ref_field = codes "feature"; sha = codes "cafe"; repo = some test_repo };
  base = record { ref_field = codes "main"; sha = codes "beef"; repo = some test_repo };
}

abbrev pub test_branches : PrBranches
test_branches = record {
  baseline = record {
    clone_url = codes "https://github.com/rustls/rustls.git";
    branch_name = codes "main";
    commit_sha = codes "beef";
  };
  candidate = record {
    clone_url = codes "https://github.com/rustls/rustls.git";
    branch_name = codes "feature";
    commit_sha = codes "cafe";
  };
}

abbrev pub test_comment : CommentEvent
test_comment = record {
  action = codes "created";
  comment = record {
    author_association = codes "MEMBER";
    body = codes "@rustls-benchmarking bench";
    user_id = 7;
  };
  issue = record { number = 42; has_pull_request = true };
}

abbrev pub test_review : PullRequestReviewEvent
test_review = record {
  action = codes "submitted";
  review = record {
    author_association = codes "OWNER";
    state = codes "approved";
    commit_id = codes "f00d";
  };
  pull_request = test_pr;
}

abbrev pub test_push : PushEvent
test_push = record {
  git_ref = codes "refs/heads/main";
  clone_url = codes "https://github.com/rustls/rustls.git";
  after = codes "beef";
  deleted = false;
}

abbrev pub test_files : ResultFiles
test_files = record {
  icounts = some (some (codes "handshake,1000\n") ∷ []);
  walltimes = some (some (codes "handshake,30,10,20\n") ∷ []);
  memory = some (some (codes "handshake,64,2,32,1\n") ∷ []);
}

abbrev pub test_env : Env
test_env = record {
  fp = test_fp;
  json = test_json;
  parse_comment = λ b. some test_comment;
  parse_review = λ b. some test_review;
  parse_update = λ e b. some (of_pull_request opened test_pr);
  parse_push = λ b. some test_push;
  get_pr = λ n. some test_pr;
  create_comment = λ n body. some 1001;
  update_comment = λ id body. true;
  run = λ c. ok tt;
  base_files = test_files;
  candidate_files = test_files;
  callgrind_diff = λ s. ok (codes "same");
  temp_dirs = true;
  logs_written = true;
  success_comment = λ b i w m url project. url;
  error_comment = λ b e. codes "error";
  now = 50;
  started = 45;
  thirty_days_ago = 20;
  new_id = 9;
}

-- A service that takes every name but one.
abbrev pub test_client : Client
test_client = record {
  parse_name = λ s. if text_eq s (codes "bad") then none else some s;
  parse_measure = λ s. some s;
  parse_branch = λ s. some s;
  parse_hash = λ s. some s;
  instructions = codes "instructions";
  latency = codes "latency";
  to_json = λ r. some [];
  send = λ p r. some tt;
}

abbrev pub test_bencher : BencherDev
test_bencher = record {
  client = test_client;
  testbed_id = codes "testbed";
  project_id = codes "project";
}

abbrev pub test_context : JobContext
test_context = record {
  bencher_dev = some test_bencher;
  event = codes "pull_request";
  event_payload = [];
  job_id = codes "5";
  config = record {
    app_base_url = codes "https://bench";
    github_app_id = 1;
    github_repo_owner = codes "rustls";
    github_repo_name = codes "rustls";
  };
}

abbrev pub test_world : World
test_world = record { db = empty_db; calls = [] }
