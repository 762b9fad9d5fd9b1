-- ===== src/Db/Comments.antt =====
-- The comment that reports on a pull request: `store_result_comment_id` and `result_comment_id` of
-- ci-bench-runner/src/db.rs.
use rustls_bench_app.Base.{
  ℕ, ◌%◌, ◌^◌, ◌<◌, ◌≡◌, refl, Option, none, some, List, [], ◌∷◌, ◌++◌, ◌==◌, is_some,
  if◌then◌else◌, arith,
}
use rustls_bench_app.Base.Table
use rustls_bench_app.Db.Schema.{CommentRow, Database, comment_key}

-- `x as i64` keeps the 64 bits of a `u64`, and `as u64` gives them back; a column's integer is kept
-- here as those bits.
unfoldable pub as_i64 : ℕ → ℕ
as_i64 x = x % 2 ^ 64

unfoldable pub as_u64 : ℕ → ℕ
as_u64 bits = bits % 2 ^ 64

-- `ON CONFLICT(pr_number) DO UPDATE`
unfoldable pub upsert : CommentRow → List CommentRow → List CommentRow
upsert r rows =
    if is_some (Table.find comment_key r.pr_number rows)
    then Table.update comment_key r.pr_number (λ old. record old { comment_id = r.comment_id }) rows
    else rows ++ r ∷ []

unfoldable pub store_result_comment_id : (pr_number comment_id : ℕ) → Database → Database
unfolding as_i64 upsert
store_result_comment_id pr_number comment_id db = record db {
  result_comments =
      upsert (record { pr_number = as_i64 pr_number; comment_id = as_i64 comment_id })
        db.result_comments;
}

unfoldable pub result_comment_id : (pr_number : ℕ) → Database → Option ℕ
unfolding as_i64 as_u64
result_comment_id pr_number db =
    elim (Table.find comment_key (as_i64 pr_number) db.result_comments) [
      | none ↦ none
      | some row ↦ some (as_u64 row.comment_id)
    ]

-- A stored comment id is read back for its pull request, and no other one's id changes.
pub result_comment_id-store :
    (p q id : ℕ) (db : Database)
    → p < 2 ^ 64
    → q < 2 ^ 64
    → id < 2 ^ 64
    → result_comment_id q (store_result_comment_id p id db)
      ≡ (if p == q then some id else result_comment_id q db)
unfolding result_comment_id store_result_comment_id
result_comment_id-store p q id db hp hq hid = ground (
  arith,
  Table.find-append comment_key (as_i64 q) db.result_comments
      (record { pr_number = as_i64 p; comment_id = as_i64 id }),
  Table.find-update comment_key (as_i64 q) (as_i64 p)
      (λ (old : CommentRow). record old { comment_id = as_i64 id }) db.result_comments (λ a. refl),
)
