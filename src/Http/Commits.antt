-- ===== src/Http/Commits.antt =====
-- The commits in the path of a comparison: `get_cachegrind_diff` of ci-bench-runner/src/lib.rs.
use rustls_bench_app.Base.{
  Bool, true, not, ◌&&◌, ℕ, ◌+◌, ◌≡◌, ◌≢◌, refl, none, some, List, [], ◌∷◌, ◌++◌, ◌==◌, length,
  if◌then◌else◌, arith,
}
use rustls_bench_app.Base.Text.{Text, split, push_head}
use rustls_bench_app.Db.Schema.{Database}
use rustls_bench_app.Db.Comparisons.{cachegrind_diff}
use rustls_bench_app.Http.Handlers.{
  document, status, not_found, bad_request, commits_of, two_parts, get_cachegrind_diff,
}

-- No character of the text is this one.
abbrev pub free_of : ℕ → Text → Bool
free_of sep [] = true
free_of sep (c ∷ s) = not (c == sep) && free_of sep s

pub free_of-append :
    (sep : ℕ) (s t : Text)
    → free_of sep s ≡ true
    → free_of sep t ≡ true
    → free_of sep (s ++ t) ≡ true
free_of-append sep [] t h k = k
free_of-append sep (c ∷ s) t h k = ground (arith, free_of-append sep s t)

pub split_none : (sep : ℕ) (s : Text) → free_of sep s ≡ true → split sep s ≡ s ∷ []
unfolding split
split_none sep [] h = refl
split_none sep (c ∷ s) h = ground (arith, split_none sep s)

pub split_first :
    (sep : ℕ) (s t : Text) → free_of sep s ≡ true → split sep (s ++ sep ∷ t) ≡ s ∷ split sep t
unfolding split
split_first sep [] t h = ground arith
split_first sep (c ∷ s) t h = ground (arith, split_first sep s t)

-- The number of colons.
abbrev pub colons : Text → ℕ
colons [] = 0
colons (c ∷ s) = (if c == b':' then 1 else 0) + colons s

length-push_head : (c : ℕ) (l : List Text) → l ≢ [] → length (push_head c l) ≡ length l
unfolding push_head
length-push_head c [] h = absurd (h refl)
length-push_head c (x ∷ l) h = refl

split-ne-nil : (s : Text) → split b':' s ≢ []
unfolding split push_head
split-ne-nil [] = ground arith
split-ne-nil (c ∷ s) = ground arith

length-split : (s : Text) → length (split b':' s) ≡ colons s + 1
unfolding split
length-split [] = refl
length-split (c ∷ s) =
    ground (arith, length-split s, length-push_head c (split b':' s) (split-ne-nil s))

commits_of_pair :
    (baseline candidate : Text)
    → free_of b':' baseline ≡ true
    → free_of b':' candidate ≡ true
    → commits_of (baseline ++ b':' ∷ candidate) ≡ some (baseline, candidate)
unfolding commits_of
commits_of_pair baseline candidate hb hc =
    rw (split_first b':' baseline candidate hb, split_none b':' candidate hc)

two_parts-none : (l : List Text) → length l ≢ 2 → two_parts l ≡ none
unfolding two_parts
two_parts-none [] h = refl
two_parts-none (a ∷ []) h = refl
two_parts-none (a ∷ b ∷ []) h = absurd (h refl)
two_parts-none (a ∷ b ∷ c ∷ l) h = refl

commits_of-none : (s : Text) → colons s ≢ 1 → commits_of s ≡ none
unfolding commits_of
commits_of-none s h = two_parts-none (split b':' s) (omega (arith, length-split s))

-- The path that the comment on a pull request links to is read back as the two commits, and answered
-- with the stored diff, or with 404 where there is none.
pub get_cachegrind_diff_reads :
    (baseline candidate scenario : Text) (db : Database)
    → free_of b':' baseline ≡ true
    → free_of b':' candidate ≡ true
    → get_cachegrind_diff (baseline ++ b':' ∷ candidate) scenario db
      ≡ (elim (cachegrind_diff baseline candidate scenario db) [
        | none ↦ status not_found
        | some diff ↦ document diff
      ])
unfolding get_cachegrind_diff
get_cachegrind_diff_reads baseline candidate scenario db hb hc =
    rw (commits_of_pair baseline candidate hb hc, get_cachegrind_diff)

-- A path with any other number of colons than one is answered by 400.
pub get_cachegrind_diff_malformed :
    (compared scenario : Text) (db : Database)
    → colons compared ≢ 1
    → get_cachegrind_diff compared scenario db ≡ status bad_request
unfolding get_cachegrind_diff
get_cachegrind_diff_malformed compared scenario db h =
    rw (commits_of-none compared h, get_cachegrind_diff)
