-- ===== src/Job/Files/Walltimes.antt =====
-- The official walltime of a scenario, and panics of the readers: ci-bench-runner/src/job/mod.rs.
use rustls_bench_app.Base.{
  ℕ, ◌*◌, ◌/◌, ◌^◌, ◌<◌, ◌≤◌, ◌≡◌, ◌≢◌, false, Option, none, some, List, [], ◌∷◌, ltb, length,
  get_elem?-lt, All, arith,
}
use rustls_bench_app.Base.Text.{Text, split, trim, parse_uint}
use rustls_bench_app.Base.F64.{Arith}
use rustls_bench_app.Base.Map.{Map, insert}
use rustls_bench_app.Base.Sort.{
  count_if, sort, Ordered, sort-Ordered, length-sort, count_if-sort, count_if-before,
  count_if-after,
}
use rustls_bench_app.Base.Result.{
  Result, ok, panic, ok_or, >>=-ne-panic, ok_or-ne-panic, invalid_number, file_not_found,
}
use rustls_bench_app.Job.Files.{
  File, read_lines, icount_row, read_icount_results, parse_all, median, official_walltime,
  walltime_row, read_walltime_results, details_of, memory_row, maybe_read_memory_results,
}

ltb_irrefl : (x : ℕ) → ltb x x ≡ false
ltb_irrefl x = ground arith

sort-ltb-Ordered : (l : List ℕ) → Ordered ltb (sort ltb l)
sort-ltb-Ordered l =
    sort-Ordered ltb (λ x. Unit {0}) (λ x y h. ground arith) (λ x y z s h k. ground arith) l (all l)
  where
    all : (l : List ℕ) → All (λ x. Unit {0}) l
    all [] = tt
    all (x ∷ xs) = (tt, all xs)

-- The measurements of a scenario, if there are any, have an official walltime: it is no error and
-- no panic, at most half of the measurements lie below it, and fewer than half above.
pub official_walltime-median :
    (w : ℕ) (ws : List ℕ)
    → (m : ℕ) × (official_walltime (w ∷ ws) ≡ ok m)
      × (2 * count_if (λ x. ltb x m) (w ∷ ws) ≤ length (w ∷ ws))
      × (2 * count_if (λ x. ltb m x) (w ∷ ws) < length (w ∷ ws))
unfolding official_walltime median
official_walltime-median w ws =
    let l = sort ltb (w ∷ ws) in
    let same = length-sort ltb (w ∷ ws) in
    let (m, found) = get_elem?-lt l (length l / 2) (omega (arith, same)) in
    let o = sort-ltb-Ordered (w ∷ ws) in
    (
      m,
      rw found,
      omega (
        arith,
        same,
        count_if-sort ltb (λ x. ltb x m) (w ∷ ws),
        count_if-before ltb ltb_irrefl l (length l / 2) m o found,
      ),
      omega (
        arith,
        same,
        count_if-sort ltb (λ x. ltb m x) (w ∷ ws),
        count_if-after ltb ltb_irrefl l (length l / 2) m o found,
      ),
    )

read_lines-ne-panic :
    {V : Type 0} (row : List Text → Result (Text × V)) (lines : List (Option Text)) (m : Map V)
    → ((parts : List Text) → row parts ≢ panic)
    → read_lines row lines m ≢ panic
unfolding read_lines
read_lines-ne-panic row [] m h = ground arith
read_lines-ne-panic row (none ∷ lines) m h = ground arith
read_lines-ne-panic row (some line ∷ lines) m h =
    >>=-ne-panic (row (split b',' (trim line))) _ (h (split b',' (trim line)))
      (λ p. read_lines-ne-panic row lines (insert p.0 p.1 m) h)

parse_all-ne-panic : (bound : ℕ) (parts : List Text) → parse_all bound parts ≢ panic
unfolding parse_all
parse_all-ne-panic bound [] = ground arith
parse_all-ne-panic bound (s ∷ rest) =
    >>=-ne-panic (ok_or (parse_uint bound s) invalid_number) _ (ok_or-ne-panic _ _)
      (λ n. >>=-ne-panic (parse_all bound rest) _ (parse_all-ne-panic bound rest) (λ ns p. cc))

official_walltime-ne-panic : (l : List ℕ) → official_walltime l ≢ panic
unfolding official_walltime
official_walltime-ne-panic [] = ground arith
official_walltime-ne-panic (w ∷ ws) = λ p. cc (official_walltime-median w ws).1

details_of-ne-panic : (l : List ℕ) → details_of l ≢ panic
unfolding details_of
details_of-ne-panic [] p = cc
details_of-ne-panic (a ∷ []) p = cc
details_of-ne-panic (a ∷ b ∷ []) p = cc
details_of-ne-panic (a ∷ b ∷ c ∷ []) p = cc
details_of-ne-panic (a ∷ b ∷ c ∷ d ∷ []) p = cc
details_of-ne-panic (a ∷ b ∷ c ∷ d ∷ e ∷ l) p = cc

icount_row-ne-panic : (fp : Arith) (parts : List Text) → icount_row fp parts ≢ panic
unfolding icount_row
icount_row-ne-panic fp [] = λ p. cc
icount_row-ne-panic fp (a ∷ []) = λ p. cc
icount_row-ne-panic fp (a ∷ b ∷ []) =
    >>=-ne-panic (ok_or (fp.parse b) invalid_number) _ (ok_or-ne-panic _ _) (λ v p. cc)
icount_row-ne-panic fp (a ∷ b ∷ c ∷ rest) =
    >>=-ne-panic (ok_or (fp.parse b) invalid_number) _ (ok_or-ne-panic _ _) (λ v p. cc)

walltime_row-ne-panic : (fp : Arith) (parts : List Text) → walltime_row fp parts ≢ panic
unfolding walltime_row
walltime_row-ne-panic fp [] = λ p. cc
walltime_row-ne-panic fp (name ∷ parts) =
    >>=-ne-panic (parse_all (2 ^ 128) parts) _ (parse_all-ne-panic (2 ^ 128) parts)
      (λ ns. >>=-ne-panic (official_walltime ns) _ (official_walltime-ne-panic ns) (λ w p. cc))

memory_row-ne-panic : (parts : List Text) → memory_row parts ≢ panic
unfolding memory_row
memory_row-ne-panic [] = λ p. cc
memory_row-ne-panic (name ∷ parts) =
    >>=-ne-panic (parse_all (2 ^ 64) parts) _ (parse_all-ne-panic (2 ^ 64) parts)
      (λ ns. >>=-ne-panic (details_of ns) _ (details_of-ne-panic ns) (λ d p. cc))

maybe_read_memory_results-ne-panic : (file : File) → maybe_read_memory_results file ≢ panic
unfolding maybe_read_memory_results
maybe_read_memory_results-ne-panic none = λ p. cc
maybe_read_memory_results-ne-panic (some lines) =
    read_lines-ne-panic memory_row lines [] memory_row-ne-panic

-- Whatever the result files hold, no reader of them panics.
pub readers_do_not_panic :
    (fp : Arith) (file : File)
    → (read_icount_results fp file ≢ panic)
      × (read_walltime_results fp file ≢ panic)
      × (maybe_read_memory_results file ≢ panic)
unfolding read_icount_results read_walltime_results
readers_do_not_panic fp file = (
  >>=-ne-panic (ok_or file file_not_found) _ (ok_or-ne-panic file file_not_found)
      (λ lines. read_lines-ne-panic (icount_row fp) lines [] (icount_row-ne-panic fp)),
  >>=-ne-panic (ok_or file file_not_found) _ (ok_or-ne-panic file file_not_found)
      (λ lines. read_lines-ne-panic (walltime_row fp) lines [] (walltime_row-ne-panic fp)),
  maybe_read_memory_results-ne-panic file,
)
