-- ===== src/Job/Refs/Laws.antt =====
-- Panics in comparing two runs by their files: ci-bench-runner/src/job/bench_pr.rs.
use rustls_bench_app.Base.{
  ◌≡◌, ◌≢◌, refl, true, Option, none, some, List, [], ◌∷◌, map, All, All-imp, is_some, arith,
  Option-cases, inl, inr,
}
use rustls_bench_app.Base.Text.{Text, text_eq_refl}
use rustls_bench_app.Base.F64.{F64, Arith}
use rustls_bench_app.Base.Map.{Map, lookup}
use rustls_bench_app.Base.Result.{Result, ok, err, panic, ◌>>=◌, >>=-ne-panic}
use rustls_bench_app.Db.Schema.{ScenarioKind, icount, walltime, memory, ScenarioDiff}
use rustls_bench_app.Job.Files.{
  MemoryDetails, read_icount_results, read_walltime_results, maybe_read_memory_results,
}
use rustls_bench_app.Job.Files.Walltimes.{readers_do_not_panic}
use rustls_bench_app.Job.Compare.{
  cachegrind_diff_of, compare_one, compare_loop, compare_results, distill_memory,
}
use rustls_bench_app.Job.Compare.Laws.{shared_with, measured, compare_results_lem}
use rustls_bench_app.Job.World.{Env}
use rustls_bench_app.Job.Refs.{
  memory_noise_threshold, SignificanceThresholds, memory_details_of, compare_icounts,
  compare_walltimes, compare_memory, compare_files,
}

abbrev Has {ℓ} : {V : Type ℓ} → Map V → Text → Type 0
Has m s = is_some (lookup s m) ≡ true

-- Both maps of measurements have the scenario of every shared entry.
module _ (baseline full : Map F64) where
  shared_with-Has :
      (m : Map F64)
      → All (λ e. Has full e.0) m
      → All (λ e. Has baseline e.0 × Has full e.0) (shared_with baseline m)
  shared_with-Has [] h = tt
  shared_with-Has ((s, v) ∷ m) (here, there) = elim (Option-cases (lookup s baseline)) [
    | inl e ↦ rw (e, shared_with) (shared_with-Has m there)
    | inr (b, e) ↦ rw (e, shared_with) ((rw e refl, here), shared_with-Has m there)
  ]

Has-cons : (s t : Text) (v : F64) (m : Map F64) → Has m s → Has ((t, v) ∷ m) s
unfolding lookup
Has-cons s t v m h = ground arith

keys-Has : (m : Map F64) → All (λ e. Has m e.0) m
unfolding lookup
keys-Has [] = tt
keys-Has ((s, v) ∷ m) = (
  rw (text_eq_refl s) refl,
  All-imp (λ e. Has m e.0) (λ e. Has ((s, v) ∷ m) e.0) m (λ e. Has-cons e.0 s v m) (keys-Has m),
)

distill_memory-Has :
    (fp : Arith) (m : Map MemoryDetails) (s : Text) → Has (distill_memory fp m) s → Has m s
unfolding distill_memory lookup
distill_memory-Has fp [] s h = h
distill_memory-Has fp ((t, d) ∷ m) s h = ground (arith, distill_memory-Has fp m s)

memory_details_of-ne-panic :
    (baseline candidate : Map MemoryDetails) (diffs : List ScenarioDiff)
    → All (λ e. Has baseline e.0 × Has candidate e.0) (map measured diffs)
    → memory_details_of baseline candidate diffs ≢ panic
unfolding memory_details_of
memory_details_of-ne-panic baseline candidate [] h = λ p. cc
memory_details_of-ne-panic baseline candidate (d ∷ ds) ((b, c), rest) =
    ground (arith, memory_details_of-ne-panic baseline candidate ds rest)

cachegrind_diff_of-ne-panic :
    (callgrind_diff : Text → Result Text) (kind : ScenarioKind) (s : Text)
    → callgrind_diff s ≢ panic
    → cachegrind_diff_of callgrind_diff kind s ≢ panic
unfolding cachegrind_diff_of
cachegrind_diff_of-ne-panic callgrind_diff icount s h =
    >>=-ne-panic (callgrind_diff s) _ h (λ d p. cc)
cachegrind_diff_of-ne-panic callgrind_diff walltime s h = λ p. cc
cachegrind_diff_of-ne-panic callgrind_diff memory s h = λ p. cc

module _ (callgrind_diff : Text → Result Text) (returns : (s : Text) → callgrind_diff s ≢ panic)
    (baseline thresholds : Map F64) (kind : ScenarioKind) (default minimum : F64) where
  compare_one-ne-panic :
      (s : Text) (v : F64) (found : Option F64) (acc : List ScenarioDiff × List Text)
      → compare_one callgrind_diff baseline thresholds kind default minimum s v found acc ≢ panic
  unfolding compare_one
  compare_one-ne-panic s v none acc = λ p. cc
  compare_one-ne-panic s v (some b) acc =
      >>=-ne-panic (cachegrind_diff_of callgrind_diff kind s) _
        (cachegrind_diff_of-ne-panic callgrind_diff kind s (returns s)) (λ d p. cc)

  compare_loop-ne-panic :
      (candidate : Map F64) (acc : List ScenarioDiff × List Text)
      → compare_loop callgrind_diff baseline thresholds kind default minimum candidate acc ≢ panic
  unfolding compare_loop
  compare_loop-ne-panic [] acc = λ p. cc
  compare_loop-ne-panic ((s, v) ∷ m) acc =
      >>=-ne-panic
        (compare_one callgrind_diff baseline thresholds kind default minimum s v (lookup s baseline)
          acc)
        _ (compare_one-ne-panic s v (lookup s baseline) acc) (compare_loop-ne-panic m)

  compare_results-ne-panic :
      (candidate : Map F64)
      → compare_results callgrind_diff baseline thresholds kind default minimum candidate ≢ panic
  unfolding compare_results
  compare_results-ne-panic candidate = compare_loop-ne-panic candidate ([], [])

-- The continuation may use where its argument comes from.
>>=-ne-panic-of :
    {A B : Type 0} (r : Result A) (f : A → Result B)
    → r ≢ panic
    → ((a : A) → r ≡ ok a → f a ≢ panic)
    → (r >>= f) ≢ panic
>>=-ne-panic-of (ok a) f h k = k a refl
>>=-ne-panic-of (err e) f h k = λ p. cc
>>=-ne-panic-of panic f h k = λ p. h refl

module _ (env : Env) (thresholds : SignificanceThresholds)
    (returns : (s : Text) → env.callgrind_diff s ≢ panic) where
  -- Every diff of the memory results has details on both sides.
  details-Has :
      (b c : Map MemoryDetails) (diffs : List ScenarioDiff) (missing : List Text)
      → compare_results env.callgrind_diff
          (distill_memory env.fp b)
          thresholds.memory
          memory
          memory_noise_threshold
          memory_noise_threshold
          (distill_memory env.fp c)
        ≡ ok (diffs, missing)
      → All (λ e. Has b e.0 × Has c e.0) (map measured diffs)
  details-Has b c diffs missing h =
      let before = distill_memory env.fp b in
      let after = distill_memory env.fp c in
      let lem =
        compare_results_lem env.callgrind_diff before thresholds.memory memory
          memory_noise_threshold memory_noise_threshold after diffs missing h in
      rw lem.1 (
        All-imp (λ e. Has before e.0 × Has after e.0) (λ e. Has b e.0 × Has c e.0)
          (shared_with before after)
          (λ e h. (distill_memory-Has env.fp b e.0 h.0, distill_memory-Has env.fp c e.0 h.1))
          (shared_with-Has before after after (keys-Has after)))

  compare_memory-ne-panic : compare_memory env thresholds ≢ panic
  unfolding compare_memory
  compare_memory-ne-panic =
      >>=-ne-panic (maybe_read_memory_results env.base_files.memory) _
        (readers_do_not_panic env.fp env.base_files.memory).2
        (λ b.
          >>=-ne-panic (maybe_read_memory_results env.candidate_files.memory) _
            (readers_do_not_panic env.fp env.candidate_files.memory).2
            (λ c.
              let before = distill_memory env.fp b in
              let after = distill_memory env.fp c in
              >>=-ne-panic-of
                (compare_results env.callgrind_diff before thresholds.memory memory
                  memory_noise_threshold memory_noise_threshold after)
                _
                (compare_results-ne-panic env.callgrind_diff returns before thresholds.memory memory
                  memory_noise_threshold memory_noise_threshold after)
                (λ (diffs, missing) e.
                  >>=-ne-panic (memory_details_of b c diffs) _
                    (memory_details_of-ne-panic b c diffs (details-Has b c diffs missing e))
                    (λ details p. cc))))

  -- Whatever the files of the two runs hold, no indexing and no `unwrap` of the comparison fails: it
  -- returns a result or an error. The external diff must not abort.
  pub compare_files_returns : compare_files env thresholds ≢ panic
  unfolding compare_files compare_icounts compare_walltimes
  compare_files_returns =
      >>=-ne-panic (compare_icounts env thresholds) _
        (>>=-ne-panic (read_icount_results env.fp env.base_files.icounts) _
          (readers_do_not_panic env.fp env.base_files.icounts).0
          (λ b.
            >>=-ne-panic (read_icount_results env.fp env.candidate_files.icounts) _
              (readers_do_not_panic env.fp env.candidate_files.icounts).0
              (compare_results-ne-panic env.callgrind_diff returns b thresholds.icount _ _ _)))
        (λ i.
          >>=-ne-panic (compare_walltimes env thresholds) _
            (>>=-ne-panic (read_walltime_results env.fp env.base_files.walltimes) _
              (readers_do_not_panic env.fp env.base_files.walltimes).1
              (λ b.
                >>=-ne-panic (read_walltime_results env.fp env.candidate_files.walltimes) _
                  (readers_do_not_panic env.fp env.candidate_files.walltimes).1
                  (compare_results-ne-panic env.callgrind_diff returns b thresholds.walltime _ _
                    _)))
            (λ w.
              >>=-ne-panic (compare_memory env thresholds) _ compare_memory-ne-panic (λ m p. cc)))
