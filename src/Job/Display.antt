-- ===== src/Job/Display.antt =====
-- How measurements are shown in a comment: `MemoryDetails` of ci-bench-runner/src/job/mod.rs, the
-- memory columns of `ScenarioDiff` of ci-bench-runner/src/db.rs, and `format_timing` of
-- ci-bench-runner/src/job/bench_pr.rs. The formatting of `f64` is a parameter.
use rustls_bench_app.Base.{ℕ, Option, none, some, [], ◌++◌}
use rustls_bench_app.Base.Text.{Text, codes}
use rustls_bench_app.Base.F64.{F64, Arith}
use rustls_bench_app.Base.Map.{lookup}
use rustls_bench_app.Db.Schema.{ScenarioDiff}
use rustls_bench_app.Job.Files.{MemoryDetails}
use rustls_bench_app.Job.World.{Details}
use rustls_bench_app.Job.Split.{
  TimeUnit, nanoseconds, microseconds, milliseconds, seconds, thousand, million, billion,
}

pub record Format : Type 0 where
  -- `{}` of a `u64`, `{:+}` of an `f64`, and `{:.precision}` of an `f64`
  pub uint : ℕ → Text
  pub signed : F64 → Text
  pub rounded : (precision : ℕ) → F64 → Text

-- The four numbers in a cell of the table.
abbrev pub cell : (total_bytes total_blocks peak_bytes peak_blocks : Text) → Text
cell total_bytes total_blocks peak_bytes peak_blocks =
    codes "∑ "
    ++ total_bytes
    ++ codes "B  "
    ++ total_blocks
    ++ codes "a<br/>🔝 "
    ++ peak_bytes
    ++ codes "B  "
    ++ peak_blocks
    ++ codes "a"

module _ (format : Format) where
  -- `Display`
  unfoldable pub to_string : MemoryDetails → Text
  to_string d =
      cell (format.uint d.heap_total_bytes) (format.uint d.heap_total_blocks)
        (format.uint d.heap_peak_bytes) (format.uint d.heap_peak_blocks)

  unfoldable pub diff_string : Arith → MemoryDetails → (candidate : MemoryDetails) → Text
  diff_string fp base candidate =
      let change : (MemoryDetails → ℕ) → Text =
        λ field. format.signed (fp.sub (fp.of_uint (field candidate)) (fp.of_uint (field base))) in
      cell (change (λ d. d.heap_total_bytes)) (change (λ d. d.heap_total_blocks))
        (change (λ d. d.heap_peak_bytes)) (change (λ d. d.heap_peak_blocks))

  -- The details of a scenario, where there are any.
  abbrev pub details_for : Option Details → Text → Option (MemoryDetails × MemoryDetails)
  details_for none scenario = none
  details_for (some m) scenario = lookup scenario m

  abbrev pub shown :
      (MemoryDetails × MemoryDetails → Text) → Option (MemoryDetails × MemoryDetails) → Text
  shown f none = []
  shown f (some pair) = f pair

  unfoldable pub baseline_memory : ScenarioDiff → Option Details → Text
  unfolding to_string
  baseline_memory d details = shown (λ p. to_string p.0) (details_for details d.scenario_name)

  unfoldable pub candidate_memory : ScenarioDiff → Option Details → Text
  unfolding to_string
  candidate_memory d details = shown (λ p. to_string p.1) (details_for details d.scenario_name)

  unfoldable pub memory_diff : Arith → ScenarioDiff → Option Details → Text
  unfolding diff_string
  memory_diff fp d details =
      shown (λ p. diff_string fp p.0 p.1) (details_for details d.scenario_name)

  unfoldable pub format_timing : Arith → F64 → TimeUnit → Text
  format_timing fp timing_ns nanoseconds = format.rounded 0 timing_ns ++ codes " ns"
  format_timing fp timing_ns microseconds =
      format.rounded 2 (fp.div timing_ns thousand) ++ codes " µs"
  format_timing fp timing_ns milliseconds =
      format.rounded 2 (fp.div timing_ns million) ++ codes " ms"
  format_timing fp timing_ns seconds = format.rounded 2 (fp.div timing_ns billion) ++ codes " s"
