-- ===== src/Runner/Logs.antt =====
-- The logs of a run, as Markdown: `write_logs_for_run` and `write_log_part` of
-- ci-bench-runner/src/runner.rs. `String::from_utf8_lossy` is a parameter.
use mathlib.Core.List.{append_assoc}
use rustls_bench_app.Base.{refl, ◌≡◌, ℕ, Bool, true, false, List, [], ◌∷◌, ◌++◌, if◌then◌else◌}
use rustls_bench_app.Base.Text.{Text, codes, trim, trim_end}
use rustls_bench_app.Runner.Commands.{Log}

abbrev pub is_empty : Text → Bool
is_empty [] = true
is_empty (c ∷ cs) = false

-- `String::from_utf8_lossy`
module _ (lossy : List ℕ → Text) where
  unfoldable pub write_log_part : Text → (part_name part : Text) → Text
  write_log_part s part_name part =
      s
      ++ (part_name
          ++ codes ":"
          ++ (if is_empty (trim part)
              then codes " _empty_.\n\n"
              else codes "\n```\n" ++ trim_end part ++ codes "\n```\n\n"))

  unfoldable pub write_logs : Text → List Log → Text
  unfolding write_log_part
  write_logs s [] = s
  write_logs s (log ∷ logs) =
      write_logs
        (write_log_part
          (write_log_part
            (write_log_part (write_log_part s (codes "command") log.command) (codes "cwd") log.cwd)
            (codes "stdout") (lossy log.stdout))
          (codes "stderr") (lossy log.stderr))
        logs

  unfoldable pub write_logs_for_run : Text → List Log → Text
  unfolding write_logs
  write_logs_for_run s [] = s ++ codes "_Not available_\n"
  write_logs_for_run s (log ∷ logs) = write_logs s (log ∷ logs)

  -- What is written goes to the end of the text, and does not depend on it.
  write_log_part-append :
      (s t part_name part : Text)
      → write_log_part (s ++ t) part_name part ≡ s ++ write_log_part t part_name part
  unfolding write_log_part
  write_log_part-append s t part_name part = append_assoc s t _

  write_logs-append :
      (s : Text) (logs : List Log) (t : Text) → write_logs (s ++ t) logs ≡ s ++ write_logs t logs
  unfolding write_logs
  write_logs-append s [] t = refl
  write_logs-append s (log ∷ logs) t =
      rw
        (
          write_log_part-append s t (codes "command") log.command,
          write_log_part-append s _ (codes "cwd") log.cwd,
          write_log_part-append s _ (codes "stdout") (lossy log.stdout),
          write_log_part-append s _ (codes "stderr") (lossy log.stderr),
        )
        (write_logs-append s logs _)

  write_logs_for_run-append :
      (s t : Text) (logs : List Log)
      → write_logs_for_run (s ++ t) logs ≡ s ++ write_logs_for_run t logs
  unfolding write_logs_for_run
  write_logs_for_run-append s t [] = append_assoc s t _
  write_logs_for_run-append s t (log ∷ logs) = write_logs-append s (log ∷ logs) t
