-- ===== src/Job/Callgrind.antt =====
-- The detailed instruction diff: `callgrind_diff` of ci-bench-runner/src/job/bench_pr.rs. Running
-- `callgrind_annotate` and `String::from_utf8` are a parameter.
use rustls_bench_app.Base.{
  ◌≢◌, Bool, Option, List, [], ◌∷◌, ◌++◌, if◌then◌else◌, Bool-cases, inl, inr,
}
use rustls_bench_app.Base.Text.{Text, codes}
use rustls_bench_app.Base.Result.{
  Result, ok, err, panic, ok_or, ◌>>=◌, ◌>>◌, >>=-ne-panic, ok_or-ne-panic, spawn_failed,
  exit_status, invalid_payload,
}
use rustls_bench_app.Db.Schema.{Bytes}
use rustls_bench_app.Runner.Checkout.{join}

-- A command that ended: whether with success, and what it printed.
pub record Output : Type 0 where
  pub success : Bool
  pub stdout : Bytes

pub record Tools : Type 0 where
  -- `none` where the program cannot be started
  pub output : (program : Text) (args : List Text) → Option Output
  pub from_utf8 : Bytes → Option Text

abbrev pub check_status : Output → Result (Unit {0})
check_status o = if o.success then ok tt else err exit_status

module _ (tools : Tools) (job_output_path scenario : Text) where
  abbrev pub annotate : (dir : Text) → Option Output
  annotate dir =
      tools.output (codes "callgrind_annotate")
        (join (join job_output_path dir) scenario ∷ codes "--auto=no" ∷ [])

  abbrev pub base_dir : Text
  base_dir = codes "base/results/callgrind"

  abbrev pub candidate_dir : Text
  candidate_dir = codes "candidate/results/callgrind"

  unfoldable pub both_outputs : (base candidate : Text) → Text
  both_outputs base candidate =
      codes "Base output:\n"
      ++ base
      ++ codes "\n=====\n\nCandidate output:\n"
      ++ candidate
      ++ codes "\n"

  unfoldable pub callgrind_diff : Result Text
  unfolding both_outputs
  callgrind_diff = do
    base ← ok_or (annotate base_dir) spawn_failed
    candidate ← ok_or (annotate candidate_dir) spawn_failed
    check_status base
    check_status candidate
    string_base ← ok_or (tools.from_utf8 base.stdout) invalid_payload
    string_candidate ← ok_or (tools.from_utf8 candidate.stdout) invalid_payload
    ok (both_outputs string_base string_candidate)

  check_status-ne-panic : (o : Output) → check_status o ≢ panic
  check_status-ne-panic o = elim (Bool-cases o.success) [
    | inl e ↦ rw e (λ h. cc)
    | inr e ↦ rw e (λ h. cc)
  ]

  pub callgrind_diff-ne-panic : callgrind_diff ≢ panic
  unfolding callgrind_diff
  callgrind_diff-ne-panic =
      >>=-ne-panic (ok_or (annotate base_dir) spawn_failed) _
        (ok_or-ne-panic (annotate base_dir) spawn_failed)
        (λ base.
          >>=-ne-panic (ok_or (annotate candidate_dir) spawn_failed) _
            (ok_or-ne-panic (annotate candidate_dir) spawn_failed)
            (λ candidate. >>=-ne-panic (check_status base) _ (check_status-ne-panic base) (λ u.
              >>=-ne-panic (check_status candidate) _ (check_status-ne-panic candidate) (λ v.
                >>=-ne-panic (ok_or (tools.from_utf8 base.stdout) invalid_payload) _
                  (ok_or-ne-panic (tools.from_utf8 base.stdout) invalid_payload)
                  (λ a.
                    >>=-ne-panic (ok_or (tools.from_utf8 candidate.stdout) invalid_payload) _
                      (ok_or-ne-panic (tools.from_utf8 candidate.stdout) invalid_payload)
                      (λ b h. cc))))))
