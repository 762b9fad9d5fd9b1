-- ===== src/Runner/Process/Deadline.antt =====
-- The end of the wait for a process: the loop of `run_command`, ci-bench-runner/src/runner.rs.
use rustls_bench_app.Base.{
  ℕ, zero, suc, ◌+◌, ◌*◌, ◌≤◌, ◌<◌, ◌≡◌, ◌⊎◌, inl, inr, refl, Bool, Option, some, leb, arith,
  Bool-cases, ◌==◌, ==_iff,
}
use rustls_bench_app.Base.Result.{Result, ok, err, io_failed, timed_out}
use rustls_bench_app.Runner.Process.{Poll, running, exited, poll_failed, Process, wait_loop}

abbrev pub nanos : ℕ
nanos = 1_000_000_000

-- `thread::sleep` takes at least as long as it is told, and the clock does not run backwards.
pub record IsTimed (p : Process) : Type 0 where
  pub begins : p.started ≤ p.now 0
  pub sleeps : (i : ℕ) → p.now i + nanos ≤ p.now (suc i)

late : (p : Process) → IsTimed p → (i : ℕ) → p.started + i * nanos ≤ p.now i
late p t zero = omega (arith, t.begins)
late p t (suc i) = omega (arith, t.sleeps i, late p t i)

-- How the loop ends, at its poll `i`.
abbrev pub EndsAt : Process → (deadline : ℕ) → Result Bool → ℕ → Type 0
EndsAt p deadline r i =
    ((success : Bool) × (p.try_wait i ≡ exited success) × (r ≡ ok success))
    ⊎ ((p.try_wait i ≡ poll_failed) × (r ≡ err io_failed))
    ⊎ ((p.try_wait i ≡ running) × (deadline ≤ p.now i) × (r ≡ err timed_out))

abbrev pub GoesOn : Process → (deadline i : ℕ) → Type 0
GoesOn p deadline i = (p.try_wait i ≡ running) × (p.now i < deadline)

Ended : Process → (deadline from : ℕ) → Option (Result Bool) → Type 0
Ended p deadline from o =
    (i : ℕ) × (r : Result Bool) × (o ≡ some r)
    × EndsAt p deadline r i
    × ((j : ℕ) → from ≤ j → j < i → GoesOn p deadline j)

Poll-cases :
    (a : Poll) → (a ≡ running) ⊎ ((success : Bool) × (a ≡ exited success)) ⊎ (a ≡ poll_failed)
Poll-cases running = inl refl
Poll-cases (exited success) = inr (inl (success, refl))
Poll-cases poll_failed = inr (inr refl)

at_once :
    (p : Process) (deadline i : ℕ) (r : Result Bool) (o : Option (Result Bool))
    → o ≡ some r
    → EndsAt p deadline r i
    → Ended p deadline i o
unfolding Ended
at_once p deadline i r o same ends = (i, r, same, ends, λ j h k. absurd (omega arith))

later :
    (p : Process) (deadline i : ℕ) (o : Option (Result Bool))
    → GoesOn p deadline i
    → Ended p deadline (suc i) o
    → Ended p deadline i o
unfolding Ended
later p deadline i o on (k, r, same, ends, before) = (
  k,
  r,
  same,
  ends,
  λ j h l. elim (Bool-cases (j == i)) [
    | inl e ↦ let same_poll : j ≡ i = ground (arith, ==_iff j i) in rw same_poll on
    | inr ne ↦ before j (ground arith) l
  ],
)

wait_once :
    (polls : ℕ) (p : Process) (deadline i : ℕ)
    → (GoesOn p deadline i → Ended p deadline (suc i) (wait_loop polls p deadline (suc i)))
    → Ended p deadline i (wait_loop (suc polls) p deadline i)
unfolding wait_loop
wait_once polls p deadline i rest = elim (Poll-cases (p.try_wait i)) [
  | inr (inl (success, e)) ↦
      at_once p deadline i (ok success) _ (rw (e, wait_loop) refl) (inl (success, e, refl))
  | inr (inr e) ↦
      at_once p deadline i (err io_failed) _ (rw (e, wait_loop) refl) (inr (inl (e, refl)))
  | inl e ↦ elim (Bool-cases (leb deadline (p.now i))) [
    | inl over ↦
        at_once p deadline i (err timed_out) _ (rw (e, wait_loop, over) refl)
          (inr (inr (e, ground arith, refl)))
    | inr early ↦
        let on : GoesOn p deadline i = (e, ground arith) in
        later p deadline i _ on (rw (e, wait_loop, early) (rest on))
  ]
]

-- The clock is past the deadline at the last poll.
wait_loop-Ended :
    (polls : ℕ) (p : Process) (deadline i : ℕ)
    → IsTimed p
    → deadline ≤ p.started + (i + polls) * nanos
    → Ended p deadline i (wait_loop (suc polls) p deadline i)
wait_loop-Ended zero p deadline i t enough =
    wait_once zero p deadline i (λ on. absurd (omega (arith, late p t i, on.1)))
wait_loop-Ended (suc polls) p deadline i t enough =
    wait_once (suc polls) p deadline i
      (λ on. wait_loop-Ended polls p deadline (suc i) t (omega arith))

-- With one poll more than the timeout has seconds the wait ends. It ends at the first poll that
-- finds the process no longer running, or that comes at the deadline or later: a process is given up
-- exactly when it still ran then.
pub wait_loop_ends :
    (p : Process) (seconds : ℕ)
    → IsTimed p
    → let deadline = p.started + seconds * nanos in
      (i : ℕ) × (r : Result Bool) × (wait_loop (suc seconds) p deadline 0 ≡ some r)
      × EndsAt p deadline r i
      × ((j : ℕ) → j < i → GoesOn p deadline j)
unfolding Ended
wait_loop_ends p seconds t =
    let (i, r, same, ends, before) =
      wait_loop-Ended seconds p (p.started + seconds * nanos) 0 t (omega arith) in
    (i, r, same, ends, λ j h. before j (omega arith) h)
