-- ===== src/Runner/Checkout/Rules.antt =====
-- What a step of a run leaves in the logs: ci-bench-runner/src/runner.rs.
use mathlib.Core.List.{append_assoc, map-append}
use rustls_bench_app.Base.{
  ℕ, zero, suc, ◌+◌, ◌*◌, ◌≤◌, ◌<◌, ◌≡◌, ◌≢◌, ◌∙◌, ap, refl, Bool, true, false, some, List, [], ◌∷◌,
  ◌++◌, map, take, get_elem?, length, length-take, arith, Bool-cases, Option-cases, inl, inr, ◌⊎◌,
}
use rustls_bench_app.Base.Text.{Text}
use rustls_bench_app.Base.Result.{Result, ok, err, panic, Result-cases, unwrap}
use rustls_bench_app.Base.Action.Success.{>>=-ok}
use rustls_bench_app.Base.Action.{Action, ◌>>=◌, ◌>>◌}
use rustls_bench_app.Runner.Process.{Process}
use rustls_bench_app.Runner.Process.Deadline.{IsTimed, wait_loop_ends, EndsAt, nanos}
use rustls_bench_app.Runner.Commands.{
  Command, Log, Machine, Shell, command_str, log_of, after_wait, run_command,
}
use rustls_bench_app.Runner.Checkout.{create_dir_all, write_file, last}

-- What a log says of its command.
abbrev pub entry : Log → Text × Text
entry l = (l.command, l.cwd)

abbrev pub entry_of : Command → Text × Text
entry_of c = (command_str c, c.cwd)

pub take-suc :
    {A : Type 0} (n : ℕ) (xs : List A) (x : A)
    → get_elem? xs n ≡ some x
    → take n xs ++ x ∷ [] ≡ take (suc n) xs
take-suc zero [] x h = absurd (cc h)
take-suc zero (y ∷ xs) x h = cc
take-suc (suc n) [] x h = absurd (cc h)
take-suc (suc n) (y ∷ xs) x h = ap (λ l. y ∷ l) (take-suc n xs x h)

module _ {W : Type 0} (machine : Machine W) where
  -- Every process that the machine starts has a sound clock.
  abbrev pub AllTimed : Type 0
  AllTimed = (c : Command) (w : W) (p : Process) → (machine.spawn c w).0 ≡ some p → IsTimed p

  abbrev pub Logged : List (Text × Text) → List Log → ℕ → Shell W → Type 0
  Logged entries base n s =
      (new : List Log) × (s.logs ≡ base ++ new) × (map entry new ≡ take n entries)

  -- A command is logged when it ended by itself; a success is among these.
  abbrev Outcome : Command → Shell W → Result (Unit {0}) × Shell W → Type 0
  Outcome c s (r, t) =
      (r ≢ panic)
      × ((t.logs ≡ s.logs) × (r ≢ ok tt)
          ⊎ ((l : Log) × (t.logs ≡ s.logs ++ l ∷ []) × (entry l ≡ entry_of c)))

  after_wait-Outcome :
      (c : Command) (p : Process) (r : Result Bool) (s : Shell W)
      → r ≢ panic
      → Outcome c s (after_wait machine c p (some r) s)
  after_wait-Outcome c p (ok true) s h = ((λ q. cc), inr (log_of c p, refl, refl))
  after_wait-Outcome c p (ok false) s h = ((λ q. cc), inr (log_of c p, refl, refl))
  after_wait-Outcome c p (err e) s h = ((λ q. cc), inl (refl, (λ q. cc)))
  after_wait-Outcome c p panic s h = absurd (h refl)

  EndsAt-ne-panic :
      (p : Process) (deadline : ℕ) (r : Result Bool) (i : ℕ) → EndsAt p deadline r i → r ≢ panic
  EndsAt-ne-panic p deadline r i (inl (success, a, e)) = λ q. cc
  EndsAt-ne-panic p deadline r i (inr (inl (a, e))) = λ q. cc
  EndsAt-ne-panic p deadline r i (inr (inr (a, b, e))) = λ q. cc

  pub run_command-Outcome :
      (c : Command) (timeout : ℕ) (s : Shell W)
      → AllTimed
      → Outcome c s (run_command machine c timeout s)
  unfolding run_command
  run_command-Outcome c timeout s timed = elim (Option-cases (machine.spawn c s.os).0) [
    | inl e ↦ rw (e, run_command) ((λ q. cc), inl (refl, (λ q. cc)))
    | inr (p, e) ↦
        let (i, r, ended, how, before) = wait_loop_ends p timeout (timed c s.os p e) in
        rw (e, run_command, ended)
          (after_wait-Outcome c p r (record s { os = (machine.spawn c s.os).1 })
            (EndsAt-ne-panic p (p.started + timeout * nanos) r i how))
  ]

  -- Steps of a run, from `n` logs of the plan to `m`.
  module _ (entries : List (Text × Text)) (base : List Log) where
    abbrev pub Leads : ℕ → ℕ → Action (Shell W) (Unit {0}) → Type 0
    Leads n m act =
        (s : Shell W)
        → Logged entries base n s
        → ((act s).0 ≢ panic)
          × ((k : ℕ) × (k ≤ length entries)
              × Logged entries base k (act s).1
              × ((act s).0 ≡ ok tt → k ≡ m))

    pub Leads->> :
        (n m k : ℕ) (act rest : Action (Shell W) (Unit {0}))
        → Leads n m act
        → Leads m k rest
        → Leads n k (act >> rest)
    Leads->> n m k act rest first second s h =
        let (safe, (j, bound, logged, reached)) = first s h in
        elim (Result-cases (act s).0) [
          | inl (tt, e) ↦
              let here : j ≡ m = reached e in rw (e, ◌>>=◌) (second (act s).1 (rw here at logged))
          | inr (inl (x, e)) ↦ rw (e, ◌>>=◌) ((λ q. cc), (j, bound, logged, (λ q. absurd (cc q))))
          | inr (inr e) ↦ absurd (safe e)
        ]

    pub run_command-Leads :
        (n : ℕ) (c : Command) (timeout : ℕ)
        → AllTimed
        → n < length entries
        → get_elem? entries n ≡ some (entry_of c)
        → Leads n (suc n) (run_command machine c timeout)
    run_command-Leads n c timeout timed bound next s (new, same, listed) =
        let (safe, done) = run_command-Outcome c timeout s timed in
        (
          safe,
          elim done [
            | inl (unchanged, failed) ↦
                (n, omega arith, (new, unchanged ∙ same, listed), (λ q. absurd (failed q)))
            | inr (l, changed, named) ↦ (
              suc n,
              omega arith,
              (
                new ++ l ∷ [],
                changed ∙ ap (λ b. b ++ l ∷ []) same ∙ append_assoc base new (l ∷ []),
                map-append entry new (l ∷ [])
                    ∙ rw (listed, named) (take-suc n entries (entry_of c) next),
              ),
              (λ q. refl),
            )
          ],
        )

    pub create_dir_all-Leads :
        (n : ℕ) (path : Text) → n ≤ length entries → Leads n n (create_dir_all machine path)
    create_dir_all-Leads n path bound s logged =
        elim (Bool-cases (machine.create_dir_all path s.os).0) [
          | inl made ↦ rw (made, create_dir_all) ((λ q. cc), (n, bound, logged, (λ q. refl)))
          | inr not_made ↦
              rw (not_made, create_dir_all) ((λ q. cc), (n, bound, logged, (λ q. absurd (cc q))))
        ]

    -- The last step: the output of the last command goes to a file.
    abbrev pub capture : Text → Action (Shell W) (Unit {0})
    capture path = do
      captured ← (λ s. (unwrap (last s.logs), s))
      write_file machine path captured.stdout

    last-append : (l : Log) (xs ys : List Log) → (m : Log) × (last (xs ++ l ∷ ys) ≡ some m)
    last-append l [] [] = (l, refl)
    last-append l [] (y ∷ ys) = last-append y [] ys
    last-append l (x ∷ []) ys = last-append l [] ys
    last-append l (x ∷ z ∷ xs) ys = last-append l (z ∷ xs) ys

    last-Logged :
        (n : ℕ) (s : Shell W)
        → suc n ≤ length entries
        → Logged entries base (suc n) s
        → (m : Log) × (last s.logs ≡ some m)
    last-Logged n s bound ([], same, listed) =
        absurd (omega (arith, ap length listed, length-take (suc n) entries))
    last-Logged n s bound (l ∷ new, same, listed) = rw same (last-append l base new)

    pub capture-Leads :
        (n : ℕ) (path : Text) → suc n ≤ length entries → Leads (suc n) (suc n) (capture path)
    capture-Leads n path bound s logged =
        let (l, e) = last-Logged n s bound logged in
        elim (Bool-cases (machine.write_file path l.stdout s.os).0) [
          | inl made ↦ rw (◌>>=◌, e, made) ((λ q. cc), (suc n, bound, logged, (λ q. refl)))
          | inr not_made ↦
              rw (◌>>=◌, e, not_made) ((λ q. cc), (suc n, bound, logged, (λ q. absurd (cc q))))
        ]

  -- The states after which the last step is what remains.
  abbrev pub EndsIn : Text → Action (Shell W) (Unit {0}) → Type 0
  EndsIn path act =
      (s : Shell W) → (act s).0 ≡ ok tt → (t : Shell W) × (act s ≡ capture [] [] path t)

  pub EndsIn->> :
      (path : Text) (act rest : Action (Shell W) (Unit {0}))
      → EndsIn path rest
      → EndsIn path (act >> rest)
  EndsIn->> path act rest ends s h =
      let (u, e, same) = >>=-ok act (λ _. rest) s tt h in
      let (t, last_step) = ends (act s).1 (rw same at h) in (t, same ∙ last_step)

  -- It wrote what the last command had printed.
  abbrev pub IsCaptured : Text → Shell W → Type 0
  IsCaptured path t =
      (l : Log) × (w : W) × (last t.logs ≡ some l)
      × (machine.write_file path l.stdout w ≡ (true, t.os))

  pub capture-IsCaptured :
      (path : Text) (s : Shell W)
      → (capture [] [] path s).0 ≡ ok tt
      → IsCaptured path (capture [] [] path s).1
  capture-IsCaptured path s h = elim (Option-cases (last s.logs)) [
    | inl e ↦ absurd (cc (rw (◌>>=◌, e) at h))
    | inr (l, e) ↦ elim (Bool-cases (machine.write_file path l.stdout s.os).0) [
      | inl made ↦
          let after : Shell W = record s { os = (machine.write_file path l.stdout s.os).1 } in
          let outcome : capture [] [] path s ≡ (ok tt, after) = rw (◌>>=◌, e, made) refl in
          rw outcome (l, s.os, e, cc)
      | inr not_made ↦ absurd (cc (rw (◌>>=◌, e, write_file, not_made) at h))
    ]
  ]
