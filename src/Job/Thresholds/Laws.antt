-- ===== src/Job/Thresholds/Laws.antt =====
-- The thresholds by scenario: ci-bench-runner/src/job/bench_pr.rs.
use rustls_bench_app.Base.{
  ◌*◌, ◌/◌, ◌<◌, ◌≤◌, ◌≡◌, ◌⊎◌, refl, Option, none, some, List, [], ◌∷◌, ◌++◌, ltb, if◌then◌else◌,
  length, All, get_elem?-lt, false, arith, inl, inr, Bool-cases,
}
use mathlib.Core.List.{append_assoc, append-nil}
use rustls_bench_app.Base.Text.{Text, text_eq, text_eq_iff}
use rustls_bench_app.Base.F64.{F64, Arith, is_nan, lt}
use rustls_bench_app.Base.Map.{Map, lookup, NodupKeys}
use rustls_bench_app.Base.Sort.{sort, length-sort}
use rustls_bench_app.Base.Result.{ok}
use rustls_bench_app.Db.Schema.{BenchResult}
use rustls_bench_app.Job.Thresholds.{
  push_result, results_by_name, iqr_multiplier, historic_changes, threshold_of_changes, any_nan,
  sort_changes, threshold_of, thresholds_of, calculate_significance_thresholds,
}

-- The results of one scenario, in the order of the history.
abbrev pub results_of : Text → List BenchResult → List F64
results_of name [] = []
results_of name (r ∷ rs) =
    if text_eq r.scenario_name name then r.result ∷ results_of name rs else results_of name rs

abbrev found : Option (List F64) → List F64
found none = []
found (some l) = l

lookup-push_result :
    (name k : Text) (v : F64) (m : Map (List F64))
    → lookup k (push_result name v m)
      ≡ (if text_eq name k then some (found (lookup k m) ++ v ∷ []) else lookup k m)
unfolding lookup push_result
lookup-push_result name k v [] = refl
lookup-push_result name k v ((j, rs) ∷ m) =
    ground (
      arith,
      text_eq_iff name k,
      text_eq_iff j name,
      text_eq_iff j k,
      lookup-push_result name k v m,
    )

push_result-NodupKeys :
    (name : Text) (v : F64) (m : Map (List F64)) → NodupKeys m → NodupKeys (push_result name v m)
unfolding push_result lookup
push_result-NodupKeys name v [] h = (refl, tt)
push_result-NodupKeys name v ((j, rs) ∷ m) h = ground (
  arith,
  push_result-NodupKeys name v m h.1,
  lookup-push_result name j v m,
  text_eq_iff name j,
  text_eq_iff j name,
)

results_by_name-NodupKeys :
    (rs : List BenchResult) (m : Map (List F64)) → NodupKeys m → NodupKeys (results_by_name rs m)
unfolding results_by_name
results_by_name-NodupKeys [] m h = h
results_by_name-NodupKeys (r ∷ rs) m h =
    results_by_name-NodupKeys rs (push_result r.scenario_name r.result m)
      (push_result-NodupKeys r.scenario_name r.result m h)

found-results_by_name :
    (k : Text) (rs : List BenchResult) (m : Map (List F64))
    → found (lookup k (results_by_name rs m)) ≡ found (lookup k m) ++ results_of k rs
unfolding results_by_name
found-results_by_name k [] m = rw append-nil
found-results_by_name k (r ∷ rs) m =
    rw (found-results_by_name k rs (push_result r.scenario_name r.result m)) (
      ground (
        arith,
        lookup-push_result r.scenario_name k r.result m,
        append_assoc (found (lookup k m)) (r.result ∷ []) (results_of k rs),
      ))

module _ (fp : Arith) where
  length-historic_changes :
      (x : F64) (l : List F64) → length (historic_changes fp (x ∷ l)) ≡ length l
  unfolding historic_changes
  length-historic_changes x [] = refl
  length-historic_changes x (y ∷ l) = omega (arith, length-historic_changes y l)

  threshold_of_changes_total :
      (changes : List F64)
      → 0 < length changes
      → (t : F64) × (threshold_of_changes fp changes ≡ ok t)
  unfolding threshold_of_changes
  threshold_of_changes_total changes h =
      let (q1, first) = get_elem?-lt changes (length changes / 4) (omega arith) in
      let (q3, third) = get_elem?-lt changes ((length changes * 3) / 4) (omega arith) in
      (fp.add q3 (fp.mul (fp.sub q3 q1) (iqr_multiplier fp)), rw (first, third))

  -- Every change from one result to the next is a number.
  abbrev pub IsMeasurable : List F64 → Type 0
  IsMeasurable results = All (λ c. is_nan c ≡ false) (historic_changes fp results)

  sort_changes-sort :
      (changes : List F64)
      → All (λ c. is_nan c ≡ false) changes
      → sort_changes fp changes ≡ ok (sort lt changes)
  unfolding sort_changes
  sort_changes-sort changes numbers = rw (none_nan changes numbers) refl
    where
      none_nan : (l : List F64) → All (λ c. is_nan c ≡ false) l → any_nan l ≡ false
      none_nan [] h = refl
      none_nan (x ∷ l) h = ground (arith, h.0, none_nan l h.1)

  threshold_of_total :
      (results : List F64)
      → 10 ≤ length results
      → IsMeasurable results
      → (t : F64) × (threshold_of fp results ≡ ok t)
  unfolding threshold_of
  threshold_of_total [] h numbers = absurd (omega arith)
  threshold_of_total (x ∷ l) h numbers =
      let changes = historic_changes fp (x ∷ l) in
      rw (sort_changes-sort changes numbers) (
        threshold_of_changes_total (sort lt changes)
          (omega (arith, length-sort lt changes, length-historic_changes x l)))

  -- What the history of one scenario gives: no threshold from fewer than ten results, and otherwise
  -- the one calculated from them.
  abbrev pub ThresholdOf : List F64 → Option F64 → Type 0
  ThresholdOf results o =
      (length results < 10) × (o ≡ none)
      ⊎ (10 ≤ length results) × ((t : F64) × (threshold_of fp results ≡ ok t) × (o ≡ some t))

  lookup_few :
      (name k : Text) (results : List F64) (m : Map (List F64)) (out : Map F64)
      → length results < 10
      → lookup name m ≡ none
      → ThresholdOf (found (lookup k m)) (lookup k out)
      → ThresholdOf (found (lookup k ((name, results) ∷ m))) (lookup k out)
  unfolding lookup
  lookup_few name k results m out few fresh h = elim (Bool-cases (text_eq name k)) [
    | inr other ↦ rw other h
    | inl same ↦
        let e : name ≡ k = (text_eq_iff name k).0 same in
        let gone : lookup k m ≡ none = rw (← e) fresh in rw same (inl (few, ground (arith, gone)))
  ]

  lookup_enough :
      (name k : Text) (results : List F64) (m : Map (List F64)) (out : Map F64) (t : F64)
      → 10 ≤ length results
      → threshold_of fp results ≡ ok t
      → ThresholdOf (found (lookup k m)) (lookup k out)
      → ThresholdOf (found (lookup k ((name, results) ∷ m))) (lookup k ((name, t) ∷ out))
  unfolding lookup
  lookup_enough name k results m out t enough e h = elim (Bool-cases (text_eq name k)) [
    | inr other ↦ rw other h
    | inl same ↦ rw same (inr (enough, (t, e, refl)))
  ]

  first-IsMeasurable :
      (name : Text) (results : List F64) (m : Map (List F64))
      → ((k : Text)
          → 10 ≤ length (found (lookup k ((name, results) ∷ m)))
          → IsMeasurable (found (lookup k ((name, results) ∷ m))))
      → 10 ≤ length results
      → IsMeasurable results
  unfolding lookup
  first-IsMeasurable name results m good = rw ((text_eq_iff name name).1 refl) at (good name)

  later-IsMeasurable :
      (name : Text) (results : List F64) (m : Map (List F64))
      → lookup name m ≡ none
      → ((k : Text)
          → 10 ≤ length (found (lookup k ((name, results) ∷ m)))
          → IsMeasurable (found (lookup k ((name, results) ∷ m))))
      → (k : Text) → 10 ≤ length (found (lookup k m))
      → IsMeasurable (found (lookup k m))
  unfolding lookup
  later-IsMeasurable name results m fresh good k = elim (Bool-cases (text_eq name k)) [
    | inr other ↦ rw other at (good k)
    | inl same ↦
        let e : name ≡ k = (text_eq_iff name k).0 same in
        let gone : lookup k m ≡ none = rw (← e) fresh in rw gone (λ h. absurd (omega (arith, h)))
  ]

  thresholds_of_lem :
      (m : Map (List F64))
      → NodupKeys m
      → ((k : Text) → 10 ≤ length (found (lookup k m)) → IsMeasurable (found (lookup k m)))
      → (out : Map F64) × (thresholds_of fp m ≡ ok out)
        × ((k : Text) → ThresholdOf (found (lookup k m)) (lookup k out))
  unfolding thresholds_of
  thresholds_of_lem [] u good = ([], refl, λ k. unfold lookup in inl (omega arith, refl))
  thresholds_of_lem ((name, results) ∷ m) u good =
      let (rest, f, spec) = thresholds_of_lem m u.1 (later-IsMeasurable name results m u.0 good) in
      elim (Bool-cases (ltb (length results) 10)) [
        | inl few ↦
            (rest, rw few f, λ k. lookup_few name k results m rest (ground arith) u.0 (spec k))
        | inr many ↦
            let enough : 10 ≤ length results = ground arith in
            let (t, e) =
              threshold_of_total results enough (first-IsMeasurable name results m good enough) in
            (
              (name, t) ∷ rest,
              rw (many, e, f),
              λ k. lookup_enough name k results m rest t enough e (spec k),
            )
      ]

  -- Where the changes between the results of each scenario with ten results are numbers, the
  -- calculation returns: it neither fails nor indexes out of range. A scenario has a threshold
  -- exactly when the history has ten results of it, and then it is the one calculated from its own
  -- results, in the order of the history.
  pub calculate_significance_thresholds_lem :
      (history : List BenchResult)
      → ((name : Text)
          → 10 ≤ length (results_of name history)
          → IsMeasurable (results_of name history))
      → (out : Map F64) × (calculate_significance_thresholds fp history ≡ ok out)
        × ((name : Text) → ThresholdOf (results_of name history) (lookup name out))
  unfolding calculate_significance_thresholds lookup
  calculate_significance_thresholds_lem history good =
      let (out, e, spec) =
        thresholds_of_lem (results_by_name history []) (results_by_name-NodupKeys history [] tt)
          (λ k. rw (found-results_by_name k history []) (good k)) in
      (out, e, λ name. rw (found-results_by_name name history []) at (spec name))
