-- ===== src/BencherDev/Report.antt =====
-- The values of a benchmark in the merged results of several measures: ci-bench-runner/src/bencher_dev.rs.
use rustls_bench_app.Base.{
  ◌≡◌, refl, false, Option, none, some, List, [], ◌∷◌, if◌then◌else◌, is_some, All, arith,
  Option-cases, Bool-cases, inl, inr,
}
use rustls_bench_app.Base.Text.{Text, text_eq, text_eq_iff, text_eq_refl}
use rustls_bench_app.Base.F64.{F64}
use rustls_bench_app.Base.Map.{Map, lookup, insert, NodupKeys, insert-NodupKeys}
use rustls_bench_app.BencherDev.{
  Metrics, Results, Client, merge, map_values, collect_metrics, results_to_bmf,
}
use rustls_bench_app.BencherDev.Merge.{or_else, value_of, IsMap, value_of-insert, value_of-merge}

-- A name that is taken is taken as it is.
abbrev pub KeepsNames : Client → Type 0
KeepsNames client = (s t : Text) → client.parse_name s ≡ some t → t ≡ s

abbrev pub Distinct : List Text → Type 0
Distinct [] = Unit
Distinct (x ∷ xs) = All (λ y. text_eq y x ≡ false) xs × Distinct xs

-- What becomes of the results of one kind for one scenario.
abbrev pub sent : Client → Text → Map F64 → Option F64
sent client scenario m = if is_some (client.parse_name scenario) then lookup scenario m else none

abbrev pub values_of : Text → List Text → Results → List (Option F64)
values_of bench [] out = []
values_of bench (x ∷ xs) out = value_of bench x out ∷ values_of bench xs out

map_values-absent :
    {V : Type 0} (f : V → F64) (k : Text) (m : Map V)
    → lookup k m ≡ none
    → lookup k (map_values f m) ≡ none
unfolding map_values lookup
map_values-absent f k [] h = refl
map_values-absent f k ((j, v) ∷ m) h = ground (arith, map_values-absent f k m)

pub map_values-NodupKeys :
    {V : Type 0} (f : V → F64) (m : Map V) → NodupKeys m → NodupKeys (map_values f m)
unfolding map_values
map_values-NodupKeys f [] u = tt
map_values-NodupKeys f ((k, v) ∷ m) (fresh, u) =
    (map_values-absent f k m fresh, map_values-NodupKeys f m u)

-- The results of each measure, merged in turn.
abbrev pub merged : Client → Results → List (Text × Map F64) → Results
merged client out [] = out
merged client out ((x, results) ∷ ps) =
    merged client (merge out (results_to_bmf client results x)) ps

abbrev pub names : List (Text × Map F64) → List Text
names [] = []
names ((x, results) ∷ ps) = x ∷ names ps

abbrev pub sent_by : Client → Text → List (Text × Map F64) → List (Option F64)
sent_by client bench [] = []
sent_by client bench ((x, results) ∷ ps) = sent client bench results ∷ sent_by client bench ps

module _ (client : Client) (keeps : KeepsNames client) where
  insert-All :
      (name : Text) (c : Metrics) (m : Results)
      → NodupKeys c
      → All (λ e. NodupKeys e.1) m
      → All (λ e. NodupKeys e.1) (insert name c m)
  unfolding insert
  insert-All name c [] uc h = (uc, tt)
  insert-All name c ((j, d) ∷ m) uc h = elim (Bool-cases (text_eq j name)) [
    | inl same ↦ rw same (uc, h.1)
    | inr other ↦ rw other (h.0, insert-All name c m uc h.1)
  ]

  collect_metrics-IsMap :
      (results : Map F64) (measure : Text) (out : Results)
      → IsMap out
      → IsMap (collect_metrics client results measure out)
  unfolding collect_metrics lookup
  collect_metrics-IsMap [] measure out h = h
  collect_metrics-IsMap ((scenario, value) ∷ results) measure out h =
      elim (Option-cases (client.parse_name scenario)) [
        | inl e ↦ rw (e, collect_metrics) (collect_metrics-IsMap results measure out h)
        | inr (name, e) ↦
            rw (e, collect_metrics)
              (collect_metrics-IsMap results measure _ (
                insert-NodupKeys name ((measure, value) ∷ []) out h.0,
                insert-All name ((measure, value) ∷ []) out (refl, tt) h.1,
              ))
      ]

  -- A value of the measure, or what was there before.
  abbrev collected : Text → Text → Option F64 → Option F64 → Option F64
  collected measure x none before = before
  collected measure x (some v) before = if text_eq measure x then some v else none

  value_of-collect :
      (bench x measure : Text) (results : Map F64) (out : Results)
      → NodupKeys results
      → value_of bench x (collect_metrics client results measure out)
        ≡ collected measure x (sent client bench results) (value_of bench x out)
  unfolding collect_metrics lookup
  value_of-collect bench x measure [] out u = ground arith
  value_of-collect bench x measure ((scenario, v) ∷ results) out (fresh, u) =
      elim (Option-cases (client.parse_name scenario)) [
        | inl e ↦ ground (
          arith,
          fresh,
          text_eq_iff scenario bench,
          value_of-collect bench x measure results out u,
        )
        | inr (name, e) ↦
            let same = keeps scenario name e in
            ground (
              arith,
              fresh,
              same,
              text_eq_iff scenario bench,
              value_of-collect bench x measure results (insert name ((measure, v) ∷ []) out) u,
              value_of-insert bench name x ((measure, v) ∷ []) out,
            )
      ]

  pub sent-collect :
      (bench x measure : Text) (results : Map F64)
      → NodupKeys results
      → value_of bench x (results_to_bmf client results measure)
        ≡ (if text_eq measure x then sent client bench results else none)
  unfolding results_to_bmf lookup
  sent-collect bench x measure results u =
      ground (arith, value_of-collect bench x measure results [] u)

  pub results_to_bmf-IsMap :
      (results : Map F64) (measure : Text) → IsMap (results_to_bmf client results measure)
  unfolding results_to_bmf
  results_to_bmf-IsMap results measure = collect_metrics-IsMap results measure [] (tt, tt)

  -- One more merge: the results of its measure, and what was there for the others.
  value_of-next :
      (bench x measure : Text) (out : Results) (results : Map F64)
      → NodupKeys results
      → value_of bench x (merge out (results_to_bmf client results measure))
        ≡ or_else
            (if text_eq measure x then sent client bench results else none)
            (value_of bench x out)
  value_of-next bench x measure out results u = ground (
    arith,
    value_of-merge bench x out (results_to_bmf client results measure)
        (results_to_bmf-IsMap results measure),
    sent-collect bench x measure results u,
  )

  pub merged-other :
      (bench x : Text) (out : Results) (ps : List (Text × Map F64))
      → All (λ p. NodupKeys p.1) ps
      → All (λ y. text_eq y x ≡ false) (names ps)
      → value_of bench x (merged client out ps) ≡ value_of bench x out
  merged-other bench x out [] u other = refl
  merged-other bench x out ((y, results) ∷ ps) (ur, u) (differs, other) =
      let out' = merge out (results_to_bmf client results y) in
      ground (
        arith,
        differs,
        merged-other bench x out' ps u other,
        value_of-next bench x y out results ur,
      )

  -- A measure that is not there yet is as it was after another one.
  pub absent-next :
      (bench y : Text) (out : Results) (results : Map F64) (xs : List Text)
      → NodupKeys results
      → All (λ x. text_eq x y ≡ false) xs
      → All (λ x. value_of bench x out ≡ none) xs
      → All (λ x. value_of bench x (merge out (results_to_bmf client results y)) ≡ none) xs
  absent-next bench y out results [] u differ h = tt
  absent-next bench y out results (x ∷ xs) u (differs, differ) (absent, h) = (
    ground (
      arith,
      differs,
      absent,
      text_eq_iff x y,
      text_eq_iff y x,
      value_of-next bench x y out results u,
    ),
    absent-next bench y out results xs u differ h,
  )

  pub values_of-merged :
      (bench : Text) (out : Results) (ps : List (Text × Map F64))
      → All (λ p. NodupKeys p.1) ps
      → Distinct (names ps)
      → All (λ x. value_of bench x out ≡ none) (names ps)
      → values_of bench (names ps) (merged client out ps) ≡ sent_by client bench ps
  values_of-merged bench out [] u distinct absent = refl
  values_of-merged bench out ((y, results) ∷ ps) (ur, u) (differ, distinct) (none_yet, absent) =
      let out' = merge out (results_to_bmf client results y) in
      let head : value_of bench y (merged client out' ps) ≡ sent client bench results = ground (
        arith,
        none_yet,
        text_eq_refl y,
        merged-other bench y out' ps u differ,
        value_of-next bench y y out results ur,
      ) in
      let rest =
        values_of-merged bench out' ps u distinct
          (absent-next bench y out results (names ps) ur differ absent) in
      cc
