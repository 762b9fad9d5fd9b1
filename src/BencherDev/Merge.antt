-- ===== src/BencherDev/Merge.antt =====
-- The values of a benchmark after `merge`, by measure: ci-bench-runner/src/bencher_dev.rs.
use rustls_bench_app.Base.{◌≡◌, refl, Option, none, some, [], ◌∷◌, if◌then◌else◌, All, arith}
use rustls_bench_app.Base.Text.{Text, text_eq, text_eq_iff}
use rustls_bench_app.Base.F64.{F64}
use rustls_bench_app.Base.Map.{Map, lookup, insert, lookup-insert, NodupKeys}
use rustls_bench_app.BencherDev.{Metrics, Results, extend, or_default, merge}

abbrev pub or_else {ℓ} : {A : Type ℓ} → Option A → Option A → Option A
or_else none b = b
or_else (some a) b = some a

abbrev pub metric : Text → Option Metrics → Option F64
metric measure none = none
metric measure (some metrics) = lookup measure metrics

-- The value of a benchmark for a measure.
abbrev pub value_of : Text → Text → Results → Option F64
value_of bench measure m = metric measure (lookup bench m)

-- No key twice, and no measure twice for one benchmark.
abbrev pub IsMap : Results → Type 0
IsMap m = NodupKeys m × All (λ e. NodupKeys e.1) m

lookup-extend :
    {V : Type 0} (k : Text) (target src : Map V)
    → NodupKeys src
    → lookup k (extend target src) ≡ or_else (lookup k src) (lookup k target)
unfolding extend lookup
lookup-extend k target [] u = refl
lookup-extend k target ((j, v) ∷ src) (fresh, u) = ground (
  arith,
  fresh,
  lookup-extend k (insert j v target) src u,
  lookup-insert j k v target,
  text_eq_iff j k,
)

pub value_of-insert :
    (bench name measure : Text) (c : Metrics) (m : Results)
    → value_of bench measure (insert name c m)
      ≡ (if text_eq name bench then lookup measure c else value_of bench measure m)
value_of-insert bench name measure c m = ground (arith, lookup-insert name bench c m)

pub value_of-merge :
    (bench measure : Text) (target src : Results)
    → IsMap src
    → value_of bench measure (merge target src)
      ≡ or_else (value_of bench measure src) (value_of bench measure target)
unfolding merge lookup
value_of-merge bench measure target [] u = refl
value_of-merge bench measure target ((name, c) ∷ src) ((fresh, u), (uc, us)) =
    let c' = extend (or_default (lookup name target)) c in
    ground (
      arith,
      fresh,
      value_of-merge bench measure (insert name c' target) src (u, us),
      value_of-insert bench name measure c' target,
      lookup-extend measure (or_default (lookup name target)) c uc,
      text_eq_iff name bench,
    )
