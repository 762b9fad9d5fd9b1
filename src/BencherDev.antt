-- ===== src/BencherDev.antt =====
-- The results in the format of bencher.dev: ci-bench-runner/src/bencher_dev.rs. The service and the
-- parsers of its client library are a parameter.
pub mod Merge
pub mod Report
pub mod Sent
use rustls_bench_app.Base.{ℕ, Option, none, some, List, [], ◌∷◌}
use rustls_bench_app.Base.Text.{Text, codes}
use rustls_bench_app.Base.F64.{F64, Arith}
use rustls_bench_app.Base.Map.{Map, lookup, insert}
use rustls_bench_app.Base.Result.{
  Result, ok, err, panic, Error, ok_or, unwrap, ◌>>=◌, invalid_payload, api_failed,
}
use rustls_bench_app.Job.Files.{MemoryDetails}

-- By measure, and by the name of the benchmark.
abbrev pub Metrics : Type 0
Metrics = Map F64

abbrev pub Results : Type 0
Results = Map Metrics

-- The settings of a report are the same for all.
pub record NewReport : Type 0 where
  pub branch : Text
  pub hash : Text
  pub testbed : Text
  pub start_time : ℕ
  pub end_time : ℕ
  pub results : Text

-- bencher_client: its parsers, the slugs of two measures, JSON, and the call of the service.
pub record Client : Type 0 where
  pub parse_name : Text → Option Text
  pub parse_measure : Text → Option Text
  pub parse_branch : Text → Option Text
  pub parse_hash : Text → Option Text
  pub instructions : Text
  pub latency : Text
  pub to_json : Results → Option Text
  pub send : (project_id : Text) → NewReport → Option (Unit {0})

-- The client along with its configuration.
pub record BencherDev : Type 0 where
  pub client : Client
  pub testbed_id : Text
  pub project_id : Text

-- `HashMap::extend`
unfoldable pub extend {ℓ} : {V : Type ℓ} → Map V → Map V → Map V
extend target [] = target
extend target ((k, v) ∷ src) = extend (insert k v target) src

abbrev pub or_default : Option Metrics → Metrics
or_default none = []
or_default (some metrics) = metrics

-- `merge`
unfoldable pub merge : Results → Results → Results
unfolding extend
merge target [] = target
merge target ((bench, contents) ∷ src) =
    merge (insert bench (extend (or_default (lookup bench target)) contents) target) src

-- `iter().map(|(k, v)| …).collect()`, which keeps the keys.
unfoldable pub map_values {ℓ κ} : {V : Type ℓ} {W : Type κ} → (V → W) → Map V → Map W
map_values f [] = []
map_values f ((k, v) ∷ m) = (k, f v) ∷ map_values f m

abbrev pub heap_peak_blocks : Arith → MemoryDetails → F64
heap_peak_blocks fp v = fp.of_uint v.heap_peak_blocks

abbrev pub heap_peak_bytes : Arith → MemoryDetails → F64
heap_peak_bytes fp v = fp.of_uint v.heap_peak_bytes

abbrev pub heap_total_blocks : Arith → MemoryDetails → F64
heap_total_blocks fp v = fp.of_uint v.heap_total_blocks

abbrev pub heap_total_bytes : Arith → MemoryDetails → F64
heap_total_bytes fp v = fp.of_uint v.heap_total_bytes

module _ (client : Client) where
  -- Names that the service does not take are left out.
  unfoldable pub collect_metrics : Map F64 → (measure : Text) → Results → Results
  collect_metrics [] measure out = out
  collect_metrics ((scenario, value) ∷ results) measure out =
      collect_metrics results measure (elim (client.parse_name scenario) [
        | none ↦ out
        | some name ↦ insert name ((measure, value) ∷ []) out
      ])

  unfoldable pub results_to_bmf : Map F64 → (measure : Text) → Results
  unfolding collect_metrics
  results_to_bmf results measure = collect_metrics results measure []

module _ (client : Client) (fp : Arith) where
  unfoldable pub memory_results_to_bmf : Results → Map MemoryDetails → Result Results
  unfolding merge map_values results_to_bmf
  memory_results_to_bmf out results = do
    peak_blocks ← unwrap (client.parse_measure (codes "heap-peak-blocks"))
    let out =
        merge out (results_to_bmf client (map_values (heap_peak_blocks fp) results) peak_blocks)
    peak_bytes ← unwrap (client.parse_measure (codes "heap-peak-bytes"))
    let out = merge out (results_to_bmf client (map_values (heap_peak_bytes fp) results) peak_bytes)
    total_blocks ← unwrap (client.parse_measure (codes "heap-total-blocks"))
    let out =
        merge out (results_to_bmf client (map_values (heap_total_blocks fp) results) total_blocks)
    total_bytes ← unwrap (client.parse_measure (codes "heap-total-bytes"))
    ok (merge out (results_to_bmf client (map_values (heap_total_bytes fp) results) total_bytes))

  unfoldable pub bmf_map : (icounts walltimes : Map F64) → Map MemoryDetails → Result Results
  unfolding memory_results_to_bmf
  bmf_map icounts walltimes mem = do
    instructions ← unwrap (client.parse_measure client.instructions)
    latency ← unwrap (client.parse_measure client.latency)
    memory_results_to_bmf
        (merge (results_to_bmf client icounts instructions)
          (results_to_bmf client walltimes latency))
        mem

  unfoldable pub track_results :
      (testbed_id project_id branch hash : Text) (start_time end_time : ℕ)
      → (icounts walltimes : Map F64) → Map MemoryDetails
      → Result (Unit {0})
  unfolding bmf_map
  track_results testbed_id project_id branch hash start_time end_time icounts walltimes mem = do
    bmf ← bmf_map icounts walltimes mem
    branch ← ok_or (client.parse_branch branch) invalid_payload
    hash ← ok_or (client.parse_hash hash) invalid_payload
    results ← ok_or (client.to_json bmf) invalid_payload
    let report : NewReport = record {
      branch = branch;
      hash = hash;
      testbed = testbed_id;
      start_time = start_time;
      end_time = end_time;
      results = results;
    }
    ok_or (client.send project_id report) api_failed
