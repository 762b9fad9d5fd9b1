-- ===== src/BencherDev/Sent.antt =====
-- The results that are sent to bencher.dev: `track_results` of ci-bench-runner/src/bencher_dev.rs.
use rustls_bench_app.Base.{ℕ, ◌≢◌, ◌≡◌, refl, false, Option, none, some, List, [], ◌∷◌, All, arith}
use rustls_bench_app.Base.Text.{Text, codes, text_eq, text_eq_iff, text_eq_refl}
use rustls_bench_app.Base.F64.{F64, Arith}
use rustls_bench_app.Base.Map.{Map, NodupKeys}
use rustls_bench_app.Base.Result.{
  ok, panic, ok_or, >>=-ne-panic, ok_or-ne-panic, invalid_payload, api_failed,
}
use rustls_bench_app.Job.Files.{MemoryDetails}
use rustls_bench_app.BencherDev.{
  Results, Client, map_values, heap_peak_blocks, heap_peak_bytes, heap_total_blocks,
  heap_total_bytes, results_to_bmf, memory_results_to_bmf, bmf_map, track_results,
}
use rustls_bench_app.BencherDev.Merge.{value_of}
use rustls_bench_app.BencherDev.Report.{
  KeepsNames, Distinct, sent, values_of, map_values-NodupKeys, merged, names, sent-collect,
  merged-other, values_of-merged,
}

-- The measures that are sent, by slug.
abbrev pub measures : Client → List Text
measures client =
    client.instructions
    ∷ client.latency
    ∷ codes "heap-peak-blocks"
    ∷ codes "heap-peak-bytes"
    ∷ codes "heap-total-blocks"
    ∷ codes "heap-total-bytes"
    ∷ []

-- What is sent for a benchmark, in the order of `measures`.
abbrev pub sent_values :
    Client → Arith → Text → (icounts walltimes : Map F64) → Map MemoryDetails → List (Option F64)
sent_values client fp bench icounts walltimes mem =
    sent client bench icounts
    ∷ sent client bench walltimes
    ∷ sent client bench (map_values (heap_peak_blocks fp) mem)
    ∷ sent client bench (map_values (heap_peak_bytes fp) mem)
    ∷ sent client bench (map_values (heap_total_blocks fp) mem)
    ∷ sent client bench (map_values (heap_total_bytes fp) mem)
    ∷ []

-- The parser takes the slugs.
abbrev pub TakesMeasures : Client → Type 0
TakesMeasures client = All (λ x. client.parse_measure x ≡ some x) (measures client)

abbrev pub pairs :
    Client → Arith → (walltimes : Map F64) → Map MemoryDetails → List (Text × Map F64)
pairs client fp walltimes mem =
    (client.latency, walltimes)
    ∷ (codes "heap-peak-blocks", map_values (heap_peak_blocks fp) mem)
    ∷ (codes "heap-peak-bytes", map_values (heap_peak_bytes fp) mem)
    ∷ (codes "heap-total-blocks", map_values (heap_total_blocks fp) mem)
    ∷ (codes "heap-total-bytes", map_values (heap_total_bytes fp) mem)
    ∷ []

pub bmf_map-merged :
    (client : Client) (fp : Arith) (icounts walltimes : Map F64) (mem : Map MemoryDetails)
    → TakesMeasures client
    → bmf_map client fp icounts walltimes mem
      ≡ ok (
          merged client
            (results_to_bmf client icounts client.instructions)
            (pairs client fp walltimes mem))
unfolding bmf_map memory_results_to_bmf
bmf_map-merged client fp icounts walltimes mem (i, (l, (pb, (py, (tb, (ty, _)))))) =
    rw (i, bmf_map, l, pb, py, tb, ty) refl

absent-first :
    (client : Client)
    → KeepsNames client
    → (bench : Text) (icounts : Map F64) (x : Text) (xs : List Text) → NodupKeys icounts
    → All (λ y. text_eq y x ≡ false) xs
    → All (λ y. value_of bench y (results_to_bmf client icounts x) ≡ none) xs
absent-first client keeps bench icounts x [] u differ = tt
absent-first client keeps bench icounts x (y ∷ ys) u (differs, differ) = (
  ground (
    arith,
    differs,
    text_eq_iff x y,
    text_eq_iff y x,
    sent-collect client keeps bench y x icounts u,
  ),
  absent-first client keeps bench icounts x ys u differ,
)

-- Where the six measures parse to themselves and differ, a name that is taken is kept as it is, and no
-- map has a key twice: the results
-- that `track_results` sends are made without a panic, and hold for every benchmark and measure
-- exactly the value given for it, unless the name of the benchmark is refused, which has no values.
pub values_of-bmf_map :
    (client : Client)
    → KeepsNames client
    → (fp : Arith) (bench : Text) (icounts walltimes : Map F64) (mem : Map MemoryDetails)
    → TakesMeasures client
    → Distinct (measures client)
    → NodupKeys icounts
    → NodupKeys walltimes
    → NodupKeys mem
    → (out : Results) × (bmf_map client fp icounts walltimes mem ≡ ok out)
      × (values_of bench (measures client) out ≡ sent_values client fp bench icounts walltimes mem)
values_of-bmf_map client keeps fp bench icounts walltimes mem takes (differ, distinct) ui uw um =
    let x = client.instructions in
    let out = results_to_bmf client icounts x in
    let ps = pairs client fp walltimes mem in
    let pb = map_values-NodupKeys (heap_peak_blocks fp) mem um in
    let py = map_values-NodupKeys (heap_peak_bytes fp) mem um in
    let tb = map_values-NodupKeys (heap_total_blocks fp) mem um in
    let ty = map_values-NodupKeys (heap_total_bytes fp) mem um in
    let us : All (λ p. NodupKeys p.1) ps = (uw, (pb, (py, (tb, (ty, tt))))) in
    let head : value_of bench x (merged client out ps) ≡ sent client bench icounts = ground (
      arith,
      text_eq_refl x,
      merged-other client keeps bench x out ps us differ,
      sent-collect client keeps bench x x icounts ui,
    ) in
    let rest =
      values_of-merged client keeps bench out ps us distinct
        (absent-first client keeps bench icounts x (names ps) ui differ) in
    (merged client out ps, bmf_map-merged client fp icounts walltimes mem takes, cc)

-- Where the measures can be parsed, sending the results returns: an error or nothing.
pub track_results-ne-panic :
    (client : Client) (fp : Arith) (testbed_id project_id branch hash : Text)
    (start_time end_time : ℕ)
    → (icounts walltimes : Map F64) (mem : Map MemoryDetails) → TakesMeasures client
    → track_results client fp testbed_id project_id branch hash start_time end_time icounts
        walltimes mem
      ≢ panic
unfolding track_results
track_results-ne-panic client fp testbed_id project_id branch hash start_time end_time icounts
      walltimes mem takes =
    let bmf =
      merged client (results_to_bmf client icounts client.instructions)
        (pairs client fp walltimes mem) in
    rw (bmf_map-merged client fp icounts walltimes mem takes, track_results)
      (>>=-ne-panic (ok_or (client.parse_branch branch) invalid_payload) _
        (ok_or-ne-panic (client.parse_branch branch) invalid_payload)
        (λ b.
          >>=-ne-panic (ok_or (client.parse_hash hash) invalid_payload) _
            (ok_or-ne-panic (client.parse_hash hash) invalid_payload)
            (λ h.
              >>=-ne-panic (ok_or (client.to_json bmf) invalid_payload) _
                (ok_or-ne-panic (client.to_json bmf) invalid_payload)
                (λ r. ok_or-ne-panic _ api_failed))))
