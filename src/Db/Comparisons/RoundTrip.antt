-- ===== src/Db/Comparisons/RoundTrip.antt =====
-- `comparison_result` after `store_comparison_result`: ci-bench-runner/src/db.rs.
use mathlib.Core.List.{append-nil, map-append}
use rustls_bench_app.Base.{
  ℕ, ◌≡◌, ◌≢◌, refl, sym, ◌∙◌, ap, none, some, List, [], ◌∷◌, ◌++◌, map, All, arith,
}
use rustls_bench_app.Base.Text.{Text, text_eq_refl}
use rustls_bench_app.Base.Table
use rustls_bench_app.Base.Result.{ok}
use rustls_bench_app.Db.Schema.{
  ScenarioKind, icount, walltime, memory, ScenarioDiff, discriminant, try_from,
  try_from-discriminant, ComparisonRun, DiffRow, Database, comparison_key,
}
use rustls_bench_app.Db.Comparisons.{
  Json, ComparisonSubResult, ComparisonResult, diff_row, decode_diff, decode_diffs, diffs_of_kind,
  stored_diffs, find_run, to_json_array, from_json_array, new_comparison, store_comparison_result,
  comparison_result,
}

decode_diffs-rows : (id : ℕ) (ds : List ScenarioDiff) → decode_diffs (map (diff_row id) ds) ≡ ok ds
unfolding decode_diffs decode_diff
decode_diffs-rows id [] = refl
decode_diffs-rows id (d ∷ ds) =
    rw (try_from-discriminant d.scenario_kind, decode_diffs-rows id ds) refl

from_json_array-to_json_array :
    (json : Json) (l : List Text) → from_json_array json (to_json_array json l) ≡ ok l
unfolding from_json_array to_json_array
from_json_array-to_json_array json [] = refl
from_json_array-to_json_array json (x ∷ xs) = rw (json.round_trip (x ∷ xs)) refl

diffs_of_kind-append :
    (id kind : ℕ) (xs ys : List DiffRow)
    → diffs_of_kind id kind (xs ++ ys) ≡ diffs_of_kind id kind xs ++ diffs_of_kind id kind ys
unfolding diffs_of_kind
diffs_of_kind-append id kind [] ys = refl
diffs_of_kind-append id kind (x ∷ xs) ys = ground (arith, diffs_of_kind-append id kind xs ys)

-- No row of a run is there yet.
abbrev pub IsFresh : ℕ → List DiffRow → Type 0
IsFresh id = All (λ x. x.comparison_run_id ≢ id)

diffs_of_kind-fresh :
    (id kind : ℕ) (xs : List DiffRow) → IsFresh id xs → diffs_of_kind id kind xs ≡ []
unfolding diffs_of_kind
diffs_of_kind-fresh id kind [] h = refl
diffs_of_kind-fresh id kind (x ∷ xs) h = ground (arith, diffs_of_kind-fresh id kind xs h.1)

abbrev pub OfKind : ScenarioKind → List ScenarioDiff → Type 0
OfKind k = All (λ d. d.scenario_kind ≡ k)

diffs_of_kind-own :
    (id : ℕ) (k : ScenarioKind) (ds : List ScenarioDiff)
    → OfKind k ds
    → diffs_of_kind id (discriminant k) (map (diff_row id) ds) ≡ map (diff_row id) ds
unfolding diffs_of_kind
diffs_of_kind-own id k [] h = refl
diffs_of_kind-own id k (d ∷ ds) h = ground (arith, diffs_of_kind-own id k ds h.1)

diffs_of_kind-other :
    (id : ℕ) (k j : ScenarioKind) (ds : List ScenarioDiff)
    → OfKind k ds
    → discriminant k ≢ discriminant j
    → diffs_of_kind id (discriminant j) (map (diff_row id) ds) ≡ []
unfolding diffs_of_kind
diffs_of_kind-other id k j [] h ne = refl
diffs_of_kind-other id k j (d ∷ ds) h ne = ground (arith, diffs_of_kind-other id k j ds h.1 ne)

find_run-last :
    (rs : List ComparisonRun) (r : ComparisonRun)
    → find_run r.baseline_commit r.candidate_commit rs ≡ none
    → find_run r.baseline_commit r.candidate_commit (rs ++ r ∷ []) ≡ some r
unfolding find_run
find_run-last [] r h = rw (text_eq_refl r.baseline_commit, text_eq_refl r.candidate_commit) refl
find_run-last (x ∷ rs) r h = ground (arith, find_run-last rs r)

discriminant-ne : (k j : ScenarioKind) → k ≢ j → discriminant k ≢ discriminant j
discriminant-ne k j ne p =
    let same : ok k ≡ ok j =
      sym (try_from-discriminant k) ∙ ap try_from p ∙ try_from-discriminant j in
    ne (cc same)

module _ (id : ℕ) (old : List DiffRow) (fresh : IsFresh id old) (i w m : List ScenarioDiff) where
  abbrev row : ScenarioDiff → DiffRow
  row = diff_row id

  diffs_of_kind-stored :
      (kind : ℕ)
      → diffs_of_kind id kind (old ++ map row (i ++ (w ++ m)))
        ≡ diffs_of_kind id kind (map row i)
          ++ (diffs_of_kind id kind (map row w) ++ diffs_of_kind id kind (map row m))
  diffs_of_kind-stored kind =
      rw
        (
          diffs_of_kind-append id kind old (map row (i ++ (w ++ m))),
          map-append row i (w ++ m),
          map-append row w m,
          diffs_of_kind-fresh id kind old fresh,
          diffs_of_kind-append id kind (map row i) (map row w ++ map row m),
          diffs_of_kind-append id kind (map row w) (map row m),
        )
        refl

  module _ (hi : OfKind icount i) (hw : OfKind walltime w) (hm : OfKind memory m) where
    stored_icounts :
        decode_diffs (diffs_of_kind id (discriminant icount) (old ++ map row (i ++ (w ++ m))))
        ≡ ok i
    stored_icounts =
        rw
          (
            diffs_of_kind-stored (discriminant icount),
            diffs_of_kind-own id icount i hi,
            diffs_of_kind-other id walltime icount w hw (discriminant-ne walltime icount (λ p. cc)),
            diffs_of_kind-other id memory icount m hm (discriminant-ne memory icount (λ p. cc)),
            append-nil (map row i),
          )
          (decode_diffs-rows id i)

    stored_walltimes :
        decode_diffs (diffs_of_kind id (discriminant walltime) (old ++ map row (i ++ (w ++ m))))
        ≡ ok w
    stored_walltimes =
        rw
          (
            diffs_of_kind-stored (discriminant walltime),
            diffs_of_kind-own id walltime w hw,
            diffs_of_kind-other id icount walltime i hi (discriminant-ne icount walltime (λ p. cc)),
            diffs_of_kind-other id memory walltime m hm (discriminant-ne memory walltime (λ p. cc)),
            append-nil (map row w),
          )
          (decode_diffs-rows id w)

    stored_memory :
        decode_diffs (diffs_of_kind id (discriminant memory) (old ++ map row (i ++ (w ++ m))))
        ≡ ok m
    stored_memory =
        rw
          (
            diffs_of_kind-stored (discriminant memory),
            diffs_of_kind-own id memory m hm,
            diffs_of_kind-other id icount memory i hi (discriminant-ne icount memory (λ p. cc)),
            diffs_of_kind-other id walltime memory w hw (discriminant-ne walltime memory (λ p. cc)),
          )
          (decode_diffs-rows id m)

module _ {Details : Type 0} where
  -- A result without the details that the database does not keep.
  abbrev pub forget_details : ComparisonSubResult Details → ComparisonSubResult Details
  forget_details r = record r { memory_details = none }

  abbrev pub IsSorted : ComparisonResult Details → Type 0
  IsSorted r =
      OfKind icount r.icount.diffs × OfKind walltime r.walltime.diffs × OfKind memory r.memory.diffs

  -- The first comparison that is stored for two commits is read back for them whole, but for the
  -- memory details: its id is new, and every diff stands in the part for its kind.
  pub comparison_result-store :
      (json : Json) (id now : ℕ) (baseline candidate : Text) (r : ComparisonResult Details)
      (db : Database)
      → Table.find comparison_key id db.comparison_runs ≡ none
      → IsFresh id db.scenario_diffs
      → find_run baseline candidate db.comparison_runs ≡ none
      → IsSorted r
      → comparison_result json baseline candidate
          (store_comparison_result json id now baseline candidate r db).1
        ≡ ok (
            some (record {
              icount = forget_details r.icount;
              walltime = forget_details r.walltime;
              memory = forget_details r.memory;
            }))
  unfolding comparison_result store_comparison_result stored_diffs
  comparison_result-store json id now baseline candidate r db new fresh first (hi, hw, hm) =
      let run = new_comparison json id now baseline candidate r in
      let rows = db.scenario_diffs in
      let i = r.icount.diffs in
      let w = r.walltime.diffs in
      let m = r.memory.diffs in
      let after : Database = record db {
        comparison_runs = db.comparison_runs ++ run ∷ [];
        scenario_diffs = rows ++ map (diff_row id) (i ++ (w ++ m));
      } in
      let stored : (store_comparison_result json id now baseline candidate r db).1 ≡ after =
        rw (store_comparison_result, Table.insert-fresh comparison_key run db.comparison_runs new)
          refl in
      let icounts : stored_diffs id icount after ≡ ok i =
        stored_icounts id rows fresh i w m hi hw hm in
      let walltimes : stored_diffs id walltime after ≡ ok w =
        stored_walltimes id rows fresh i w m hi hw hm in
      let mem : stored_diffs id memory after ≡ ok m = stored_memory id rows fresh i w m hi hw hm in
      let read : comparison_result json baseline candidate after
          ≡ ok (
              some (record {
                icount = forget_details r.icount;
                walltime = forget_details r.walltime;
                memory = forget_details r.memory;
              })) =
        rw
          (
            comparison_result,
            find_run-last db.comparison_runs run first,
            from_json_array-to_json_array json r.icount.scenarios_missing_in_baseline,
            from_json_array-to_json_array json r.walltime.scenarios_missing_in_baseline,
            from_json_array-to_json_array json r.memory.scenarios_missing_in_baseline,
            icounts,
            walltimes,
            mem,
          )
          refl in
      ap (comparison_result json {Details = Details} baseline candidate) stored ∙ read
