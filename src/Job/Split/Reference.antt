-- ===== src/Job/Split/Reference.antt =====
-- `split_on_threshold` of ci-bench-runner/src/job/bench_pr.rs against its description by filters.
use rustls_bench_app.Base.{
  ◌≡◌, ◌∙◌, refl, ap, Bool, List, [], ◌∷◌, ◌++◌, arith, Bool-cases, inl, inr, not, ◌&&◌,
  if◌then◌else◌,
}
use mathlib.Core.List.{append_assoc, append-nil}
use rustls_bench_app.Base.F64.{Arith}
use rustls_bench_app.Base.Sort.{count_if, SameItems, sort, count_if-sort}
use rustls_bench_app.Db.Schema.{ScenarioDiff}
use rustls_bench_app.Job.Split.{
  is_negligible, larger_ratio, sort_by_abs_diff_ratio, split_loop, split_on_threshold,
}

-- The elements that pass a test, in their order.
abbrev pub filter {ℓ} : {A : Type ℓ} → (A → Bool) → List A → List A
filter p [] = []
filter p (x ∷ xs) = let rest = filter p xs in if p x then x ∷ rest else rest

pub count_if-filter :
    {A : Type 0} (p q : A → Bool) (l : List A)
    → count_if p (filter q l) ≡ count_if (λ x. q x && p x) l
count_if-filter p q [] = refl
count_if-filter p q (x ∷ xs) = ground (arith, count_if-filter p q xs)

module _ (fp : Arith) where
  abbrev pub is_significant : ScenarioDiff → Bool
  is_significant d = not (is_negligible fp d)

  split_loop-filter :
      (ds significant negligible : List ScenarioDiff)
      → split_loop fp ds significant negligible
        ≡ (significant ++ filter is_significant ds, negligible ++ filter (is_negligible fp) ds)
  unfolding split_loop
  split_loop-filter [] significant negligible =
      rw (append-nil significant, append-nil negligible) refl
  split_loop-filter (d ∷ ds) significant negligible = elim (Bool-cases (is_negligible fp d)) [
    | inl e ↦
        rw (e, filter)
          (split_loop-filter ds significant (negligible ++ d ∷ [])
            ∙ ap (λ l. (significant ++ filter is_significant ds, l))
                (append_assoc negligible (d ∷ []) (filter (is_negligible fp) ds)))
    | inr e ↦
        rw (e, filter)
          (split_loop-filter ds (significant ++ d ∷ []) negligible
            ∙ ap (λ l. (l, negligible ++ filter (is_negligible fp) ds))
                (append_assoc significant (d ∷ []) (filter is_significant ds)))
  ]

  -- The loop and the sorts give the significant diffs and the negligible ones, each sorted by a stable
  -- sort with the larger ratio first.
  pub split_on_threshold-filter :
      (diffs : List ScenarioDiff)
      → split_on_threshold fp diffs ≡ (
        sort (larger_ratio fp) (filter is_significant diffs),
        sort (larger_ratio fp) (filter (is_negligible fp) diffs),
      )
  unfolding split_on_threshold sort_by_abs_diff_ratio
  split_on_threshold-filter diffs = rw (split_loop-filter diffs [] []) refl

  -- The two lists have the same diffs in whatever order the diffs are given.
  pub split_on_threshold-SameItems :
      (ds es : List ScenarioDiff)
      → SameItems ds es
      → SameItems (split_on_threshold fp ds).0 (split_on_threshold fp es).0
        × SameItems (split_on_threshold fp ds).1 (split_on_threshold fp es).1
  split_on_threshold-SameItems ds es same = (
    λ p.
        rw
          (
            split_on_threshold-filter ds,
            split_on_threshold-filter es,
            count_if-sort (larger_ratio fp) p (filter is_significant ds),
            count_if-sort (larger_ratio fp) p (filter is_significant es),
            count_if-filter p is_significant ds,
            count_if-filter p is_significant es,
          )
          (same (λ d. is_significant d && p d)),
    λ p.
        rw
          (
            split_on_threshold-filter ds,
            split_on_threshold-filter es,
            count_if-sort (larger_ratio fp) p (filter (is_negligible fp) ds),
            count_if-sort (larger_ratio fp) p (filter (is_negligible fp) es),
            count_if-filter p (is_negligible fp) ds,
            count_if-filter p (is_negligible fp) es,
          )
          (same (λ d. is_negligible fp d && p d)),
  )
