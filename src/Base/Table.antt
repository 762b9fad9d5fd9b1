-- ===== src/Base/Table.antt =====
-- A table of the database as the list of its rows, oldest insertion first, with a key column.
use Prim.Native.Nat.{ℕ, ◌+◌, ◌≤◌}
use mathlib.Core.Path.{◌≡◌, refl}
use mathlib.Core.Logic.{◌⊎◌, inl, inr}
use mathlib.Core.Bool.{true}
use mathlib.Core.Option.{Option, none, some}
use mathlib.Core.List.{List, [], ◌∷◌, ◌++◌}
use native.Mathlib.Omega.{arith}
use rustls_bench_app.Base.Tests.{◌==◌, if◌then◌else◌, is_some, Bool-cases}
use rustls_bench_app.Base.Lists.{length, All}

module _ {A : Type 0} (key : A → ℕ) where
  -- `SELECT * … WHERE key = k`, where the key is unique
  unfoldable pub find : ℕ → List A → Option A
  find k [] = none
  find k (r ∷ rows) = if key r == k then some r else find k rows

  -- `DELETE … WHERE key = k`
  unfoldable pub delete : ℕ → List A → List A
  delete k [] = []
  delete k (r ∷ rows) = if key r == k then delete k rows else r ∷ delete k rows

  -- `UPDATE … SET … WHERE key = k`
  unfoldable pub update : ℕ → (A → A) → List A → List A
  update k f [] = []
  update k f (r ∷ rows) = (if key r == k then f r else r) ∷ update k f rows

  -- `INSERT` under the primary key; `none` is a violated constraint.
  unfoldable pub insert : A → List A → Option (List A)
  unfolding find
  insert r rows = if is_some (find (key r) rows) then none else some (rows ++ r ∷ [])

  -- The primary key is one.
  abbrev pub Unique : List A → Type 0
  Unique [] = Unit
  Unique (r ∷ rows) = (find (key r) rows ≡ none) × Unique rows

  pub find-append :
      (k : ℕ) (rows : List A) (r : A)
      → find k (rows ++ r ∷ [])
        ≡ (if is_some (find k rows) then find k rows else if key r == k then some r else none)
  unfolding find
  find-append k [] r = refl
  find-append k (x ∷ rows) r = ground (arith, find-append k rows r)

  pub find-key : (k : ℕ) (rows : List A) (r : A) → find k rows ≡ some r → key r ≡ k
  unfolding find
  find-key k [] r e = cc
  find-key k (x ∷ rows) r e = ground (arith, find-key k rows r)

  pub find-delete :
      (j k : ℕ) (rows : List A) → find j (delete k rows) ≡ (if j == k then none else find j rows)
  unfolding find delete
  find-delete j k [] = ground arith
  find-delete j k (x ∷ rows) = ground (arith, find-delete j k rows)

  pub find-update :
      (j k : ℕ) (f : A → A) (rows : List A)
      → ((a : A) → key (f a) ≡ key a)
      → find j (update k f rows)
        ≡ (if j == k then elim (find j rows) [ none ↦ none | some r ↦ some (f r) ] else find j rows)
  unfolding find update
  find-update j k f [] h = ground arith
  find-update j k f (x ∷ rows) h = ground (arith, find-update j k f rows h, h x)

  pub append-Unique :
      (rows : List A) (r : A) → Unique rows → find (key r) rows ≡ none → Unique (rows ++ r ∷ [])
  unfolding find
  append-Unique [] r u h = (refl, tt)
  append-Unique (x ∷ rows) r u h =
      ground (arith, append-Unique rows r u.1, find-append (key x) rows r)

  pub delete-Unique : (k : ℕ) (rows : List A) → Unique rows → Unique (delete k rows)
  unfolding delete
  delete-Unique k [] u = tt
  delete-Unique k (x ∷ rows) u =
      ground (arith, delete-Unique k rows u.1, find-delete (key x) k rows)

  pub update-Unique :
      (k : ℕ) (f : A → A) (rows : List A)
      → ((a : A) → key (f a) ≡ key a)
      → Unique rows
      → Unique (update k f rows)
  unfolding update
  update-Unique k f [] h u = tt
  update-Unique k f (x ∷ rows) h u =
      ground (arith, update-Unique k f rows h u.1, find-update (key x) k f rows h, h x)

  pub length-update : (k : ℕ) (f : A → A) (rows : List A) → length (update k f rows) ≡ length rows
  unfolding update
  length-update k f [] = refl
  length-update k f (x ∷ rows) = omega (arith, length-update k f rows)

  pub length-delete-le : (k : ℕ) (rows : List A) → length (delete k rows) ≤ length rows
  unfolding delete
  length-delete-le k [] = omega arith
  length-delete-le k (x ∷ rows) = ground (arith, length-delete-le k rows)

  -- Deleting a row that is there shortens the table.
  pub length-delete :
      (k : ℕ) (rows : List A) (r : A)
      → find k rows ≡ some r
      → length (delete k rows) + 1 ≤ length rows
  unfolding delete find
  length-delete k [] r e = cc
  length-delete k (x ∷ rows) r e = ground (arith, length-delete k rows r, length-delete-le k rows)

  -- Deleting a key that is not there changes nothing.
  pub delete_absent : (k : ℕ) (rows : List A) → find k rows ≡ none → delete k rows ≡ rows
  unfolding delete find
  delete_absent k [] e = refl
  delete_absent k (x ∷ rows) e = ground (arith, delete_absent k rows)

  -- A predicate on rows is kept by deletion, by an update that keeps it, and by insertion.
  pub delete-All {κ} : (P : A → Type κ) (k : ℕ) (rows : List A) → All P rows → All P (delete k rows)
  unfolding delete
  delete-All P k [] h = tt
  delete-All P k (x ∷ rows) h = elim (Bool-cases (key x == k)) [
    | inl e ↦ rw e (delete-All P k rows h.1)
    | inr e ↦ rw e ((h.0, delete-All P k rows h.1))
  ]

  pub update-All {κ} :
      (P : A → Type κ) (k : ℕ) (f : A → A) (rows : List A)
      → ((a : A) → P a → P (f a))
      → All P rows
      → All P (update k f rows)
  unfolding update
  update-All P k f [] g h = tt
  update-All P k f (x ∷ rows) g h = elim (Bool-cases (key x == k)) [
    | inl e ↦ rw e ((g x h.0, update-All P k f rows g h.1))
    | inr e ↦ rw e ((h.0, update-All P k f rows g h.1))
  ]

  -- An inserted row stands at the end, under a key that was free.
  pub insert-cases :
      (r : A) (rows : List A)
      → ((is_some (find (key r) rows) ≡ true) × (insert r rows ≡ none))
        ⊎ ((find (key r) rows ≡ none) × (insert r rows ≡ some (rows ++ r ∷ [])))
  unfolding insert
  insert-cases r rows = ground arith

  -- Rows stay where they are when others are added or updated.
  pub is_some-find-append :
      (k : ℕ) (rows : List A) (r : A)
      → is_some (find k rows) ≡ true
      → is_some (find k (rows ++ r ∷ [])) ≡ true
  is_some-find-append k rows r h = rw (find-append k rows r) (rw h h)

  pub find-append_self : (rows : List A) (r : A) → is_some (find (key r) (rows ++ r ∷ [])) ≡ true
  find-append_self rows r = ground (arith, find-append (key r) rows r)

  pub is_some-find-update :
      (j k : ℕ) (f : A → A) (rows : List A)
      → ((a : A) → key (f a) ≡ key a)
      → is_some (find j rows) ≡ true
      → is_some (find j (update k f rows)) ≡ true
  is_some-find-update j k f rows h e = ground (arith, find-update j k f rows h)

  pub insert-fresh :
      (r : A) (rows : List A) → find (key r) rows ≡ none → insert r rows ≡ some (rows ++ r ∷ [])
  unfolding insert
  insert-fresh r rows e = ground arith
