-- ===== src/Base/Sort.antt =====
-- The language's stable sort, as insertion: `before y x` says that `y` has to come before `x`.
use Prim.Native.Nat.{ℕ, zero, suc, ◌+◌, ◌≤◌}
use mathlib.Core.Path.{◌≡◌, refl, subst}
use mathlib.Core.Bool.{Bool, true, false}
use mathlib.Core.List.{List, [], ◌∷◌, ◌++◌}
use mathlib.Core.Logic.{inl, inr}
use native.Mathlib.Omega.{arith}
use rustls_bench_app.Base.Tests.{if◌then◌else◌, Bool-cases}
use mathlib.Core.Option.{some}
use rustls_bench_app.Base.Lists.{length, get_elem?, All, All-imp}

-- How many elements pass a test.
abbrev pub count_if {ℓ} : {A : Type ℓ} → (A → Bool) → List A → ℕ
count_if p [] = 0
count_if p (x ∷ xs) = (if p x then 1 else 0) + count_if p xs

pub count_if-le {ℓ} : {A : Type ℓ} (p : A → Bool) (l : List A) → count_if p l ≤ length l
count_if-le p [] = omega arith
count_if-le p (x ∷ xs) = ground (arith, count_if-le p xs)

pub count_if-append :
    {A : Type 0} (p : A → Bool) (xs ys : List A)
    → count_if p (xs ++ ys) ≡ count_if p xs + count_if p ys
count_if-append p [] ys = omega arith
count_if-append p (x ∷ xs) ys = omega (arith, count_if-append p xs ys)

-- The same elements, each as often, in whatever order.
abbrev pub SameItems : {A : Type 0} → List A → List A → Type 0
SameItems {A} xs ys = (p : A → Bool) → count_if p xs ≡ count_if p ys

module _ {A : Type 0} (before : A → A → Bool) where
  unfoldable pub insert_sorted : A → List A → List A
  insert_sorted x [] = x ∷ []
  insert_sorted x (y ∷ ys) = if before y x then y ∷ insert_sorted x ys else x ∷ y ∷ ys

  unfoldable pub sort : List A → List A
  unfolding insert_sorted
  sort [] = []
  sort (x ∷ xs) = insert_sorted x (sort xs)

  -- No element has to come before one that stands ahead of it.
  abbrev pub Ordered : List A → Type 0
  Ordered [] = Unit
  Ordered (x ∷ xs) = All (λ y. before y x ≡ false) xs × Ordered xs

  count_if-insert_sorted :
      (p : A → Bool) (x : A) (l : List A) → count_if p (insert_sorted x l) ≡ count_if p (x ∷ l)
  unfolding insert_sorted
  count_if-insert_sorted p x [] = refl
  count_if-insert_sorted p x (y ∷ ys) = ground (arith, count_if-insert_sorted p x ys)

  -- Sorting keeps every element as often as it was there.
  pub count_if-sort : (p : A → Bool) (l : List A) → count_if p (sort l) ≡ count_if p l
  unfolding sort
  count_if-sort p [] = refl
  count_if-sort p (x ∷ xs) = omega (arith, count_if-insert_sorted p x (sort xs), count_if-sort p xs)

  length-insert_sorted : (x : A) (l : List A) → length (insert_sorted x l) ≡ suc (length l)
  unfolding insert_sorted
  length-insert_sorted x [] = refl
  length-insert_sorted x (y ∷ ys) = ground (arith, length-insert_sorted x ys)

  pub length-sort : (l : List A) → length (sort l) ≡ length l
  unfolding sort
  length-sort [] = refl
  length-sort (x ∷ xs) = omega (arith, length-insert_sorted x (sort xs), length-sort xs)

  insert_sorted-All :
      (P : A → Type 0) (x : A) (l : List A) → P x → All P l → All P (insert_sorted x l)
  unfolding insert_sorted
  insert_sorted-All P x [] h k = (h, tt)
  insert_sorted-All P x (y ∷ ys) h k = elim (Bool-cases (before y x)) [
    | inl e ↦ rw e ((k.0, insert_sorted-All P x ys h k.1))
    | inr e ↦ rw e ((h, k))
  ]

  pub sort-All : (P : A → Type 0) (l : List A) → All P l → All P (sort l)
  unfolding sort
  sort-All P [] h = tt
  sort-All P (x ∷ xs) h = insert_sorted-All P x (sort xs) h.0 (sort-All P xs h.1)

  module _ (Sound : A → Type 0) (asymm : (x y : A) → before x y ≡ true → before y x ≡ false)
      (trans : (x y z : A)
        → Sound y
        → before y x ≡ false
        → before z y ≡ false
        → before z x ≡ false) where
    insert_sorted-Ordered :
        (x : A) (l : List A) → All Sound l → Ordered l → Ordered (insert_sorted x l)
    unfolding insert_sorted
    insert_sorted-Ordered x [] s o = (tt, tt)
    insert_sorted-Ordered x (y ∷ ys) s o = elim (Bool-cases (before y x)) [
      | inl e ↦ rw e (
        insert_sorted-All (λ z. before z y ≡ false) x ys (asymm y x e) o.0,
        insert_sorted-Ordered x ys s.1 o.1,
      )
      | inr e ↦ rw e (
        (
          e,
          All-imp (λ z. before z y ≡ false) (λ z. before z x ≡ false) ys
              (λ z h. trans x y z s.0 e h) o.0,
        ),
        o,
      )
    ]

    pub sort-Ordered : (l : List A) → All Sound l → Ordered (sort l)
    unfolding sort
    sort-Ordered [] s = tt
    sort-Ordered (x ∷ xs) s =
        insert_sorted-Ordered x (sort xs) (sort-All Sound xs s.1) (sort-Ordered xs s.1)

module _ {A : Type 0} (before : A → A → Bool) (irrefl : (x : A) → before x x ≡ false) where
  count_if_none : (p : A → Bool) (l : List A) → All (λ y. p y ≡ false) l → count_if p l ≡ 0
  count_if_none p [] h = refl
  count_if_none p (x ∷ xs) h = ground (arith, h.0, count_if_none p xs h.1)

  pub All-get_elem? :
      (P : A → Type 0) (l : List A) (i : ℕ) (m : A) → All P l → get_elem? l i ≡ some m → P m
  All-get_elem? P [] i m h e = cc
  All-get_elem? P (x ∷ xs) zero m h e = let same : x ≡ m = cc in rw (← same) h.0
  All-get_elem? P (x ∷ xs) (suc i) m h e = All-get_elem? P xs i m h.1 e

  -- At place `i` of an ordered list, at most `i` elements have to come before,
  pub count_if-before :
      (l : List A) (i : ℕ) (m : A)
      → Ordered before l
      → get_elem? l i ≡ some m
      → count_if (λ y. before y m) l ≤ i
  count_if-before [] i m o e = cc
  count_if-before (x ∷ xs) zero m o e =
      let same : x ≡ m = cc in
      subst (λ z. count_if (λ y. before y z) (x ∷ xs) ≤ 0) same
        (omega (arith, count_if_none (λ y. before y x) (x ∷ xs) (irrefl x, o.0)))
  count_if-before (x ∷ xs) (suc i) m o e = ground (arith, count_if-before xs i m o.1 e)

  -- and those that have to come after are among the rest.
  pub count_if-after :
      (l : List A) (i : ℕ) (m : A)
      → Ordered before l
      → get_elem? l i ≡ some m
      → count_if (λ y. before m y) l + i + 1 ≤ length l
  count_if-after [] i m o e = cc
  count_if-after (x ∷ xs) zero m o e =
      let same : x ≡ m = cc in
      subst (λ z. count_if (λ y. before z y) (x ∷ xs) + 0 + 1 ≤ length (x ∷ xs)) same
        (ground (arith, irrefl x, count_if-le (λ y. before x y) xs))
  count_if-after (x ∷ xs) (suc i) m o e =
      ground
        (arith, count_if-after xs i m o.1 e, All-get_elem? (λ y. before y x ≡ false) xs i m o.0 e)
