-- ===== src/Base/Action.antt =====
-- An action on a state: what was written stays written when a later step fails.
pub mod Frames
pub mod Success
use mathlib.Core.Bool.{Bool, true, false}
use mathlib.Core.Path.{◌≡◌, refl}
use Prim.Native.Nat.{ℕ}
use rustls_bench_app.Base.Result.{Result, ok, err, panic, Error}

abbrev pub Action : Type 0 → Type 0 → Type 0
Action S A = S → Result A × S

module _ {S : Type 0} {A : Type 0} where
  abbrev pub pure : A → Action S A
  pure a s = (ok a, s)

  abbrev pub fail : Error → Action S A
  fail e s = (err e, s)

  abbrev pub lift : Result A → Action S A
  lift r s = (r, s)

  abbrev pub gets : (S → A) → Action S A
  gets f s = (ok (f s), s)

abbrev pub modify : {S : Type 0} → (S → S) → Action S (Unit {0})
modify f s = (ok tt, f s)

infixl 5 ◌>>=◌ ◌>>◌
abbrev pub ◌>>=◌ : {S A B : Type 0} → Action S A → (A → Action S B) → Action S B
◌>>=◌ m f s = let (r, t) = m s in elim r [ ok a ↦ f a t | err e ↦ (err e, t) | panic ↦ (panic, t) ]

abbrev pub ◌>>◌ : {S A B : Type 0} → Action S A → Action S B → Action S B
m >> k = m >>= λ _. k

-- The outcome as a value, where the caller looks at an error; a panic goes on.
abbrev pub attempt : {S A : Type 0} → Action S A → Action S (Result A)
attempt m s =
    let (r, t) = m s in
    elim r [ ok a ↦ (ok (ok a), t) | err e ↦ (ok (err e), t) | panic ↦ (panic, t) ]

-- The outcome of a task of its own: a panic there is an error here.
abbrev pub join : {S A : Type 0} → Error → Action S A → Action S (Result A)
join crashed m s =
    let (r, t) = m s in
    elim r [ ok a ↦ (ok (ok a), t) | err e ↦ (ok (err e), t) | panic ↦ (err crashed, t) ]
