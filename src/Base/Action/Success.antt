-- ===== src/Base/Action/Success.antt =====
-- What a sequence of actions that went through says of its parts.
use mathlib.Core.Path.{◌≡◌, refl}
use mathlib.Core.Logic.{inl, inr}
use rustls_bench_app.Base.Result.{ok, Result-cases}
use rustls_bench_app.Base.Action.{Action, ◌>>=◌}

module _ {S A B : Type 0} where
  pub >>=-ok :
      (m : Action S A) (k : A → Action S B) (s : S) (b : B)
      → ((m >>= k) s).0 ≡ ok b
      → (a : A) × ((m s).0 ≡ ok a) × ((m >>= k) s ≡ k a (m s).1)
  >>=-ok m k s b h = elim (Result-cases (m s).0) [
    | inl (a, e) ↦ (a, e, rw (e, ◌>>=◌) refl)
    | inr (inl (x, e)) ↦ absurd (cc (rw (◌>>=◌, e) at h))
    | inr (inr e) ↦ absurd (cc (rw (◌>>=◌, e) at h))
  ]
