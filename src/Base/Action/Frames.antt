-- ===== src/Base/Action/Frames.antt =====
-- What an action leaves alone, as a part of the state that it does not change.
use mathlib.Core.Path.{◌≡◌, refl, ◌∙◌}
use mathlib.Core.Logic.{inl, inr}
use rustls_bench_app.Base.Result.{Result, Error, Result-cases}
use rustls_bench_app.Base.Action.{Action, attempt, join, ◌>>=◌, ◌>>◌}

module _ {S X : Type 0} (part : S → X) where
  pub record Frame {A : Type 0} (m : Action S A) : Type 0 where
    pub same : (s : S) → part (m s).1 ≡ part s

  module _ {A B : Type 0} where
    pub Frame->>= :
        (m : Action S A) (k : A → Action S B) → Frame m → ((a : A) → Frame (k a)) → Frame (m >>= k)
    Frame->>= m k first rest = record {
      same = λ s. elim (Result-cases (m s).0) [
        | inl (a, e) ↦ rw (e, ◌>>=◌) ((rest a).same (m s).1 ∙ first.same s)
        | inr (inl (x, e)) ↦ rw (e, ◌>>=◌) (first.same s)
        | inr (inr e) ↦ rw (e, ◌>>=◌) (first.same s)
      ];
    }

    pub Frame->> : (m : Action S A) (k : Action S B) → Frame m → Frame k → Frame (m >> k)
    Frame->> m k first rest = Frame->>= m (λ _. k) first (λ _. rest)

  module _ {A : Type 0} where
    pub Frame-attempt : (m : Action S A) → Frame m → Frame (attempt m)
    Frame-attempt m h = record {
      same = λ s. elim (Result-cases (m s).0) [
        | inl (a, e) ↦ rw (e, attempt) (h.same s)
        | inr (inl (x, e)) ↦ rw (e, attempt) (h.same s)
        | inr (inr e) ↦ rw (e, attempt) (h.same s)
      ];
    }

    pub Frame-join : (crashed : Error) (m : Action S A) → Frame m → Frame (join crashed m)
    Frame-join crashed m h = record {
      same = λ s. elim (Result-cases (m s).0) [
        | inl (a, e) ↦ rw (e, join) (h.same s)
        | inr (inl (x, e)) ↦ rw (e, join) (h.same s)
        | inr (inr e) ↦ rw (e, join) (h.same s)
      ];
    }

    -- A step that only reads.
    pub Frame-reads : (f : S → Result A) → Frame (λ s. (f s, s))
    Frame-reads f = record { same = λ s. refl }
