-- ===== src/Db/Events/Order.antt =====
-- What `next_queued_event` returns: the oldest of the queued events.
use rustls_bench_app.Base.{
  ℕ, ◌≤◌, ◌≡◌, ◌≢◌, true, none, some, List, [], ◌∷◌, All, All-imp, is_some, arith, Option-cases,
  inl, inr,
}
use rustls_bench_app.Base.Table
use rustls_bench_app.Db.Schema.{QueuedEvent, event_key}
use rustls_bench_app.Db.Events.{earliest}

pub earliest-find :
    (q : List QueuedEvent) (e : QueuedEvent)
    → earliest q ≡ some e
    → is_some (Table.find event_key e.id q) ≡ true
unfolding earliest Table.find
earliest-find [] e h = cc
earliest-find (x ∷ xs) e h = ground (arith, earliest-find xs e)

pub earliest-find_row :
    (q : List QueuedEvent) (e : QueuedEvent)
    → Table.Unique event_key q
    → earliest q ≡ some e
    → Table.find event_key e.id q ≡ some e
unfolding earliest Table.find
earliest-find_row [] e u h = cc
earliest-find_row (x ∷ xs) e u h = ground (arith, earliest-find_row xs e u.1)

abbrev pub NotBefore : ℕ → QueuedEvent → Type 0
NotBefore t e = t ≤ e.created_utc

pub earliest-cons : (x : QueuedEvent) (xs : List QueuedEvent) → earliest (x ∷ xs) ≢ none
unfolding earliest
earliest-cons x xs = ground arith

All-NotBefore : (s t : ℕ) (q : List QueuedEvent) → s ≤ t → All (NotBefore t) q → All (NotBefore s) q
All-NotBefore s t q h =
    All-imp (NotBefore t) (NotBefore s) q (λ e (k : t ≤ e.created_utc). omega arith)

earliest-le_bound :
    (x e m : QueuedEvent) (xs : List QueuedEvent)
    → earliest xs ≡ some m
    → earliest (x ∷ xs) ≡ some e
    → (e.created_utc ≤ x.created_utc) × (e.created_utc ≤ m.created_utc)
unfolding earliest
earliest-le_bound x e m xs found h = ground arith

-- No queued event is older than the one that is next.
pub earliest-le :
    (q : List QueuedEvent) (e : QueuedEvent) → earliest q ≡ some e → All (NotBefore e.created_utc) q
earliest-le [] e h = tt
earliest-le (x ∷ []) e h = (earliest_one x e h, tt)
  where
    earliest_one : (x e : QueuedEvent) → earliest (x ∷ []) ≡ some e → NotBefore e.created_utc x
    earliest_one x e h = unfold earliest in ground arith
earliest-le (x ∷ y ∷ ys) e h = elim (Option-cases (earliest (y ∷ ys))) [
  | inl empty ↦ absurd (earliest-cons y ys empty)
  | inr (m, found) ↦
      let bound = earliest-le_bound x e m (y ∷ ys) found h in
      (
        bound.0,
        All-NotBefore e.created_utc m.created_utc (y ∷ ys) bound.1 (earliest-le (y ∷ ys) m found),
      )
]
