-- ===== src/Base/Bag.antt =====
-- Lists without their order: the items, each as often as it is there.
use mathlib.Core.List.{List}
use mathlib.Core.Quot.{Quot}
use rustls_bench_app.Base.Sort.{SameItems}

abbrev pub Bag : Type 0 → Type 0
Bag A = Quot (SameItems {A = A})

abbrev pub bag : {A : Type 0} → List A → Bag A
bag l = Quot.mk l
