-- ===== src/Base/Result.antt =====
-- What a fallible function of the program returns: a value, an `anyhow::Error` by the place that
-- raises it, or a panic; and its `?`.
use mathlib.Core.Path.{◌≡◌, refl}
use mathlib.Core.Logic.{◌≢◌, ◌⊎◌, inl, inr}
use mathlib.Core.Option.{Option, none, some}

pub data Error : Type 0 where
  -- from the database
  unique_constraint row_not_found job_not_found invalid_scenario_kind invalid_json_in_db : Error
  -- from the result files
  file_not_found wrong_csv invalid_number no_measurements wrong_measurement_count : Error
  -- from commands
  spawn_failed timed_out : Error
  exit_status : Error
  -- from the start of the program
  config_unreadable config_invalid dsn_invalid runtime_failed connect_failed migration_failed :
      Error
  -- from the file system and the GitHub API
  io_failed api_failed no_comment_registered no_branch_details invalid_payload task_crashed : Error

pub data Result {ℓ} (A : Type ℓ) : Type ℓ where
  ok : A → Result A
  err : Error → Result A
  panic : Result A

infixl 5 ◌>>=◌ ◌>>◌
abbrev pub ◌>>=◌ {ℓ κ} : {A : Type ℓ} {B : Type κ} → Result A → (A → Result B) → Result B
ok a >>= f = f a
err e >>= f = err e
panic >>= f = panic

abbrev pub ◌>>◌ {ℓ} : {B : Type ℓ} → Result (Unit {0}) → Result B → Result B
m >> k = m >>= λ _. k

abbrev pub ok_or {ℓ} : {A : Type ℓ} → Option A → Error → Result A
ok_or (some a) e = ok a
ok_or none e = err e

-- `unwrap`, and indexing: a panic where there is nothing.
abbrev pub unwrap {ℓ} : {A : Type ℓ} → Option A → Result A
unwrap (some a) = ok a
unwrap none = panic

pub >>=-ne-panic {ℓ κ} :
    {A : Type ℓ} {B : Type κ} (r : Result A) (f : A → Result B)
    → r ≢ panic
    → ((a : A) → f a ≢ panic)
    → (r >>= f) ≢ panic
>>=-ne-panic (ok a) f h k = k a
>>=-ne-panic (err e) f h k = λ p. cc
>>=-ne-panic panic f h k = λ p. h refl

-- What a chain that ends well passed through.
pub >>=-ok {ℓ κ} :
    {A : Type ℓ} {B : Type κ} (r : Result A) (f : A → Result B) (b : B)
    → (r >>= f) ≡ ok b
    → (a : A) × (r ≡ ok a) × (f a ≡ ok b)
>>=-ok (ok a) f b h = (a, refl, h)
>>=-ok (err e) f b h = cc
>>=-ok panic f b h = cc

pub ok_or-ne-panic {ℓ} : {A : Type ℓ} (o : Option A) (e : Error) → ok_or o e ≢ panic
ok_or-ne-panic none e = λ p. cc
ok_or-ne-panic (some a) e = λ p. cc

pub Result-cases {ℓ} :
    {A : Type ℓ} (r : Result A) → ((a : A) × (r ≡ ok a)) ⊎ ((e : Error) × (r ≡ err e)) ⊎ (r ≡ panic)
Result-cases (ok a) = inl (a, refl)
Result-cases (err e) = inr (inl (e, refl))
Result-cases panic = inr (inr refl)
