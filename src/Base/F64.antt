-- ===== src/Base/F64.antt =====
-- `f64` as its IEEE 754 bit pattern (a number below 2 ^ 64). The order, `abs` and `max` are written
-- out on the patterns; the rounding operations are a parameter, `Arith`.
use Prim.Native.Nat.{ℕ, ◌+◌, ◌-◌, ◌%◌, ◌^◌}
use mathlib.Core.Path.{◌≡◌}
use mathlib.Core.Bool.{Bool, true, false, ◌&&◌, not}
use mathlib.Core.Option.{Option}
use mathlib.Core.List.{List}
use native.Mathlib.Omega.{arith}
use rustls_bench_app.Base.Tests.{ltb, leb, if◌then◌else◌}
use rustls_bench_app.Base.Text.{Text}

abbrev pub F64 : Type 0
F64 = ℕ

-- The pattern without its sign bit.
unfoldable pub abs : F64 → F64
abs x = x % 2 ^ 63

unfoldable pub is_nan : F64 → Bool
unfolding abs
is_nan x = ltb 0x7ff0000000000000 (abs x)

-- The place of a number that is no NaN in the order; both zeros have the same.
unfoldable pub rank : F64 → ℕ
unfolding abs
rank x = if leb (2 ^ 63) x then 2 ^ 63 - abs x else 2 ^ 63 + abs x

-- `x < y`: false where either is NaN.
unfoldable pub lt : F64 → F64 → Bool
unfolding is_nan rank
lt x y = not (is_nan x) && not (is_nan y) && ltb (rank x) (rank y)

-- `f64::max`: the other argument where one is NaN.
unfoldable pub max : F64 → F64 → F64
unfolding is_nan lt
max x y = if is_nan x then y else if lt x y then y else x

pub lt_irrefl : (x : F64) → lt x x ≡ false
unfolding lt
lt_irrefl x = ground arith

pub lt_trans : (x y z : F64) → lt x y ≡ true → lt y z ≡ true → lt x z ≡ true
unfolding lt
lt_trans x y z h k = ground arith

-- On numbers, `not (y < x)` is a total order up to the two zeros.
pub not_lt_trans :
    (x y z : F64) → is_nan y ≡ false → lt y x ≡ false → lt z y ≡ false → lt z x ≡ false
unfolding lt
not_lt_trans x y z n h k = ground arith

pub lt_asymm : (x y : F64) → lt x y ≡ true → lt y x ≡ false
unfolding lt
lt_asymm x y h = ground arith

pub lt_nan_left : (x y : F64) → is_nan x ≡ true → lt x y ≡ false
unfolding lt
lt_nan_left x y h = ground arith

-- `max` is no less than a second argument that is a number.
pub max_ge_right : (x y : F64) → lt (max x y) y ≡ false
unfolding max lt
max_ge_right x y = ground arith

pub max_ge_left : (x y : F64) → lt (max x y) x ≡ false
unfolding max lt
max_ge_left x y = ground arith

pub is_nan-max : (x y : F64) → is_nan y ≡ false → is_nan (max x y) ≡ false
unfolding max
is_nan-max x y h = ground arith

-- What the program takes from the language's floating point: the operations that round, casts
-- from unsigned integers, and `str::parse::<f64>`.
pub record Arith : Type 0 where
  pub sub : F64 → F64 → F64
  pub div : F64 → F64 → F64
  pub add : F64 → F64 → F64
  pub mul : F64 → F64 → F64
  pub of_uint : ℕ → F64
  pub parse : Text → Option F64
  -- What a sort of the standard library by `partial_cmp(..).unwrap_or(Equal)` makes of numbers among
  -- which one is NaN, so that this is no total order: some list, or a panic.
  pub sort_unordered : List F64 → Option (List F64)
