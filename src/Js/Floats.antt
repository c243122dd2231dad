-- ===== src/Js/Floats.antt =====
-- The double-precision numbers, which JavaScript implements. `Float` and its operations are a
-- parameter of the model; the laws are what IEEE 754 says of them, as far as the code needs it.
-- `ge_zero x` is the test `x >= 0`, true of positive infinity and false of NaN.
use oragami.Prelude.{ℕ, ◌<◌, ◌≡◌, ◌≢◌, Bool, true}
use oragami.Js.Number.{Number, nan}

-- The integers up to here are numbers: `Number.MAX_SAFE_INTEGER`.
abbrev pub max_safe_integer : ℕ
max_safe_integer = 9007199254740991

pub record Floats : Type 1 where
  pub Float : Type 0
  -- an integer literal, and `Number` of a `bigint`, which rounds
  pub of_nat : ℕ → Float
  pub add : Float → Float → Float
  pub mul : Float → Float → Float
  pub div : Float → Float → Float
  -- `Number.isFinite(x)`, `x > 0` and `x >= 0`
  pub is_finite : Float → Bool
  pub gt_zero : Float → Bool
  pub ge_zero : Float → Bool
  -- `x > y`
  pub gt : Float → Float → Bool
  pub math_round : Float → Number
  pub math_floor : Float → Number
  -- a safe integer is finite, and positive unless it is zero
  pub of_nat_is_finite : (n : ℕ) → n < max_safe_integer → is_finite (of_nat n) ≡ true
  pub of_nat_gt_zero : (n : ℕ) → 0 < n → n < max_safe_integer → gt_zero (of_nat n) ≡ true
  -- a quotient of two such is finite and does not vanish
  pub ratio_is_finite :
      (m n : ℕ)
      → m < max_safe_integer
      → 0 < n
      → n < max_safe_integer
      → is_finite (div (of_nat m) (of_nat n)) ≡ true
  pub ratio_gt_zero :
      (m n : ℕ)
      → 0 < m
      → m < max_safe_integer
      → 0 < n
      → n < max_safe_integer
      → gt_zero (div (of_nat m) (of_nat n)) ≡ true
  -- what is positive is not negative
  pub ge_zero_of_gt_zero : (x : Float) → gt_zero x ≡ true → ge_zero x ≡ true
  -- a quotient of finite positive numbers may vanish or overflow, and is not negative
  pub div_ge_zero :
      (x y : Float)
      → is_finite x ≡ true
      → gt_zero x ≡ true
      → is_finite y ≡ true
      → gt_zero y ≡ true
      → ge_zero (div x y) ≡ true
  -- a finite positive factor, on either side, keeps the sign
  pub mul_ge_zero :
      (x y : Float)
      → is_finite x ≡ true
      → gt_zero x ≡ true
      → ge_zero y ≡ true
      → ge_zero (mul x y) ≡ true
  pub mul_comm : (x y : Float) → mul x y ≡ mul y x
  pub add_ge_zero : (x y : Float) → ge_zero x ≡ true → ge_zero y ≡ true → ge_zero (add x y) ≡ true
  -- rounding makes no NaN
  pub round_ne_nan : (x : Float) → ge_zero x ≡ true → math_round x ≢ nan

-- A price as the feeds are to give it: finite and positive.
module _ (fl : Floats) where
  abbrev pub IsPrice : fl.Float → Type 0
  IsPrice x = (fl.is_finite x ≡ true) × (fl.gt_zero x ≡ true)
