-- ===== src/Js/Fractions.antt =====
-- Non-negative fractions as numbers, an instance of the interface that runs: `num / suc pre`.
-- A quotient by zero is 0 here, where the interface promises nothing.
use oragami.Prelude.{
  ℕ, suc, ◌+◌, ◌-◌, ◌*◌, ◌/◌, ◌<◌, ◌≡◌, ◌≢◌, refl, true, ltb, arith, if◌then◌else◌, ◌==◌, nat_eq,
}
use oragami.Prelude.Int.{pos}
use oragami.Js.Number.{Number, int}
use oragami.Js.Floats.{Floats}

pub record Fraction : Type 0 where
  pub num : ℕ
  pub pre : ℕ

abbrev pub fraction_add : Fraction → Fraction → Fraction
fraction_add x y = record {
  num = x.num * suc y.pre + y.num * suc x.pre;
  pre = suc x.pre * suc y.pre - 1;
}

abbrev pub fraction_mul : Fraction → Fraction → Fraction
fraction_mul x y = record { num = x.num * y.num; pre = suc x.pre * suc y.pre - 1 }

abbrev pub fraction_div : Fraction → Fraction → Fraction
fraction_div x y =
    if y.num == 0
    then record { num = 0; pre = 0 }
    else record { num = x.num * suc y.pre; pre = suc x.pre * y.num - 1 }

abbrev pub whole : ℕ → Fraction
whole n = record { num = n; pre = 0 }

pub pos_test : (n : ℕ) → 0 < n → ltb 0 n ≡ true
pos_test n h = ground arith

pub ratio_pos : (m n : ℕ) → 0 < m → 0 < n → ltb 0 (fraction_div (whole m) (whole n)).num ≡ true
ratio_pos m n h k = ground arith

pub mul_comm : (x y : Fraction) → fraction_mul x y ≡ fraction_mul y x
mul_comm x y = ground arith

-- half up, as `Math.round` does
abbrev pub fraction_round : Fraction → Number
fraction_round x = int (pos ((2 * x.num + suc x.pre) / (2 * suc x.pre)))

abbrev pub fraction_floor : Fraction → Number
fraction_floor x = int (pos (x.num / suc x.pre))

pub round_ne_nan : (x : Fraction) → fraction_round x ≢ Number.nan
round_ne_nan x h = cc

abbrev pub fractions : Floats
fractions = record {
  Float = Fraction;
  of_nat = whole;
  add = fraction_add;
  mul = fraction_mul;
  div = fraction_div;
  is_finite = λ x. true;
  gt_zero = λ x. ltb 0 x.num;
  ge_zero = λ x. true;
  gt = λ x y. ltb (y.num * suc x.pre) (x.num * suc y.pre);
  math_round = fraction_round;
  math_floor = fraction_floor;
  of_nat_is_finite = λ n h. refl;
  of_nat_gt_zero = λ n h k. pos_test n h;
  ratio_is_finite = λ m n a b c. refl;
  ratio_gt_zero = λ m n a b c d. ratio_pos m n a c;
  ge_zero_of_gt_zero = λ x h. refl;
  div_ge_zero = λ x y a b c d. refl;
  mul_ge_zero = λ x y a b c. refl;
  mul_comm = mul_comm;
  add_ge_zero = λ x y a b. refl;
  round_ne_nan = λ x h. round_ne_nan x;
}
