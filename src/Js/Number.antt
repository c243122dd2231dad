-- ===== src/Js/Number.antt =====
-- A `number` after `Math.round` or `Math.floor`: an integer, or one of the three values that
-- rounding leaves alone. The functions take the numeral that the source compares with first.
use oragami.Prelude.{
  ℕ, ◌≤◌, ◌≢◌, refl, Bool, true, false, Option, none, some, ltb, if◌then◌else◌, arith,
}
use oragami.Prelude.Int.{ℤ, pos, negsuc, leb_ℤ, dist}

pub data Number : Type 0 where
  nan neg_inf pos_inf : Number
  int : ℤ → Number

-- `Math.min(c, x)`
abbrev pub math_min : ℕ → Number → Number
math_min c nan = nan
math_min c neg_inf = neg_inf
math_min c pos_inf = int (pos c)
math_min c (int z) = int (if leb_ℤ z (pos c) then z else pos c)

-- `Math.max(c, x)`
abbrev pub math_max : ℕ → Number → Number
math_max c nan = nan
math_max c neg_inf = int (pos c)
math_max c pos_inf = pos_inf
math_max c (int z) = int (if leb_ℤ (pos c) z then z else pos c)

-- `Math.abs(x - n) > c`; a comparison with NaN is false.
abbrev pub differs_by_more : ℕ → Number → ℕ → Bool
differs_by_more c nan n = false
differs_by_more c neg_inf n = true
differs_by_more c pos_inf n = true
differs_by_more c (int z) n = ltb c (dist z n)

-- `BigInt(x)` of such a number: a RangeError on NaN and the infinities.
abbrev pub to_bigint : Number → Option ℤ
to_bigint (int z) = some z
to_bigint x = none

-- `x` is an integer between `lo` and `hi`.
abbrev pub IsBetween : ℕ → ℕ → Number → Type 0
IsBetween lo hi (int (pos n)) = (lo ≤ n) × (n ≤ hi)
IsBetween lo hi x = ⊥

pub clamp_bounds :
    (lo hi : ℕ) (x : Number) → lo ≤ hi → x ≢ nan → IsBetween lo hi (math_max lo (math_min hi x))
clamp_bounds lo hi nan h k = absurd (k refl)
clamp_bounds lo hi neg_inf h k = ground arith
clamp_bounds lo hi pos_inf h k = ground arith
clamp_bounds lo hi (int (pos n)) h k = ground arith
clamp_bounds lo hi (int (negsuc n)) h k = ground arith
