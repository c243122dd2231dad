-- ===== src/Crank/NavLaws.antt =====
-- The NAV that `computeNavBps` gives is a number of basis points within its limits.
use oragami.Prelude.{ℕ, ◌<◌, ◌≡◌, Option, none, some, true, arith}
use oragami.Js.Number.{IsBetween, clamp_bounds}
use oragami.Js.Floats.{Floats, IsPrice}
use oragami.Crank.PriceLaws.{OnlyPrice, or_else-OnlyPrice}
use oragami.Crank.Nav.{CrankMemory, factor, weighted, nav_float, set_baselines, compute_nav_bps}

module _ (fl : Floats) where
  open fl use {Float, of_nat, add, mul, div, ge_zero, gt_zero, math_round}

  -- Every price that the service remembers is finite and positive.
  pub record MemoryIsValid (m : CrankMemory Float) : Type 0 where
    pub last_gold : OnlyPrice fl m.last_gold_price
    pub last_chf : OnlyPrice fl m.last_chf_usd
    pub baseline_gold : OnlyPrice fl m.baseline_gold_price
    pub baseline_chf : OnlyPrice fl m.baseline_chf_usd

  of_nat_ge_zero : (n : ℕ) → 0 < n → n < 9007199254740991 → ge_zero (of_nat n) ≡ true
  of_nat_ge_zero n h k = fl.ge_zero_of_gt_zero _ (fl.of_nat_gt_zero n h k)

  factor_ge_zero :
      (p b : Option Float) → OnlyPrice fl p → OnlyPrice fl b → ge_zero (factor fl p b) ≡ true
  unfolding factor
  factor_ge_zero none b h k = of_nat_ge_zero 1 (omega arith) (omega arith)
  factor_ge_zero (some p) none h k = of_nat_ge_zero 1 (omega arith) (omega arith)
  factor_ge_zero (some p) (some b) h k = rw k.1 (fl.div_ge_zero p b h.0 h.1 k.0 k.1)

  weighted_ge_zero :
      (w : ℕ) (x : Float)
      → 0 < w
      → w < 9007199254740991
      → ge_zero x ≡ true
      → ge_zero (weighted fl w x) ≡ true
  weighted_ge_zero w x h k g =
      fl.mul_ge_zero (div (of_nat w) (of_nat 10000)) x
        (fl.ratio_is_finite w 10000 k (omega arith) (omega arith))
        (fl.ratio_gt_zero w 10000 h k (omega arith) (omega arith)) g

  nav_ge_zero :
      (gold chf eusx : Float)
      → ge_zero gold ≡ true
      → ge_zero chf ≡ true
      → ge_zero eusx ≡ true
      → ge_zero (mul (nav_float fl gold chf eusx) (of_nat 10000)) ≡ true
  nav_ge_zero gold chf eusx g c e = rw (fl.mul_comm (nav_float fl gold chf eusx) (of_nat 10000)) (
      fl.mul_ge_zero (of_nat 10000) (nav_float fl gold chf eusx)
        (fl.of_nat_is_finite 10000 (omega arith))
        (fl.of_nat_gt_zero 10000 (omega arith) (omega arith))
        (fl.add_ge_zero _ _
          (fl.add_ge_zero _ _ (weighted_ge_zero 5000 gold (omega arith) (omega arith) g)
            (weighted_ge_zero 3000 chf (omega arith) (omega arith) c))
          (weighted_ge_zero 2000 eusx (omega arith) (omega arith) e)))

  pub set_baselines-MemoryIsValid :
      (gold chf : Option Float) (m : CrankMemory Float)
      → OnlyPrice fl gold
      → OnlyPrice fl chf
      → MemoryIsValid m
      → MemoryIsValid (set_baselines fl gold chf m)
  unfolding set_baselines
  set_baselines-MemoryIsValid gold chf m g c v = record {
    last_gold = v.last_gold;
    last_chf = v.last_chf;
    baseline_gold = or_else-OnlyPrice fl m.baseline_gold_price gold v.baseline_gold g;
    baseline_chf = or_else-OnlyPrice fl m.baseline_chf_usd chf v.baseline_chf c;
  }

  -- From prices that are finite and positive, missing ones allowed, the NAV is an integer from
  -- 5 000 to 20 000 basis points, never NaN, whatever the quotients and sums round to; and the
  -- baselines that are kept are finite and positive.
  pub compute_nav_bps-IsBetween :
      (gold chf : Option Float) (eusx : Float) (m : CrankMemory Float)
      → OnlyPrice fl gold
      → OnlyPrice fl chf
      → IsPrice fl eusx
      → MemoryIsValid m
      → IsBetween 5000 20000 (compute_nav_bps fl gold chf eusx m).0
        × MemoryIsValid (compute_nav_bps fl gold chf eusx m).1
  unfolding compute_nav_bps
  compute_nav_bps-IsBetween gold chf eusx m g c e v =
      let v' : MemoryIsValid (set_baselines fl gold chf m) =
        set_baselines-MemoryIsValid gold chf m g c v in
      (
        clamp_bounds 5000 20000 _ (omega arith) (
            fl.round_ne_nan _ (
              nav_ge_zero _ _ eusx (factor_ge_zero gold _ g v'.baseline_gold)
                (factor_ge_zero chf _ c v'.baseline_chf) (fl.ge_zero_of_gt_zero eusx e.1))),
        v',
      )
