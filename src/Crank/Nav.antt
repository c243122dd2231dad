-- ===== src/Crank/Nav.antt =====
-- oragami-backend/src/crank/nav-crank.service.ts: the memory of the service and `computeNavBps`.
use oragami.Prelude.{ℕ, Option, none, some, if◌then◌else◌, ◌<|>◌}
use oragami.Js.Number.{Number, math_min, math_max}
use oragami.Js.Floats.{Floats}

-- The private fields of `NavCrankService`.
pub record CrankMemory (F : Type 0) : Type 0 where
  pub last_gold_price : Option F
  pub last_chf_usd : Option F
  pub baseline_gold_price : Option F
  pub baseline_chf_usd : Option F
  pub last_on_chain_update_ms : ℕ

abbrev pub new_memory : {F : Type 0} → CrankMemory F
new_memory = record {
  last_gold_price = none;
  last_chf_usd = none;
  baseline_gold_price = none;
  baseline_chf_usd = none;
  last_on_chain_update_ms = 0;
}

abbrev pub weight_gold_bps : ℕ
weight_gold_bps = 5000

abbrev pub weight_chf_bps : ℕ
weight_chf_bps = 3000

abbrev pub weight_usx_bps : ℕ
weight_usx_bps = 2000

module _ (fl : Floats) where
  open fl use {Float, of_nat, add, mul, div, gt_zero, math_round}

  -- The price against its baseline, 1 where one of them is missing.
  unfoldable pub factor : Option Float → Option Float → Float
  factor (some p) (some b) = if gt_zero b then div p b else of_nat 1
  factor _ _ = of_nat 1

  -- `(w / 10_000) * x`
  abbrev pub weighted : ℕ → Float → Float
  weighted w x = mul (div (of_nat w) (of_nat 10000)) x

  abbrev pub nav_float : Float → Float → Float → Float
  nav_float gold chf eusx =
      add (add (weighted weight_gold_bps gold) (weighted weight_chf_bps chf))
        (weighted weight_usx_bps eusx)

  -- The first price that is seen becomes the baseline.
  unfoldable pub set_baselines : Option Float → Option Float → CrankMemory Float → CrankMemory Float
  set_baselines gold chf m = record m {
    baseline_gold_price = m.baseline_gold_price <|> gold;
    baseline_chf_usd = m.baseline_chf_usd <|> chf;
  }

  unfoldable pub compute_nav_bps :
      Option Float → Option Float → Float → CrankMemory Float → Number × CrankMemory Float
  compute_nav_bps gold chf eusx m =
      let m' = set_baselines gold chf m in
      let x =
        nav_float (factor gold m'.baseline_gold_price) (factor chf m'.baseline_chf_usd) eusx in
      (math_max 5000 (math_min 20000 (math_round (mul x (of_nat 10000)))), m')
