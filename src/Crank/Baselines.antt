-- ===== src/Crank/Baselines.antt =====
-- The baselines of the NAV, against which later prices are measured.
use oragami.Prelude.{◌≡◌, refl, ◌∙◌, Option, some, List, [], ◌∷◌, ◌<|>◌, arith, ℕ}
use oragami.Js.Number.{Number}
use oragami.Js.Floats.{Floats}
use oragami.Crank.Nav.{set_baselines, compute_nav_bps}
use oragami.Crank.Service.{
  Backend, CrankEnv, Prices, vault_view, fetch_prices, tick_yield, publish, update_on_chain, decide,
  update_nav, run_nav_crank,
}
use oragami.Crank.ServiceLaws.{computed_nav, decided_on}
use oragami.Crank.Spacing.{run_all}

module _ (fl : Floats) where
  open fl use {Float}

  -- The two baselines.
  abbrev baselines : Backend Float → Option Float × Option Float
  baselines b = (b.memory.baseline_gold_price, b.memory.baseline_chf_usd)

  update_on_chain-baselines :
      (env : CrankEnv Float) (current alloc : ℕ) (nav : Number) (p : Prices Float)
      (b : Backend Float)
      → baselines (update_on_chain fl env current alloc nav p b).1 ≡ baselines b
  unfolding update_on_chain publish tick_yield
  update_on_chain-baselines env current alloc nav p b = ground arith

  decide-baselines :
      (env : CrankEnv Float) (nav : Number) (p : Prices Float) (b : Backend Float)
      → baselines (decide fl env nav p b).1 ≡ baselines b
  unfolding decide
  decide-baselines env nav p b = ground (
    arith,
    update_on_chain-baselines env (vault_view env.vault_before).0 (vault_view env.vault_before).1
        nav p b,
  )

  decided_on-baselines :
      (env : CrankEnv Float) (b : Backend Float)
      → let p = (fetch_prices fl env b).0 in
        baselines (decided_on fl env b)
        ≡ (b.memory.baseline_gold_price <|> p.gold_price, b.memory.baseline_chf_usd <|> p.chf_usd)
  unfolding fetch_prices compute_nav_bps set_baselines
  decided_on-baselines env b = refl

  -- A run sets a baseline that was not set to the price of the run, and keeps one that was.
  pub run_nav_crank-baselines :
      (env : CrankEnv Float) (b : Backend Float)
      → let p = (fetch_prices fl env b).0 in
        baselines (run_nav_crank fl env b)
        ≡ (b.memory.baseline_gold_price <|> p.gold_price, b.memory.baseline_chf_usd <|> p.chf_usd)
  unfolding run_nav_crank update_nav
  run_nav_crank-baselines env b =
      decide-baselines env (computed_nav fl env b) (fetch_prices fl env b).0 (decided_on fl env b)
      ∙ decided_on-baselines env b

  -- Once a gold and a CHF baseline are set, no sequence of runs changes them, whatever the feeds,
  -- the chain and the database answer.
  run_all-baselines :
      (envs : List (CrankEnv Float)) (b : Backend Float) (gold chf : Float)
      → baselines b ≡ (some gold, some chf)
      → baselines (run_all fl envs b) ≡ (some gold, some chf)
  unfolding run_all
  run_all-baselines [] b gold chf h = h
  run_all-baselines (env ∷ envs) b gold chf h =
      run_all-baselines envs (run_nav_crank fl env b) gold chf
        (run_nav_crank-baselines env b ∙ ground arith)
