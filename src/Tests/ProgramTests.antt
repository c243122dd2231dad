-- ===== src/Tests/ProgramTests.antt =====
-- The theorems on the funds of the program for one vault: a deposit at 1:1, a donation and a
-- redemption.
use oragami.Prelude.{
  ℕ, ◌+◌, ◌-◌, ◌≤◌, ◌<◌, ◌*◌, ◌≡◌, ◌⊎◌, refl, inr, true, false, Option, none, some, leb,
  if◌then◌else◌, [], arith,
}
use oragami.Prelude.Options.{◌>>=◌}
use oragami.Program.Credential.{ComplianceCredential}
use oragami.Program.Vault.{VaultState, deposit, minted, travel_rule_gate, accepts_credential}
use oragami.Program.Market.{
  Market, TokenProgram, InitializeVaultParams, initialize_vault, take_deposit, redeem, usdc_for,
  minus,
}
use oragami.Program.MarketLaws.{redeem-take_deposit}
use oragami.Program.Yield.{process_yield, accrue, days_elapsed, daily_yield}
use oragami.Program.YieldLaws.{process_yield_composes}
use oragami.Program.Backing.{IsBacked, deposited, redeemed, donated, here, after, Reach-IsBacked}

abbrev pub burnt : ℕ → ℕ → ℕ → Option ℕ
burnt balance s a = if leb a balance then minus s a else none

pub burnt_lem :
    (balance s a : ℕ) → (burnt balance s a ≡ none) ⊎ ((burnt balance s a ≡ some (s - a)) × (a ≤ s))
burnt_lem balance s a = ground arith

pub minus_lem : (b a : ℕ) → (minus b a ≡ none) ⊎ ((minus b a ≡ some (b - a)) × (a ≤ b))
minus_lem b a = ground arith

abbrev pub tokens : TokenProgram
tokens = record {
  burn = burnt;
  mint_to = λ s a. some (s + a);
  transfer_in = λ b a. some (b + a);
  transfer_out = minus;
  burn_lem = burnt_lem;
  mint_lem = λ s a. inr refl;
  in_lem = λ b a. inr refl;
  out_lem = minus_lem;
}

abbrev params : InitializeVaultParams
params = record {
  min_deposit = 1;
  max_deposit = 900000000;
  usx_allocation_bps = 7000;
  apy_bps = 500;
  secondary_market_enabled = true;
}

abbrev bank : ComplianceCredential
bank = record {
  wallet = "bank";
  institution_name = [];
  jurisdiction = [];
  tier = 2;
  kyc_level = 1;
  aml_coverage = 80;
  attestation_hash = [];
  issued_at = 1000;
  expires_at = 9000;
  status = 1;
}

abbrev vault : ℕ → ℕ → VaultState
vault deposits supply = record {
  paused = false;
  min_deposit = 1;
  max_deposit = 900000000;
  nav_price_bps = 10000;
  total_deposits = deposits;
  total_supply = supply;
}

abbrev market : ℕ → ℕ → ℕ → Market
market deposits supply held = record {
  vault = vault deposits supply;
  pending_yield = 0;
  last_yield_claim = 500;
  usx_allocation_bps = 7000;
  apy_bps = 500;
  secondary_market_enabled = true;
  vault_tokens = held;
  cvault_supply = supply;
  trade_supply = 0;
}

started : initialize_vault 500 0 params ≡ some (market 0 0 0)
unfolding initialize_vault
started = refl

first_deposit :
    take_deposit tokens 2000 "bank" bank none 500000 (market 0 0 0)
    ≡ some (market 500000 500000 500000, none)
unfolding take_deposit deposit minted travel_rule_gate accepts_credential
first_deposit = refl

redemption :
    redeem tokens 500000 200000 (market 500000 500000 500007) ≡ some (market 300000 300000 300007)
unfolding redeem usdc_for
redemption = refl

Reach-IsBacked_example : IsBacked 0 (market 300000 300000 300007)
Reach-IsBacked_example =
    Reach-IsBacked tokens 500 0 params (market 0 0 0) (market 300000 300000 300007) started (
      after
        (after (after here (deposited 2000 "bank" bank none none 500000 first_deposit))
          (donated 7 refl))
        (redeemed 500000 200000 redemption))

taken : deposit 2000 "bank" bank none 500000 (vault 0 0) ≡ some (vault 500000 500000, none, 500000)
unfolding deposit minted travel_rule_gate accepts_credential
taken = refl

redeem-take_deposit_example :
    (cvault : ℕ) × (usdc : ℕ) × ((500000 ≡ 0 + cvault)
      × (usdc ≤ 500000)
      × (500000 * 10000 < usdc * 10000 + 10000 + 10000)
      × (((tokens.burn 500000 500000 cvault ≡ none) ⊎ (tokens.transfer_out 500000 usdc ≡ none))
          ⊎ ((u : Market) × ((redeem tokens 500000 cvault (market 500000 500000 500000) ≡ some u)
                × (u.vault_tokens ≡ 500000 - usdc)
                × (u.cvault_supply ≡ 0)
                × (u.vault.total_supply ≡ 0)))))
redeem-take_deposit_example =
    redeem-take_deposit tokens 2000 500000 500000 "bank" bank none none (market 0 0 0)
      (market 500000 500000 500000) first_deposit

process_yield_composes_example :
    (process_yield 200500 (market 1000000000 1000000000 1000000000) >>= process_yield 300500)
    ≡ process_yield 300500 (market 1000000000 1000000000 1000000000)
process_yield_composes_example =
    process_yield_composes 200500 300500 (market 1000000000 1000000000 1000000000) (omega arith)

-- 95 890 USDC units a day, for the 3 full days up to 300 500 s.
yield-of_three_days :
    process_yield 300500 (market 1000000000 1000000000 1000000000)
    ≡ some (record (market 1000000000 1000000000 1000000000) {
      pending_yield = 287670;
      last_yield_claim = 259700;
    })
unfolding process_yield accrue days_elapsed daily_yield
yield-of_three_days = refl
