-- ===== src/Tests/AssetTests.antt =====
-- The theorems on the asset vaults, for a vault of gold with one depositor.
use oragami.Prelude.{
  ℕ, ◌+◌, ◌*◌, ◌≡◌, ◌⊎◌, refl, String, Bool, true, false, none, some, List, [], ◌∷◌, string_eq,
  nat_eq, arith, ◌≤◌, ◌<◌, length,
}
use oragami.Prelude.Int.{pos}
use oragami.Prelude.Results.{ok}
use oragami.Encoding.Codes.{codes}
use oragami.Program.Credential.{ComplianceCredential}
use oragami.MultiAsset.Service.{
  AssetChain, RawCredential, VerifiedAsset, not_on_chain, verified, verify_credential,
  preflight_deposit,
}
use oragami.AssetVault.Attempt.{
  VaultError, done, fails, constraint, insufficient_vault_funds, token_refused,
}
use oragami.AssetVault.State.{AssetMarket, AssetVault, CredentialInfo}
use oragami.AssetVault.Factory.{
  RegisterParams, new_market, empty_world, initialize_factory, register_asset, set_nav,
}
use oragami.AssetVault.Funds.{deposit, redeem, transfer_shares, ShareAccount}
use oragami.AssetVault.Refusals.{genuine}
use oragami.AssetVault.Registry.{IsOrderly, Command, initializes, registers, prices, run}
use oragami.AssetVault.FactoryLaws.{run-IsOrderly}
use oragami.AssetVault.FundsLaws.{redeem-deposit}
use oragami.AssetVault.Solvency.{Reach, deposited, here, after, redeem_solvent}
use oragami.AssetVault.Forecast.{raw_vault, Forecasts, preflight-deposit}
use oragami.AssetVault.Transfers.{Moves, IsCredentialed, transfer_shares-IsCredentialed}
use oragami.Tests.ProgramTests.{tokens}

-- An address is the program's here.
abbrev derive : String → String → String
derive wallet program = program

abbrev pub bank : ComplianceCredential
bank = record {
  wallet = "bank";
  institution_name = [];
  jurisdiction = [];
  tier = 2;
  kyc_level = 1;
  aml_coverage = 80;
  attestation_hash = [];
  issued_at = 1;
  expires_at = 9000;
  status = 1;
}

abbrev pub gold : RegisterParams
gold = record {
  asset_mint = "XAU";
  share_mint = "VAULT-XAU";
  vault_token_account = "held";
  ticker = [];
  nav_price_bps = 12000;
  min_deposit = 1;
  max_deposit = 900000;
  travel_rule_required = false;
}

abbrev market_of : ℕ → ℕ → AssetMarket
market_of held shares = record {
  vault = record (new_market gold).vault { total_deposits = held; total_supply = shares };
  vault_tokens = held;
  share_supply = shares;
}

abbrev info : CredentialInfo
info = genuine derive "bank" bank

first_deposit :
    deposit tokens derive 5 "bank" info none 1200 (new_market gold)
    ≡ done (market_of 1200 1000, none, 1000)
unfolding deposit
first_deposit = refl

one_deposit : Reach tokens (new_market gold) (market_of 1200 1000)
one_deposit = after here (deposited derive 5 "bank" info none none 1200 1000 first_deposit)

not_owned : redeem tokens 0 1000 (market_of 1200 1000) ≡ fails token_refused
unfolding redeem
not_owned = refl

redeem_solvent_example : ◌≡◌ {A = VaultError} token_refused token_refused
redeem_solvent_example =
    redeem_solvent tokens gold (market_of 1200 1000) 0 1000 token_refused one_deposit (omega arith)
      (omega arith) (omega arith) not_owned

paid : redeem tokens 1000 1000 (market_of 1200 1000) ≡ done (market_of 0 0, 1200)
unfolding redeem
paid = refl

-- After a NAV that is half as high again, the same shares cannot be paid.
raised :
    redeem tokens 1000 1000 (record (market_of 1200 1000) {
      vault = record (market_of 1200 1000).vault { nav_price_bps = 18000 };
    })
    ≡ fails insufficient_vault_funds
unfolding redeem
raised = refl

redeem-deposit_example :
    (redeem tokens 1000 1000 (market_of 1200 1000) ≡ fails token_refused)
    ⊎ ((u : AssetMarket) × (assets : ℕ) × ((redeem tokens 1000 1000 (market_of 1200 1000)
            ≡ done (u, assets))
          × (assets ≤ 1200)
          × (1200 * 10000 < assets * 10000 + 10000 + 12000)
          × (u.share_supply ≡ 0)
          × (u.vault.total_supply ≡ 0)))
redeem-deposit_example =
    redeem-deposit tokens derive 5 "bank" info none none 1200 1000 (new_market gold)
      (market_of 1200 1000) 1000 first_deposit

abbrev chain : ℕ → AssetChain
chain amount = record {
  texts = codes;
  is_public_key = λ text. true;
  credential_pda = λ wallet. "pda";
  factory_pda = "factory";
  nav_to_display = λ nav. "$1.2000";
  pad_end = λ text. text;
  big_int = λ text. some (pos amount);
  date_time = λ text. none;
  fetch_factory = none;
  fetch_vault = λ mint. some (raw_vault (new_market gold).vault);
  fetch_credential = λ wallet. none;
  set_nav_tx = λ mint nav. none;
  issue_tx = λ wallet arguments. none;
  token_account = λ wallet mint. none;
  mint_tx = λ mint account amount. none;
}

-- Nothing is found of the credential, as under the address that the backend derives.
abbrev not_found : VerifiedAsset
not_found = record {
  wallet = "bank";
  credential_pda = "pda";
  status = not_on_chain;
  can_deposit = false;
  details = none;
}

found_nothing : verify_credential (chain 1200) 5000 "bank" ≡ ok not_found
unfolding verify_credential
found_nothing = refl

preflight-deposit_example :
    Forecasts not_found 1000
      (new_market gold).vault
      (preflight_deposit (chain 1200) 5000 "bank" "XAU" "1200")
preflight-deposit_example =
    preflight-deposit (chain 1200) 1200 (new_market gold).vault 5000 "bank" "XAU" "1200" not_found
      refl refl found_nothing refl tokens derive 5 "bank" info none none (new_market gold)
      (market_of 1200 1000) 1000 refl first_deposit

-- The backend finds an active credential.
abbrev seen : RawCredential
seen = record {
  status = some 1;
  tier = some 2;
  kyc_level = some 1;
  aml_coverage = some 80;
  jurisdiction = none;
  issued_at = some 1;
  expires_at = some 9000;
}

abbrev seeing : AssetChain
seeing = record (chain 1) { fetch_credential = λ wallet. some seen }

abbrev found : VerifiedAsset
found = verified seeing 5 "bank" seen

-- A deposit into a vault that requires the travel rule is taken, where the preflight says paused.
abbrev ruled : AssetVault
ruled = record (new_market gold).vault { travel_rule_required = true }

ruled_deposit :
    deposit tokens derive 5 "bank" info none 1200 (record (new_market gold) { vault = ruled })
    ≡ done (
      record (market_of 1200 1000) {
        vault = record (market_of 1200 1000).vault { travel_rule_required = true };
      },
      none,
      1000,
    )
unfolding deposit
ruled_deposit = refl

-- The address that the dialog of the web client passes, under the program of the asset vaults.
from_dialog :
    deposit tokens derive 5 "bank"
      (record info { key = derive "bank" "6Mbzwuw8JdmmQ3uZGw2CepiRLRWo2DgCga5LUhmsha7D" })
      none
      1200
      (new_market gold)
    ≡ fails constraint
unfolding deposit
from_dialog = refl

abbrev commands : List Command
commands =
    initializes "operator" 10
    ∷ registers "stranger" gold
    ∷ registers "operator" gold
    ∷ registers "operator" gold
    ∷ prices "operator" "XAU" 11000
    ∷ []

run-IsOrderly_example : IsOrderly (run commands empty_world)
run-IsOrderly_example = run-IsOrderly commands

one_vault : length (run commands empty_world).markets ≡ 1
unfolding run initialize_factory register_asset set_nav
one_vault = refl

abbrev shares_of : String → ℕ → ShareAccount
shares_of owner balance = record {
  key = owner;
  mint = "VAULT-XAU";
  owner = owner;
  balance = balance;
}

abbrev desk : CredentialInfo
desk = genuine derive "desk" (record bank { wallet = "desk" })

handed_on :
    transfer_shares tokens derive 5 "bank" info desk 300
      (new_market gold).vault
      (shares_of "bank" 1000)
      (shares_of "desk" 0)
    ≡ done (shares_of "bank" 700, shares_of "desk" 300)
unfolding transfer_shares
handed_on = refl

transfer_shares-IsCredentialed_example :
    IsCredentialed derive 5 "bank" info
    × IsCredentialed derive 5 "desk" desk
    × (◌≡◌ {A = String} "VAULT-XAU" "VAULT-XAU")
    × (◌≡◌ {A = String} "VAULT-XAU" "VAULT-XAU")
    × (0 < 300)
    × (◌≡◌ {A = Bool} false false)
    × Moves 300
        (shares_of "bank" 1000)
        (shares_of "desk" 0)
        (shares_of "bank" 700, shares_of "desk" 300)
transfer_shares-IsCredentialed_example =
    transfer_shares-IsCredentialed tokens derive 5 "bank" info desk 300 (new_market gold).vault
      (shares_of "bank" 1000) (shares_of "desk" 0) (shares_of "bank" 700) (shares_of "desk" 300)
      handed_on
