-- ===== src/AssetVault/Funds.antt =====
-- oragami-vault/programs/multi-asset-vault/src/instructions: deposit.rs, redeem.rs and
-- transfer_shares.rs. The addresses of the mints and of the vault's token account are assumed, which
-- the constraints on the accounts compare.
use oragami.Prelude.{
  ℕ, ◌+◌, ◌-◌, ◌*◌, ◌/◌, String, not, Option, ltb, leb, ◌==◌, if◌then◌else◌, string_eq, nat_eq,
}
use oragami.Program.Vault.{TravelRuleData, nav_bps_denominator}
use oragami.Program.Market.{TokenProgram, minus}
use oragami.AssetVault.Attempt.{
  Attempt, done, ◌>>=◌, ◌>>◌, require, ok_or, checked, constraint, vault_paused, deposit_too_small,
  deposit_too_large, insufficient_vault_funds, overflow, zero_shares, wrong_share_mint,
  token_refused,
}
use oragami.AssetVault.State.{AssetVault, AssetMarket, CredentialInfo}
use oragami.AssetVault.Gate.{expected_pda, check_credential, check_receiver, check_travel_rule}

-- `checked_div`
abbrev divided : ℕ → ℕ → Attempt ℕ
divided p n = do require (not (n == 0)) overflow; done (p / n)

-- shares = amount * 10000 / nav
unfoldable pub shares_for : ℕ → ℕ → Attempt ℕ
shares_for amount nav = do
  p ← checked (amount * nav_bps_denominator)
  shares ← divided p nav
  require (ltb 0 shares) zero_shares
  done shares

-- assets = shares * nav / 10000
unfoldable pub assets_for : ℕ → ℕ → Attempt ℕ
assets_for shares nav = do p ← checked (shares * nav); done (p / nav_bps_denominator)

unfoldable pub add_totals : ℕ → ℕ → AssetVault → Attempt AssetVault
add_totals amount shares v = do
  deposits ← checked (v.total_deposits + amount)
  supply ← checked (v.total_supply + shares)
  done (record v { total_deposits = deposits; total_supply = supply })

module _ (derive : String → String → String) where
  -- The checks of a deposit before its amounts.
  unfoldable pub admitted : ℕ → String → CredentialInfo → ℕ → AssetVault → Attempt (Unit {0})
  unfolding check_credential
  admitted now depositor info amount v = do
    require (info.key == expected_pda derive depositor) constraint
    require (not v.paused) vault_paused
    require (leb v.min_deposit amount) deposit_too_small
    require (leb amount v.max_deposit) deposit_too_large
    check_credential derive now depositor info

module _ (tokens : TokenProgram) where
  open tokens use {burn, mint_to, transfer_in, transfer_out}

  -- From the amount to the totals: the market afterwards, and the shares.
  unfoldable pub settle : ℕ → AssetMarket → Attempt (AssetMarket × ℕ)
  unfolding shares_for add_totals
  settle amount m = do
    shares ← shares_for amount m.vault.nav_price_bps
    held ← ok_or token_refused (transfer_in m.vault_tokens amount)
    supply ← ok_or token_refused (mint_to m.share_supply shares)
    v ← add_totals amount shares m.vault
    done (record { vault = v; vault_tokens = held; share_supply = supply }, shares)

  -- The market, the travel rule record and the shares that were minted.
  unfoldable pub deposit :
      (String → String → String)
      → ℕ
      → String
      → CredentialInfo
      → Option TravelRuleData
      → ℕ
      → AssetMarket
      → Attempt (AssetMarket × Option TravelRuleData × ℕ)
  unfolding admitted check_travel_rule settle
  deposit derive now depositor info rule amount m = do
    admitted derive now depositor info amount m.vault
    rule' ← check_travel_rule m.vault depositor amount rule
    (m', shares) ← settle amount m
    done (m', rule', shares)

  -- `balance` is that of the redeemer's account. The market, and the tokens that were paid out.
  unfoldable pub redeem : ℕ → ℕ → AssetMarket → Attempt (AssetMarket × ℕ)
  unfolding assets_for
  redeem balance share_amount m = do
    require (ltb 0 share_amount) zero_shares
    assets ← assets_for share_amount m.vault.nav_price_bps
    require (leb assets m.vault_tokens) insufficient_vault_funds
    supply ← ok_or token_refused (burn balance m.share_supply share_amount)
    held ← ok_or token_refused (transfer_out m.vault_tokens assets)
    total ← ok_or overflow (minus m.vault.total_supply share_amount)
    done (
      record {
        vault = record m.vault {
          total_deposits = m.vault.total_deposits - assets;
          total_supply = total;
        };
        vault_tokens = held;
        share_supply = supply;
      },
      assets,
    )

-- A token account of the shares' or of another mint, at its address.
pub record ShareAccount : Type 0 where
  pub key : String
  pub mint : String
  pub owner : String
  pub balance : ℕ

module _ (tokens : TokenProgram) where
  open tokens use {transfer_in, transfer_out}

  -- The token program moves the amount, where both sides of it are taken. From an account to itself
  -- it checks the amount, and leaves it as it is.
  unfoldable pub moved : ℕ → ShareAccount → ShareAccount → Attempt (ShareAccount × ShareAccount)
  moved amount from to = do
    less ← ok_or token_refused (transfer_out from.balance amount)
    if from.key == to.key then done (from, to) else do
      more ← ok_or token_refused (transfer_in to.balance amount)
      done (record from { balance = less }, record to { balance = more })

  -- The two accounts afterwards. The sender signs; whether this key may take from the account is for
  -- the token program to say.
  unfoldable pub transfer_shares :
      (String → String → String)
      → ℕ
      → String
      → CredentialInfo
      → CredentialInfo
      → ℕ
      → AssetVault
      → ShareAccount
      → ShareAccount
      → Attempt (ShareAccount × ShareAccount)
  unfolding moved check_credential check_receiver
  transfer_shares derive now sender sender_info receiver_info amount v from to = do
    require (from.mint == v.share_mint) wrong_share_mint
    require (to.mint == v.share_mint) wrong_share_mint
    require (sender_info.key == expected_pda derive sender) constraint
    require (receiver_info.key == expected_pda derive to.owner) constraint
    require (ltb 0 amount) zero_shares
    require (not v.paused) vault_paused
    check_credential derive now sender sender_info
    check_receiver derive now to.owner receiver_info
    moved amount from to
