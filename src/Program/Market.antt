-- ===== src/Program/Market.antt =====
-- oragami-vault/programs/oragami-vault/src/lib.rs: what moves the funds and the counters of the
-- vault. A transaction that fails changes nothing, so an instruction answers with the next state
-- or with `none`. That the caller is the operator or the authority is assumed, as are the accounts'
-- addresses; instants are not negative. The SPL token program is a `TokenProgram`.
use oragami.Prelude.{
  ℕ, ◌+◌, ◌-◌, ◌*◌, ◌/◌, ◌≤◌, ◌≡◌, ◌⊎◌, String, Bool, false, not, Option, none, some, leb,
  if◌then◌else◌, nat_eq,
}
use oragami.Prelude.Options.{◌>>=◌, ◌>>◌, require}
use oragami.Program.Credential.{ComplianceCredential}
use oragami.Program.Vault.{VaultState, TravelRuleData, nav_bps_denominator, fits, deposit}

-- The calls of the SPL token program, on the balances and the supply that they touch; `none` where
-- the program refuses. A burn and a transfer take no more than is there.
pub record TokenProgram : Type 0 where
  -- the balance of the holder, the supply of the mint, the amount
  pub burn : ℕ → ℕ → ℕ → Option ℕ
  pub mint_to : ℕ → ℕ → Option ℕ
  pub transfer_in : ℕ → ℕ → Option ℕ
  pub transfer_out : ℕ → ℕ → Option ℕ
  pub burn_lem :
      (balance s a : ℕ) → (burn balance s a ≡ none) ⊎ ((burn balance s a ≡ some (s - a)) × (a ≤ s))
  pub mint_lem : (s a : ℕ) → (mint_to s a ≡ none) ⊎ (mint_to s a ≡ some (s + a))
  pub in_lem : (b a : ℕ) → (transfer_in b a ≡ none) ⊎ (transfer_in b a ≡ some (b + a))
  pub out_lem :
      (b a : ℕ) → (transfer_out b a ≡ none) ⊎ ((transfer_out b a ≡ some (b - a)) × (a ≤ b))

-- The vault account, the balance of its token account, and the supplies of its two mints.
pub record Market : Type 0 where
  pub vault : VaultState
  pub pending_yield : ℕ
  pub last_yield_claim : ℕ
  pub usx_allocation_bps : ℕ
  pub apy_bps : ℕ
  pub secondary_market_enabled : Bool
  pub vault_tokens : ℕ
  pub cvault_supply : ℕ
  pub trade_supply : ℕ

pub record InitializeVaultParams : Type 0 where
  pub min_deposit : ℕ
  pub max_deposit : ℕ
  pub usx_allocation_bps : ℕ
  pub apy_bps : ℕ
  pub secondary_market_enabled : Bool

-- The token account and the mint are made by the same transaction; the mint of the trade tokens is a
-- parameter that is not checked, and `trade_supply` is what exists of it.
unfoldable pub initialize_vault : ℕ → ℕ → InitializeVaultParams → Option Market
initialize_vault now trade_supply params =
    if leb params.min_deposit params.max_deposit
    then some (record {
      vault = record {
        paused = false;
        min_deposit = params.min_deposit;
        max_deposit = params.max_deposit;
        nav_price_bps = nav_bps_denominator;
        total_deposits = 0;
        total_supply = 0;
      };
      pending_yield = 0;
      last_yield_claim = now;
      usx_allocation_bps = params.usx_allocation_bps;
      apy_bps = params.apy_bps;
      secondary_market_enabled = params.secondary_market_enabled;
      vault_tokens = 0;
      cvault_supply = 0;
      trade_supply = trade_supply;
    })
    else none

-- `checked_sub`
abbrev pub minus : ℕ → ℕ → Option ℕ
minus a b = if leb b a then some (a - b) else none

-- `cvault * nav / 10000`
unfoldable pub usdc_for : ℕ → ℕ → Option ℕ
usdc_for cvault nav = do p ← fits (cvault * nav); some (p / nav_bps_denominator)

module _ (tokens : TokenProgram) where
  open tokens use {burn, mint_to, transfer_in, transfer_out}

  -- With the two token calls between the checks of `deposit` and its totals.
  unfoldable pub take_deposit :
      ℕ
      → String
      → ComplianceCredential
      → Option TravelRuleData
      → ℕ
      → Market
      → Option (Market × Option TravelRuleData)
  take_deposit now payer credential rule amount m = do
    (vs, rule', cvault) ← deposit now payer credential rule amount m.vault
    held ← transfer_in m.vault_tokens amount
    supply ← mint_to m.cvault_supply cvault
    some (record m { vault = vs; vault_tokens = held; cvault_supply = supply }, rule')

  -- `balance` is that of the redeemer's account.
  unfoldable pub redeem : ℕ → ℕ → Market → Option Market
  unfolding usdc_for
  redeem balance cvault_amount m = do
    require (not m.vault.paused)
    usdc ← usdc_for cvault_amount m.vault.nav_price_bps
    require (leb usdc m.vault_tokens)
    supply ← burn balance m.cvault_supply cvault_amount
    held ← transfer_out m.vault_tokens usdc
    total ← minus m.vault.total_supply cvault_amount
    some (record m {
      vault = record m.vault {
        total_deposits = m.vault.total_deposits - usdc;
        total_supply = total;
      };
      vault_tokens = held;
      cvault_supply = supply;
    })

  unfoldable pub convert_to_tradeable : ℕ → ℕ → Market → Option Market
  convert_to_tradeable balance amount m = do
    require (not m.vault.paused)
    require m.secondary_market_enabled
    supply ← burn balance m.cvault_supply amount
    trade ← mint_to m.trade_supply amount
    some (record m { cvault_supply = supply; trade_supply = trade })

  -- Back to cVAULT.
  rewrap : ℕ → Market → Option Market
  rewrap amount m = do
    supply ← mint_to m.cvault_supply amount
    some (record m { cvault_supply = supply })

  -- For USDC at the NAV.
  cash : ℕ → Market → Option Market
  unfolding usdc_for
  cash amount m = do
    usdc ← usdc_for amount m.vault.nav_price_bps
    require (leb usdc m.vault_tokens)
    held ← transfer_out m.vault_tokens usdc
    deposits ← minus m.vault.total_deposits usdc
    total ← minus m.vault.total_supply amount
    some (record m {
      vault = record m.vault { total_deposits = deposits; total_supply = total };
      vault_tokens = held;
    })

  unfoldable pub redeem_tradeable : ℕ → ℕ → Bool → Market → Option Market
  unfolding rewrap cash
  redeem_tradeable balance amount redeem_to_cvault m = do
    require (not m.vault.paused)
    trade ← burn balance m.trade_supply amount
    if redeem_to_cvault
        then rewrap amount (record m { trade_supply = trade })
        else cash amount (record m { trade_supply = trade })
