-- ===== src/Program/Backing.antt =====
-- The funds of the vault: every transaction of the program, and what others may do to its accounts,
-- as steps.
use oragami.Prelude.{
  ℕ, ◌+◌, ◌-◌, ◌*◌, ◌/◌, ◌≤◌, ◌≡◌, inl, inr, String, Bool, Option, some, arith, Option-cases,
}
use oragami.Program.Credential.{ComplianceCredential}
use oragami.Program.Vault.{TravelRuleData, deposit}
use oragami.Program.VaultLaws.{deposit_totals}
use oragami.Program.Market.{
  Market, InitializeVaultParams, TokenProgram, initialize_vault, usdc_for, take_deposit, redeem,
  convert_to_tradeable, redeem_tradeable,
}
use oragami.Program.Yield.{process_yield, distribute_yield, sync_yield}
use oragami.Program.Admin.{UpdateConfigParams, set_pause, update_config, set_nav}

-- What was booked as deposits is held, and the tokens in circulation are counted but for `extra`.
abbrev pub IsBacked : ℕ → Market → Type 0
IsBacked extra m =
    (m.vault.total_deposits ≤ m.vault_tokens)
    × (m.cvault_supply + m.trade_supply ≤ m.vault.total_supply + extra)

module _ (tokens : TokenProgram) where
  -- One transaction. The last three are not of the program: anyone may send USDC to the vault, and
  -- a holder may burn tokens without it.
  pub data Step (m u : Market) : Type 0 where
    deposited :
        (now : ℕ) (payer : String) (c : ComplianceCredential) (rule rule' : Option TravelRuleData)
        (amount : ℕ)
        → take_deposit tokens now payer c rule amount m ≡ some (u, rule')
        → Step m u
    redeemed : (balance cvault : ℕ) → redeem tokens balance cvault m ≡ some u → Step m u
    converted :
        (balance amount : ℕ) → convert_to_tradeable tokens balance amount m ≡ some u → Step m u
    traded_in :
        (balance amount : ℕ) (to_cvault : Bool)
        → redeem_tradeable tokens balance amount to_cvault m ≡ some u
        → Step m u
    accrued : (now : ℕ) → process_yield now m ≡ some u → Step m u
    distributed : (now : ℕ) → u ≡ distribute_yield now m → Step m u
    synced : (now : ℕ) → u ≡ sync_yield now m → Step m u
    paused : (on : Bool) → u ≡ set_pause on m → Step m u
    configured :
        (mandate : Option ℕ) (params : UpdateConfigParams)
        → update_config mandate params m ≡ some u
        → Step m u
    priced : (nav : ℕ) → set_nav nav m ≡ some u → Step m u
    donated : (n : ℕ) → u ≡ record m { vault_tokens = m.vault_tokens + n } → Step m u
    burned_cvault : (n : ℕ) → u ≡ record m { cvault_supply = m.cvault_supply - n } → Step m u
    burned_trade : (n : ℕ) → u ≡ record m { trade_supply = m.trade_supply - n } → Step m u

  pub data Reach (m : Market) : Market → Type 0 where
    here : Reach m m
    after : {t u : Market} → Reach m t → Step t u → Reach m u

module _ (tokens : TokenProgram) (extra : ℕ) where
  open tokens use {burn_lem, mint_lem, in_lem, out_lem}

  take_deposit-IsBacked :
      (now amount : ℕ) (payer : String) (c : ComplianceCredential)
      (rule rule' : Option TravelRuleData) (m u : Market)
      → take_deposit tokens now payer c rule amount m ≡ some (u, rule')
      → IsBacked extra m
      → IsBacked extra u
  unfolding take_deposit
  take_deposit-IsBacked now amount payer c rule rule' m u taken backed =
      elim (Option-cases (deposit now payer c rule amount m.vault)) [
        | inl e ↦ ground (arith, e)
        | inr ((vs, r, cvault), e) ↦
            let totals = deposit_totals now amount payer c rule r m.vault vs cvault e in
            ground (arith, e, in_lem m.vault_tokens amount, mint_lem m.cvault_supply cvault)
      ]

  redeem-IsBacked :
      (balance cvault : ℕ) (m u : Market)
      → redeem tokens balance cvault m ≡ some u
      → IsBacked extra m
      → IsBacked extra u
  unfolding redeem usdc_for
  redeem-IsBacked balance cvault m u done backed = ground (
    arith,
    burn_lem balance m.cvault_supply cvault,
    out_lem m.vault_tokens (cvault * m.vault.nav_price_bps / 10000),
  )

  convert_to_tradeable-IsBacked :
      (balance amount : ℕ) (m u : Market)
      → convert_to_tradeable tokens balance amount m ≡ some u
      → IsBacked extra m
      → IsBacked extra u
  unfolding convert_to_tradeable
  convert_to_tradeable-IsBacked balance amount m u done backed =
      ground (arith, burn_lem balance m.cvault_supply amount, mint_lem m.trade_supply amount)

  redeem_tradeable-IsBacked :
      (balance amount : ℕ) (to_cvault : Bool) (m u : Market)
      → redeem_tradeable tokens balance amount to_cvault m ≡ some u
      → IsBacked extra m
      → IsBacked extra u
  unfolding redeem_tradeable usdc_for
  redeem_tradeable-IsBacked balance amount to_cvault m u done backed = ground (
    arith,
    burn_lem balance m.trade_supply amount,
    mint_lem m.cvault_supply amount,
    out_lem m.vault_tokens (amount * m.vault.nav_price_bps / 10000),
  )

  process_yield-IsBacked :
      (now : ℕ) (m u : Market) → process_yield now m ≡ some u → IsBacked extra m → IsBacked extra u
  unfolding process_yield
  process_yield-IsBacked now m u done backed = ground arith

  update_config-IsBacked :
      (mandate : Option ℕ) (params : UpdateConfigParams) (m u : Market)
      → update_config mandate params m ≡ some u
      → IsBacked extra m
      → IsBacked extra u
  unfolding update_config
  update_config-IsBacked mandate params m u done backed = ground arith

  Step-IsBacked : (m u : Market) → Step tokens m u → IsBacked extra m → IsBacked extra u
  unfolding distribute_yield set_nav
  Step-IsBacked m u (deposited now payer c rule rule' amount e) b =
      take_deposit-IsBacked now amount payer c rule rule' m u e b
  Step-IsBacked m u (redeemed balance cvault e) b = redeem-IsBacked balance cvault m u e b
  Step-IsBacked m u (converted balance amount e) b =
      convert_to_tradeable-IsBacked balance amount m u e b
  Step-IsBacked m u (traded_in balance amount to e) b =
      redeem_tradeable-IsBacked balance amount to m u e b
  Step-IsBacked m u (accrued now e) b = process_yield-IsBacked now m u e b
  Step-IsBacked m u (distributed now e) b = ground arith
  Step-IsBacked m u (synced now e) b = ground arith
  Step-IsBacked m u (paused on e) b = ground arith
  Step-IsBacked m u (configured mandate params e) b = update_config-IsBacked mandate params m u e b
  Step-IsBacked m u (priced nav e) b = ground arith
  Step-IsBacked m u (donated n e) b = ground arith
  Step-IsBacked m u (burned_cvault n e) b = ground arith
  Step-IsBacked m u (burned_trade n e) b = ground arith

  run-IsBacked : {m u : Market} → IsBacked extra m → Reach tokens m u → IsBacked extra u
  run-IsBacked b here = b
  run-IsBacked b (after {t = t} {u = u} r s) = Step-IsBacked t u s (run-IsBacked b r)

-- from a vault that was just initialised, after any sequence of the program's transactions, of gifts
-- of USDC to the vault and of burns by the holders, the vault holds at least the deposits that it has
-- booked, and counts at least the tokens of both kinds in circulation, less those that the mint of the
-- trade tokens, which is not checked, had at the start.
pub Reach-IsBacked :
    (tokens : TokenProgram) (now trade_supply : ℕ) (params : InitializeVaultParams) (m u : Market)
    → initialize_vault now trade_supply params ≡ some m
    → Reach tokens m u
    → IsBacked trade_supply u
unfolding initialize_vault
Reach-IsBacked tokens now trade_supply params m u started r =
    run-IsBacked tokens trade_supply (ground arith) r
