-- ===== src/AssetVault/Forecast.antt =====
-- `preflightDeposit` of oragami-backend/src/multi-asset-vault/multi-asset-vault.service.ts against the
-- deposit of the program, on the same account of the vault. The backend reads it by its own
-- multi_asset_vault.idl.json, which has no `travel_rule_required`.
use oragami.Prelude.{
  ℕ, ◌*◌, ◌/◌, ◌≤◌, ◌≡◌, ◌≢◌, refl, ap, sym, ◌∙◌, String, true, false, not, ◌&&◌, Option, some,
  ◌==◌, nat_eq, arith,
}
use oragami.Prelude.Int.{pos, scale, quot}
use oragami.Prelude.Results.{Result, ok, err}
use oragami.Program.Vault.{TravelRuleData}
use oragami.Program.Market.{TokenProgram}
use oragami.MultiAsset.Service.{
  RawVault, AssetChain, AssetPreflight, VerifiedAsset, format_vault, get_vault_by_mint,
  verify_credential, assess, preflight_deposit,
}
use oragami.AssetVault.Attempt.{done}
use oragami.AssetVault.State.{AssetVault, AssetMarket, CredentialInfo}
use oragami.AssetVault.Funds.{admitted, deposit}
use oragami.AssetVault.FundsLaws.{deposit_parts, settle_lem, shares_for_lem}

-- The account as the backend reads it: `paused` of its IDL stands where the program writes
-- `travel_rule_required`, and a field `travelRuleRequired` is not there.
abbrev pub raw_vault : AssetVault → RawVault
raw_vault v = record {
  asset_mint = v.asset_mint;
  share_mint = v.share_mint;
  vault_token_account = v.vault_token_account;
  ticker = some v.ticker;
  nav_price_bps = some v.nav_price_bps;
  total_deposits = some v.total_deposits;
  total_supply = some v.total_supply;
  min_deposit = some v.min_deposit;
  max_deposit = some v.max_deposit;
  travel_rule_required = false;
  paused = v.travel_rule_required;
}

-- An answer with these shares, without a travel rule, and with a go-ahead where the credential has it
-- and the vault asks for no travel rule.
abbrev pub Forecasts : VerifiedAsset → ℕ → AssetVault → Result AssetPreflight → Type 0
Forecasts cred shares v (ok p) =
    (p.estimated_shares ≡ pos shares)
    × (p.requires_travel_rule ≡ false)
    × (p.paused ≡ v.travel_rule_required)
    × (p.can_deposit ≡ (cred.can_deposit && not v.travel_rule_required))
Forecasts cred shares v (err e) = ⊥

abbrev pub GoesAhead : Result AssetPreflight → Type 0
GoesAhead (ok p) = p.can_deposit ≡ true
GoesAhead (err e) = ⊥

admitted_bounds :
    (derive : String → String → String) (now : ℕ) (depositor : String) (info : CredentialInfo)
    (amount : ℕ) (v : AssetVault)
    → admitted derive now depositor info amount v ≡ done tt
    → (v.min_deposit ≤ amount) × (amount ≤ v.max_deposit)
unfolding admitted
admitted_bounds derive now depositor info amount v h = ground arith

module _ (chain : AssetChain) (amount : ℕ) (v : AssetVault) where
  scale-pos : scale 10000 (pos amount) ≡ pos (amount * 10000)
  scale-pos = ground arith

  assess-Forecasts :
      (cred : VerifiedAsset) (shares : ℕ)
      → v.min_deposit ≤ amount
      → amount ≤ v.max_deposit
      → v.nav_price_bps ≢ 0
      → shares ≡ (amount * 10000) / v.nav_price_bps
      → Forecasts cred shares v (assess chain cred (format_vault chain (raw_vault v)) (pos amount))
  unfolding assess format_vault
  assess-Forecasts cred shares least most nav e =
      let some_nav : (v.nav_price_bps == 0) ≡ false = ground arith in
      rw some_nav
        (ap (λ a. quot a v.nav_price_bps) scale-pos ∙ ap pos (sym e), refl, refl, ground arith)

  -- What the backend reads.
  module _ (now_ms : ℕ) (wallet mint amount_text : String) (cred : VerifiedAsset)
      (mint_key : chain.is_public_key mint ≡ true)
      (parsed : chain.big_int amount_text ≡ some (pos amount))
      (credential : verify_credential chain now_ms wallet ≡ ok cred)
      (vault : chain.fetch_vault mint ≡ some (raw_vault v)) where
    vault_lem : get_vault_by_mint chain mint ≡ ok (format_vault chain (raw_vault v))
    unfolding get_vault_by_mint
    vault_lem = ground (arith, mint_key, vault)

    -- The answer, from the accounts.
    preflight_lem :
        preflight_deposit chain now_ms wallet mint amount_text
        ≡ assess chain cred (format_vault chain (raw_vault v)) (pos amount)
    unfolding preflight_deposit
    preflight_lem = ground (arith, credential, vault_lem, parsed)

    -- of a deposit that the program takes, the preflight on the same account of the vault, for a mint
    -- and a wallet that are public keys and a text that is the amount, answers with the exact number
    -- of shares and never asks for a travel rule record, whatever it has found of the credential; it gives the go-ahead exactly if the credential that it found has it and
    -- the vault does not require the travel rule, since it takes such a vault for a paused one.
    pub preflight-deposit :
        (tokens : TokenProgram) (derive : String → String → String) (now : ℕ) (depositor : String)
        (info : CredentialInfo) (rule rule' : Option TravelRuleData) (m m' : AssetMarket)
        (shares : ℕ)
        → m.vault ≡ v
        → deposit tokens derive now depositor info rule amount m ≡ done (m', rule', shares)
        → Forecasts cred shares v (preflight_deposit chain now_ms wallet mint amount_text)
    preflight-deposit tokens derive now depositor info rule rule' m m' shares same taken =
        let parts =
          deposit_parts tokens derive now depositor info rule rule' amount m m' shares taken in
        let settled = settle_lem tokens amount m m' shares parts.2 in
        let worth = shares_for_lem amount m.vault.nav_price_bps shares settled.0 in
        let (least, most) = admitted_bounds derive now depositor info amount m.vault parts.0 in
        rw preflight_lem (
          assess-Forecasts cred shares (ground (arith, least, same)) (ground (arith, most, same))
            (ground (arith, worth.2, same)) (ground (arith, worth.0, same)))
