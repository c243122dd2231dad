-- ===== src/Deposits/Preflight.antt =====
-- oragami-backend/src/deposits/deposits.service.ts: `preflight`, and the profit of a deposit in
-- `listByInstitutionWallet`. The reads of the chain are arguments, `none` where they throw.
use oragami.Prelude.{
  ℕ, String, Bool, false, not, Option, none, some, if◌then◌else◌, ◌otherwise◌, ◌==◌, string_eq,
  nat_eq, List, map, filter,
}
use oragami.Prelude.Int.{ℤ, pos, leb_ℤ, ltb_ℤ, scale, quot, ◌-ℤ◌, pos_part}
use oragami.Prelude.Results.{
  Action, bad_request, not_found, thrown, pure, throw_if, gets, or_throw, ◌>>=◌, ◌>>◌,
}
use oragami.Database.{Db, Institution, Deposit, find_by_wallet}
use oragami.Program.Credential.{ComplianceCredential}
use oragami.Crank.Service.{VaultAccount}

pub record PreflightDto : Type 0 where
  pub wallet : String
  pub usdc_amount : String

-- The text of `credentialStatus`: 'onchain_n', or a text that is 'active', 'not_found' or what the
-- row of the institution says.
pub data CredentialStatus : Type 0 where
  onchain : ℕ → CredentialStatus
  text : String → CredentialStatus

pub record Preflight : Type 0 where
  pub can_deposit : Bool
  pub reason : Option String
  pub requires_travel_rule : Bool
  pub credential_status : CredentialStatus
  pub current_nav : ℕ
  pub estimated_cvault : ℤ

abbrev pub travel_rule_threshold : ℕ
travel_rule_threshold = 1000000000

abbrev pub onchain_active : ℕ
onchain_active = 1

-- `credentialStatus === 'active'`
abbrev pub is_active : CredentialStatus → Bool
is_active (onchain n) = false
is_active (text s) = s == "active"

unfoldable pub credential_status_of :
    Option ComplianceCredential → Option Institution → CredentialStatus
credential_status_of (some c) row =
    if c.status == onchain_active then text "active" else onchain c.status
credential_status_of none none = text "not_found"
credential_status_of none (some row) = text row.credential_status

abbrev reason_of : Bool → Bool → Option String
reason_of active paused =
    if paused
    then some "Vault is paused"
    else if active
    then none
    else some "Credential is not active on-chain"

-- `big_int` is `BigInt(text)` and `is_public_key` that `new PublicKey(text)` does not throw.
module _ (big_int : String → Option ℤ) (is_public_key : String → Bool) where
  unfoldable pub preflight :
      PreflightDto → Option ComplianceCredential → Option VaultAccount → Action (Db ℕ) Preflight
  preflight dto credential vault = do
    amount ← or_throw (thrown "SyntaxError") (big_int dto.usdc_amount)
    throw_if (not (is_public_key dto.wallet)) (thrown "Invalid public key input")
    row ← gets (λ db. find_by_wallet dto.wallet db.institutions)
    let status = credential_status_of credential row
    vs ← or_throw (thrown "readVaultState failed") vault
    let nav = vs.nav_price_bps otherwise 0
    throw_if (nav == 0) (bad_request "Vault NAV is zero or unreadable")
    pure (record {
      can_deposit = if vs.paused then false else is_active status;
      reason = reason_of (is_active status) vs.paused;
      requires_travel_rule = leb_ℤ (pos travel_rule_threshold) amount;
      credential_status = status;
      current_nav = nav;
      estimated_cvault = quot (scale 10000 amount) nav;
    })

-- `Number(((nav - d.navAtDeposit) * 10_000n) / d.navAtDeposit)`
unfoldable pub pnl_bps : ℤ → ℤ → ℤ
pnl_bps nav at_deposit =
    if ltb_ℤ (pos 0) at_deposit
    then quot (scale 10000 (nav -ℤ at_deposit)) (pos_part at_deposit)
    else pos 0

-- A row of `listByInstitutionWallet`.
pub record ListedDeposit : Type 0 where
  pub deposit : Deposit
  pub current_nav_bps : ℤ
  pub pnl : ℤ

-- The NAV that was given, else the one on the chain, else 10 000.
abbrev nav_to_use : Option ℤ → Option VaultAccount → ℤ
nav_to_use (some nav) vault = nav
nav_to_use none none = pos 10000
nav_to_use none (some vs) = pos (vs.nav_price_bps otherwise 10000)

unfoldable pub list_by_institution_wallet :
    String → Option ℤ → Option VaultAccount → Action (Db ℕ) (List ListedDeposit)
list_by_institution_wallet wallet current vault = do
  row ← gets (λ db. find_by_wallet wallet db.institutions)
  inst ← or_throw (not_found "Institution not found") row
  let nav = nav_to_use current vault
  deposits ← gets (λ db. filter (λ d. d.institution_id == inst.id) db.deposits)
  pure (
      map (λ d. record { deposit = d; current_nav_bps = nav; pnl = pnl_bps nav d.nav_at_deposit })
        deposits)
