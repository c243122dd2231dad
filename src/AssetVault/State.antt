-- ===== src/AssetVault/State.antt =====
-- oragami-vault/programs/multi-asset-vault/src/state.rs and constants.rs. Bumps are left out; an
-- instant is a natural number. Credentials and travel rule records are laid out as in the program
-- oragami-vault.
use oragami.Prelude.{ℕ, String, Bool, Option, List}
use oragami.Program.Credential.{ComplianceCredential}

pub record Factory : Type 0 where
  pub authority : String
  pub fee_bps : ℕ
  pub registered_assets : List String

pub record AssetVault : Type 0 where
  pub asset_mint : String
  pub share_mint : String
  pub vault_token_account : String
  pub nav_price_bps : ℕ
  pub total_deposits : ℕ
  pub total_supply : ℕ
  pub min_deposit : ℕ
  pub max_deposit : ℕ
  pub ticker : List ℕ
  pub travel_rule_required : Bool
  pub paused : Bool

-- The account of a vault, the balance of its token account, and the supply of its shares.
pub record AssetMarket : Type 0 where
  pub vault : AssetVault
  pub vault_tokens : ℕ
  pub share_supply : ℕ

-- An account that is passed unchecked: its address, the program that owns it, and the credential
-- that its data deserialize to.
pub record CredentialInfo : Type 0 where
  pub key : String
  pub owner : String
  pub content : Option ComplianceCredential

abbrev pub max_nav_change_bps : ℕ
max_nav_change_bps = 5000

abbrev pub max_assets : ℕ
max_assets = 16

abbrev pub oragami_vault_program_id : String
oragami_vault_program_id = "ihUcHpWkfpeE6cH8ycusgyaqNMGGJj8krEyWox1m6aP"
