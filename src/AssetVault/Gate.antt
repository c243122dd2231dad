-- ===== src/AssetVault/Gate.antt =====
-- oragami-vault/programs/multi-asset-vault/src/instructions: the checks on credentials of deposit.rs
-- and transfer_shares.rs, and travel_rule.rs. `derive` gives the address of a wallet's credential
-- under a program.
use oragami.Prelude.{
  ℕ, String, Bool, false, not, ◌&&◌, Option, some, ltb, leb, if◌then◌else◌, ◌==◌, string_eq, nat_eq,
}
use oragami.Program.Credential.{ComplianceCredential, credential_status_active}
use oragami.Program.Vault.{TravelRuleData, travel_rule_threshold}
use oragami.AssetVault.Attempt.{
  Attempt, done, ◌>>=◌, ◌>>◌, require, ok_or, unreadable, invalid_credential_pda,
  wrong_credential_program, credential_not_active, credential_expired, credential_wallet_mismatch,
  receiver_credential_not_active, receiver_credential_expired, travel_rule_required,
  invalid_travel_rule, travel_rule_already_consumed, deposit_too_small,
}
use oragami.AssetVault.State.{AssetVault, CredentialInfo, oragami_vault_program_id}

module _ (derive : String → String → String) where
  -- The address in the constraint on the accounts of the instruction.
  abbrev pub expected_pda : String → String
  expected_pda wallet = derive wallet oragami_vault_program_id

  -- Address and owner of a credential account, and what it holds.
  unfoldable pub read_credential : String → CredentialInfo → Attempt ComplianceCredential
  read_credential wallet info = do
    require (info.key == expected_pda wallet) invalid_credential_pda
    require (info.owner == oragami_vault_program_id) wrong_credential_program
    ok_or unreadable info.content

  -- The credential of a depositor or a sender.
  unfoldable pub check_credential : ℕ → String → CredentialInfo → Attempt (Unit {0})
  unfolding read_credential
  check_credential now wallet info = do
    cred ← read_credential wallet info
    require (cred.status == credential_status_active) credential_not_active
    require (ltb now cred.expires_at) credential_expired
    require (cred.wallet == wallet) credential_wallet_mismatch

  -- The credential of a receiver, whose wallet is not compared.
  unfoldable pub check_receiver : ℕ → String → CredentialInfo → Attempt (Unit {0})
  unfolding read_credential
  check_receiver now wallet info = do
    cred ← read_credential wallet info
    require (cred.status == credential_status_active) receiver_credential_not_active
    require (ltb now cred.expires_at) receiver_credential_expired

-- The record of a deposit that needs one, as it is afterwards.
unfoldable pub consume : String → ℕ → Option TravelRuleData → Attempt (Option TravelRuleData)
consume depositor amount rule = do
  tr ← ok_or travel_rule_required rule
  require (tr.amount == amount) invalid_travel_rule
  require (tr.payer == depositor) invalid_travel_rule
  require (not tr.consumed) travel_rule_already_consumed
  done (some (record tr { consumed = Bool.true }))

unfoldable pub check_travel_rule :
    AssetVault → String → ℕ → Option TravelRuleData → Attempt (Option TravelRuleData)
unfolding consume
check_travel_rule vault depositor amount rule =
    if vault.travel_rule_required && leb travel_rule_threshold amount
    then consume depositor amount rule
    else done rule

-- `init_travel_rule`, for a nonce that the payer has not used.
unfoldable pub init_travel_rule : String → ℕ → Attempt TravelRuleData
init_travel_rule payer amount = do
  require (leb travel_rule_threshold amount) deposit_too_small
  done (record { amount = amount; payer = payer; consumed = false })
