-- ===== src/Program/Credential.antt =====
-- oragami-vault/programs/oragami-vault/src/lib.rs: the credential accounts, one for each wallet,
-- and the two instructions on them. The accounts are a list; the backend signs as the authority.
-- An `i64` instant is a natural number here: the backend sends none before 1970.
use oragami.Prelude.{
  ℕ, String, Option, none, some, List, ◌∷◌, map, find, ltb, is_some, if◌then◌else◌, ◌==◌, string_eq,
  nat_eq,
}

pub record ComplianceCredential : Type 0 where
  pub wallet : String
  pub institution_name : List ℕ
  pub jurisdiction : List ℕ
  pub tier : ℕ
  pub kyc_level : ℕ
  pub aml_coverage : ℕ
  pub attestation_hash : List ℕ
  pub issued_at : ℕ
  pub expires_at : ℕ
  pub status : ℕ

abbrev pub credential_status_active : ℕ
credential_status_active = 1

abbrev pub credential_status_revoked : ℕ
credential_status_revoked = 3

-- The account at the address that belongs to the wallet.
abbrev pub account_of : String → List ComplianceCredential → Option ComplianceCredential
account_of wallet = find (λ c. c.wallet == wallet)

-- `issue_credential`: `init` fails if the account exists. The status of `params` is not read.
unfoldable pub issue_credential :
    ComplianceCredential → List ComplianceCredential → Option (List ComplianceCredential)
issue_credential params accounts =
    if is_some (account_of params.wallet accounts)
    then none
    else if ltb params.issued_at params.expires_at
    then some ((record params { status = credential_status_active }) ∷ accounts)
    else none

abbrev pub revoke_account : ComplianceCredential → ComplianceCredential
revoke_account c = record c { status = credential_status_revoked }

abbrev pub set_revoked : String → List ComplianceCredential → List ComplianceCredential
set_revoked wallet = map (λ c. if c.wallet == wallet then revoke_account c else c)

-- `revoke_credential`: the account must be there, and not revoked already.
unfoldable pub revoke_credential :
    String → List ComplianceCredential → Option (List ComplianceCredential)
revoke_credential wallet accounts = elim (account_of wallet accounts) [
  | none ↦ none
  | some c ↦
      if c.status == credential_status_revoked then none else some (set_revoked wallet accounts)
]
