-- ===== src/Program/CredentialLaws.antt =====
-- The account of a wallet after the two instructions.
use mathlib.Core.Option
use oragami.Prelude.{
  String, ◌≡◌, some, List, [], ◌∷◌, arith, if◌then◌else◌, ◌==◌, string_eq, eq_iff,
}
use oragami.Program.Credential.{
  ComplianceCredential, account_of, revoke_account, set_revoked, issue_credential,
  revoke_credential,
}

pub account_of-set_revoked :
    (w wallet : String) (cs : List ComplianceCredential)
    → account_of w (set_revoked wallet cs)
      ≡ (if wallet == w then Option.map revoke_account (account_of w cs) else account_of w cs)
account_of-set_revoked w wallet [] = ground arith
account_of-set_revoked w wallet (c ∷ cs) = ground (
  arith,
  eq_iff c.wallet wallet,
  eq_iff c.wallet w,
  eq_iff wallet w,
  account_of-set_revoked w wallet cs,
)

-- After a revocation that was taken the account of the wallet is there and revoked, and the
-- accounts of other wallets are what they were.
pub revoke_credential_lem :
    (w wallet : String) (cs cs' : List ComplianceCredential)
    → revoke_credential wallet cs ≡ some cs'
    → account_of w cs'
      ≡ (if wallet == w then Option.map revoke_account (account_of w cs) else account_of w cs)
unfolding revoke_credential
revoke_credential_lem w wallet cs cs' h = ground (arith, account_of-set_revoked w wallet cs)

pub revoke_credential_known :
    (wallet : String) (cs cs' : List ComplianceCredential)
    → revoke_credential wallet cs ≡ some cs'
    → (c : ComplianceCredential) × (account_of wallet cs ≡ some c)
unfolding revoke_credential
revoke_credential_known wallet cs cs' h = ground arith

-- After an issue that was taken the account of the wallet is the new one, active.
pub issue_credential_lem :
    (w : String) (p : ComplianceCredential) (cs cs' : List ComplianceCredential)
    → issue_credential p cs ≡ some cs'
    → account_of w cs' ≡ (if p.wallet == w then some (record p { status = 1 }) else account_of w cs)
unfolding issue_credential
issue_credential_lem w p cs cs' h = ground arith
